-- ===== src/Rooms/InOrder/Lobby.antt =====
-- The events of the lobby keep a room in order: the handlers of
-- ygopro/room/domain/states/YGOProWaitingState.ts, the start of the match aside.
use edopro_server_ts.Prelude.{
  ℕ, ◌≡◌, refl, sym, subst, ap, ◌∙◌, inl, inr, Option, none, some, Bool, true, false, ◌||◌, arith,
  if◌then◌else◌,
}
use mathlib.Core.List.{Memᴰ}
use edopro_server_ts.Prelude.Eq.{nat_eq}
use edopro_server_ts.Prelude.Marks.{All-Mem, Mem-append}
use edopro_server_ts.Deck.{Deck}
use edopro_server_ts.ReservedDuel.Session.{ReservedDuelSession}
use edopro_server_ts.Rooms.{Room, waiting_state, clients}
use edopro_server_ts.Rooms.Clients.{YgoClient, is_spectator, not_ready}
use edopro_server_ts.Rooms.Seats.{Seat, calculate_place, next_available_position}
use edopro_server_ts.Rooms.FreeSeats.{Seated, IsFree, calculate_place-IsFree}
use edopro_server_ts.Rooms.FreeSeats.Next.{next_available_position-IsFree}
use edopro_server_ts.Rooms.WellSeated.{InStands}
use edopro_server_ts.Rooms.WellSeated.Moves.{move-WellSeated, sit-WellSeated, stand-WellSeated}
use edopro_server_ts.Rooms.Lobby.{
  place_in, player_to_spectator_unsafe, spectator_to_player_unsafe, sit_down, move_to,
  move_player_to_another_cell_unsafe, set_decks_to_player_unsafe, ready_seat, not_ready_unsafe,
  readied_with,
}
use edopro_server_ts.Rooms.Waiting.{handle_to_observer, handle_to_duel}
use edopro_server_ts.Rooms.InOrder.{InOrder, in_lobby, change-InOrder}

-- Both branches of a test keep the order.
pub if-InOrder :
    (test : Bool) {a b : Room}
    → (test ≡ true → InOrder a)
    → (test ≡ false → InOrder b)
    → InOrder (if test then a else b)
if-InOrder true yes_ no_ = yes_ refl
if-InOrder false yes_ no_ = no_ refl

pub either-InOrder :
    (test : Bool) {a b : Room} → InOrder a → InOrder b → InOrder (if test then a else b)
either-InOrder true here there = here
either-InOrder false here there = there

pub reserved-InOrder :
    (reserved : Option ReservedDuelSession) {a : Room} {b : ReservedDuelSession → Room}
    → (reserved ≡ none → InOrder a)
    → ((session : ReservedDuelSession) → reserved ≡ some session → InOrder (b session))
    → InOrder (elim reserved [ none ↦ a | some session ↦ b session ])
reserved-InOrder none free held = free refl
reserved-InOrder (some session) free held = held session refl

pub not_ready_unsafe-InOrder :
    (player : YgoClient) {room : Room} → InOrder room → InOrder (not_ready_unsafe player room)
unfolding not_ready_unsafe
not_ready_unsafe-InOrder player o =
    if-InOrder _ (λ _. o)
      (λ _. change-InOrder o player.object not_ready (λ c. (refl, refl, refl, refl)))

ready_seat-InOrder :
    (deck : Deck) (client : Option YgoClient) {room : Room}
    → InOrder room
    → InOrder (ready_seat deck client room)
ready_seat-InOrder deck none o = o
ready_seat-InOrder deck (some client) o =
    change-InOrder o client.object (readied_with deck) (λ c. (refl, refl, refl, refl))

pub set_decks_to_player_unsafe-InOrder :
    (position : ℕ) (deck : Deck) {room : Room}
    → InOrder room
    → InOrder (set_decks_to_player_unsafe position deck room)
unfolding set_decks_to_player_unsafe
set_decks_to_player_unsafe-InOrder position deck o = ready_seat-InOrder deck _ o

module _ {room : Room} (o : InOrder room) (waits : room.room_state ≡ waiting_state) where
  open o use {one_each, well}

  pub place_in-IsFree : (seat : Seat) → place_in room ≡ some seat → IsFree 1 1 room.players seat
  place_in-IsFree seat found = calculate_place-IsFree 1 1 room.players seat well.seated (
      subst (λ n. calculate_place 1 n room.players none ≡ some seat) one_each.1
        (subst (λ n. calculate_place n room.team1 room.players none ≡ some seat) one_each.0 found))

  sit_down-InOrder :
      (player : YgoClient) (place : Option Seat)
      → place ≡ place_in room
      → Memᴰ player room.spectators
      → InOrder (sit_down player place room)
  sit_down-InOrder player none e m = o
  sit_down-InOrder player (some place) e m =
      in_lobby o waits (sit-WellSeated player well place m (place_in-IsFree place (sym e)))

  move_to-InOrder :
      (player : YgoClient) (place : Option Seat)
      → next_available_position 1 1 room.players player.position ≡ place
      → Memᴰ player room.players
      → InOrder (move_to player place room)
  move_to-InOrder player none e m = o
  move_to-InOrder player (some place) e m = in_lobby o waits (
      move-WellSeated player well place m
        (next_available_position-IsFree room.players player place well.seated m e))

  -- A client in the room that is no spectator is a player, and the other way round.
  is_player :
      (player : YgoClient)
      → Memᴰ player (clients room)
      → is_spectator player ≡ false
      → Memᴰ player room.players
  is_player player m not_spectator = elim (Mem-append player room.players room.spectators m) [
    | inl here ↦ here
    | inr there ↦
        let (third, _) = All-Mem InStands player room.spectators well.in_stands there in
        absurd (ground arith)
  ]

  is_in_stands :
      (player : YgoClient)
      → Memᴰ player (clients room)
      → is_spectator player ≡ true
      → Memᴰ player room.spectators
  is_in_stands player m spectator = elim (Mem-append player room.players room.spectators m) [
    | inl here ↦ elim (All-Mem (Seated 1 1) player room.players well.seated here) [
      | inl (zero_, _) ↦ absurd (ground arith)
      | inr (one, _, _) ↦ absurd (ground arith)
    ]
    | inr there ↦ there
  ]

  pub handle_to_observer-InOrder :
      (player : YgoClient) → Memᴰ player (clients room) → InOrder (handle_to_observer player room)
  unfolding handle_to_observer player_to_spectator_unsafe
  handle_to_observer-InOrder player m =
      reserved-InOrder room.reserved_duel
        (λ _.
          (if-InOrder (is_spectator player || player.host) (λ _. o)
            (λ h.
              in_lobby o waits
                (stand-WellSeated player well (is_player player m (ground arith)) (ground arith)))))
        (λ _ _. o)

  move_cell-InOrder :
      (player : YgoClient)
      → Memᴰ player room.players
      → InOrder (move_player_to_another_cell_unsafe player room)
  unfolding move_player_to_another_cell_unsafe
  move_cell-InOrder player m =
      reserved-InOrder room.reserved_duel (λ _. move_to-InOrder player _ next_in m) (λ _ _. o)
    where
      next_in :
          next_available_position 1 1 room.players player.position
          ≡ next_available_position room.team0 room.team1 room.players player.position
      next_in =
          ap (λ n. next_available_position 1 n room.players player.position) (sym one_each.1)
          ∙ ap (λ n. next_available_position n room.team1 room.players player.position)
              (sym one_each.0)

  pub handle_to_duel-InOrder :
      (player : YgoClient) → Memᴰ player (clients room) → InOrder (handle_to_duel player room)
  unfolding handle_to_duel spectator_to_player_unsafe
  handle_to_duel-InOrder player m =
      reserved-InOrder room.reserved_duel
        (λ _.
          (if-InOrder (is_spectator player)
            (λ s.
              if-InOrder _ (λ _. sit_down-InOrder player _ refl (is_in_stands player m s)) (λ _. o))
            (λ s. move_cell-InOrder player (is_player player m s))))
        (λ _ _. o)
