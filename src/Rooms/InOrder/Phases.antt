-- ===== src/Rooms/InOrder/Phases.antt =====
-- The phases between the duels of a match keep a room in order: the handlers of the states of RPS,
-- choosing order and side decking of ygopro/room/domain/states.
use edopro_server_ts.Prelude.{
  ℕ, ◌≡◌, ◌≢◌, refl, sym, subst, ap, ◌∙◌, inl, inr, Option, none, some, Bool, false, not, ◌&&◌,
  ◌||◌, all, nat_eqb,
}
use edopro_server_ts.Deck.{Deck}
use edopro_server_ts.Deck.Errors.{DeckError}
use edopro_server_ts.Rooms.{
  Room, RoomState, waiting_state, rps_state, choosing_order_state, dueling_state,
  side_decking_state, choosing_order_label, dueling_label, first_of_team, change,
}
use edopro_server_ts.Rooms.Clients.{YgoClient, is_spectator, ready}
use edopro_server_ts.Rooms.Lobby.{rps, choosing_order, set_decks_to_player_unsafe, ready_seat}
use edopro_server_ts.Rooms.Waiting.{to_rps, should_validate_deck, is_error}
use edopro_server_ts.Rooms.Phases.{
  handle_rps_choice, give_hand, show_hands, won_by, get_rps_winner, handle_turn_choice,
  handle_side_deck, side_with, next_duel_when_ready, chosen_or_rps, is_reserved_deck,
}
use edopro_server_ts.Rooms.InOrder.{
  InOrder, BothTeams, label_of, SameOrder-InOrder, change-InOrder, enter-InOrder,
}
use edopro_server_ts.Rooms.InOrder.Lobby.{
  either-InOrder, not_ready_unsafe-InOrder, set_decks_to_player_unsafe-InOrder,
}
use edopro_server_ts.Rooms.InOrder.Match.{rps-InOrder, to_rps-InOrder, ready-KeepsPlace}

-- Past the lobby both sides are there.
pub both_past_lobby :
    {room : Room} → InOrder room → room.room_state ≢ waiting_state → BothTeams room.players
both_past_lobby o past = elim o.both [ inl waits ↦ absurd (past waits) | inr here ↦ here ]

module _ (room : Room) (hand0 hand1 : ℕ) (in_rps : room.room_state ≡ rps_state hand0 hand1)
    (o : InOrder room) where
  there : BothTeams room.players
  there = both_past_lobby o (λ waits. cc)

  hands-InOrder : (a b : ℕ) → InOrder (record room { room_state = rps_state a b })
  hands-InOrder a b =
      enter-InOrder o (rps_state a b) room.duel_state (ap label_of (sym in_rps) ∙ o.coherent) there

  won_by-InOrder :
      (a b : ℕ) (winner : Option YgoClient)
      → InOrder (won_by winner (record room { room_state = rps_state a b }))
  won_by-InOrder a b none = hands-InOrder a b
  won_by-InOrder a b (some winner) =
      SameOrder-InOrder (choosing_order room) _ (refl, refl, refl, refl, refl, refl, refl)
        (enter-InOrder o choosing_order_state choosing_order_label refl there)

  show_hands-InOrder : (a b : ℕ) → InOrder (show_hands a b room)
  show_hands-InOrder a b = either-InOrder (nat_eqb a 0 || nat_eqb b 0) (hands-InOrder a b) (
      either-InOrder (nat_eqb a b) (to_rps-InOrder (hands-InOrder 0 0)) (
        won_by-InOrder a b
          (first_of_team (get_rps_winner a b) (record room { room_state = rps_state a b }))))

  give_hand-InOrder : (team res : ℕ) → InOrder (give_hand team res hand0 hand1 room)
  give_hand-InOrder team res =
      either-InOrder (nat_eqb team 0) (show_hands-InOrder res hand1)
        (either-InOrder (nat_eqb team 1) (show_hands-InOrder hand0 res) o)

  pub handle_rps_choice-InOrder :
      (res : ℕ) (player : YgoClient) → InOrder (handle_rps_choice res player room)
  unfolding handle_rps_choice
  handle_rps_choice-InOrder res player =
      either-InOrder (not player.is_captain) o (by_state room.room_state in_rps)
    where
      by_state :
          (state : RoomState)
          → state ≡ rps_state hand0 hand1
          → InOrder (elim state [
            | rps_state a b ↦ give_hand player.team res a b room
            | waiting_state ↦ room
            | choosing_order_state ↦ room
            | dueling_state ↦ room
            | side_decking_state ↦ room
          ])
      by_state (rps_state a b) e =
          let first_hand : a ≡ hand0 = cc in
          let second_hand : b ≡ hand1 = cc in
          subst (λ n. InOrder (give_hand player.team res n b room)) (sym first_hand)
            (subst (λ n. InOrder (give_hand player.team res hand0 n room)) (sym second_hand)
              (give_hand-InOrder player.team res))
      by_state waiting_state e = o
      by_state choosing_order_state e = o
      by_state dueling_state e = o
      by_state side_decking_state e = o

pub handle_turn_choice-InOrder :
    (first turn : ℕ) (player : YgoClient) (room : Room)
    → room.room_state ≡ choosing_order_state
    → InOrder room
    → InOrder (handle_turn_choice first turn player room)
unfolding handle_turn_choice
handle_turn_choice-InOrder first turn player room choosing o =
    SameOrder-InOrder (record room { duel_state = dueling_label; room_state = dueling_state }) _
      (refl, refl, refl, refl, refl, refl, refl)
      (enter-InOrder o dueling_state dueling_label refl (both_past_lobby o (λ waits. cc)))

module _ {room : Room} (o : InOrder room) (here : BothTeams room.players) where
  rps_again-InOrder : InOrder (rps (to_rps (record room { turn_choice_requires_rps = false })))
  unfolding to_rps
  rps_again-InOrder =
      rps-InOrder (record room { turn_choice_requires_rps = false })
        (SameOrder-InOrder room _ (refl, refl, refl, refl, refl, refl, refl) o) here

  chosen_or_rps-InOrder : (chooser : Option ℕ) → InOrder (chosen_or_rps chooser room)
  chosen_or_rps-InOrder none = rps_again-InOrder
  chosen_or_rps-InOrder (some chooser) =
      either-InOrder room.turn_choice_requires_rps rps_again-InOrder
        (enter-InOrder o choosing_order_state choosing_order_label refl here)

  next_duel_when_ready-InOrder : InOrder (next_duel_when_ready room)
  next_duel_when_ready-InOrder =
      either-InOrder (not (all (λ (client : YgoClient). client.is_ready) room.players)) o
        (chosen_or_rps-InOrder room.client_who_chooses_turn)

ready_seat-state :
    (deck : Deck) (client : Option YgoClient) (room : Room)
    → (ready_seat deck client room).room_state ≡ room.room_state
ready_seat-state deck none room = refl
ready_seat-state deck (some client) room = refl

set_decks-state :
    (position : ℕ) (deck : Deck) (room : Room)
    → (set_decks_to_player_unsafe position deck room).room_state ≡ room.room_state
unfolding set_decks_to_player_unsafe
set_decks-state position deck room = ready_seat-state deck _ room

side_with-InOrder :
    (deck : Deck) (player : YgoClient) (room : Room)
    → room.room_state ≡ side_decking_state
    → InOrder room
    → InOrder (side_with deck player room)
side_with-InOrder deck player room siding o = next_duel_when_ready-InOrder sided (
    both_past_lobby sided (λ waits.
      absurd (siding_only (sym siding ∙ sym (set_decks-state player.position deck room) ∙ waits))))
  where
    with_deck : InOrder (set_decks_to_player_unsafe player.position deck room)
    with_deck = set_decks_to_player_unsafe-InOrder player.position deck o

    siding_only : side_decking_state ≡ waiting_state → ⊥
    siding_only e = cc

    sided :
        InOrder (change player.object ready (set_decks_to_player_unsafe player.position deck room))
    sided = change-InOrder with_deck player.object ready ready-KeepsPlace

pub handle_side_deck-InOrder :
    (validate : Deck → Option DeckError) (is_side : Bool) (built : Option Deck) (player : YgoClient)
    (room : Room)
    → room.room_state ≡ side_decking_state
    → InOrder room
    → InOrder (handle_side_deck validate is_side built player room)
unfolding handle_side_deck
handle_side_deck-InOrder validate is_side none player room siding o =
    either-InOrder (is_spectator player || not is_side) o (not_ready_unsafe-InOrder player o)
handle_side_deck-InOrder validate is_side (some deck) player room siding o =
    either-InOrder (is_spectator player || not is_side) o (
      either-InOrder
        ((should_validate_deck room && is_error (validate deck))
          || not (is_reserved_deck player deck room))
        (not_ready_unsafe-InOrder player o) (side_with-InOrder deck player room siding o))
