-- ===== src/Rooms/InOrder/Match.antt =====
-- The start of a match and the phases between its duels keep a room in order:
-- `handleTryStart` and `handleUpdateDeck` of ygopro/room/domain/states/YGOProWaitingState.ts, and the
-- handlers of the states of RPS, choosing order and side decking.
use edopro_server_ts.Prelude.{
  ℕ, ◌≤◌, ◌≡◌, refl, ◌⊎◌, inl, inr, Option, none, some, Bool, true, false, not, ◌&&◌, ◌||◌, List,
  [], ◌∷◌, filter, count_if, arith, if◌then◌else◌, Bool-cases,
}
use edopro_server_ts.Deck.{Deck}
use edopro_server_ts.Deck.Errors.{DeckError}
use edopro_server_ts.ReservedDuel.Session.{ReservedDuelSession, locks_ready_deck, accepts_deck}
use edopro_server_ts.Rooms.{
  Room, rps_state, rps_label, by_position, first_of_team, all_players_ready,
}
use edopro_server_ts.Rooms.Clients.{YgoClient, is_spectator, captain, ready}
use edopro_server_ts.Rooms.WellSeated.{KeepsPlace, change_if-KeepsPlace, is_object}
use edopro_server_ts.Rooms.Lobby.{
  is_players_full, rps, not_ready_unsafe, set_decks_to_player_unsafe,
}
use edopro_server_ts.Rooms.Waiting.{
  Outcome, done, to_rps, captains, has_both_teams, both_some, start_match, handle_try_start,
  start_reserved_duel_when_ready, take_deck, take_reserved_deck, handle_update_deck,
  should_validate_deck, is_error, to_card_codes,
}
use edopro_server_ts.Rooms.Steps.{left_by}
use edopro_server_ts.Rooms.InOrder.{
  InOrder, BothTeams, BothTeams-keep, is_of_team, SameOrder-InOrder, change-InOrder, enter-InOrder,
}
use edopro_server_ts.Rooms.InOrder.Lobby.{
  not_ready_unsafe-InOrder, set_decks_to_player_unsafe-InOrder,
}

none_of_team :
    (team : ℕ) (players : List YgoClient)
    → count_if (is_of_team team) players ≡ 0
    → filter (is_of_team team) players ≡ []
none_of_team team [] e = refl
none_of_team team (p ∷ players) e = elim (Bool-cases (is_of_team team p)) [
  | inl of_team ↦ absurd (ground arith)
  | inr other ↦ rw other (none_of_team team players (ground arith))
]

first_of_team-count :
    (team : ℕ) (room : Room) (player : YgoClient)
    → first_of_team team room ≡ some player
    → 1 ≤ count_if (is_of_team team) room.players
first_of_team-count team room player e =
    elim (one_or_none (count_if (is_of_team team) room.players)) [
      | inl some_ ↦ some_
      | inr none_ ↦
          let nobody = none_of_team team room.players none_ in absurd (nobody_first _ nobody e)
    ]
  where
    one_or_none : (n : ℕ) → (1 ≤ n) ⊎ (n ≡ 0)
    one_or_none n = omega arith

    nobody_first :
        (xs : List YgoClient)
        → xs ≡ []
        → (elim (by_position xs) [ [] ↦ none | player ∷ _ ↦ some player ]) ≡ some player
        → ⊥
    nobody_first [] nobody e = cc
    nobody_first (x ∷ xs) nobody e = cc

both_there :
    (a b : Option YgoClient)
    → both_some a b ≡ true
    → ((x : YgoClient) × (a ≡ some x)) × ((y : YgoClient) × (b ≡ some y))
both_there (some x) (some y) h = ((x, refl), (y, refl))
both_there (some x) none h = absurd cc
both_there none b h = absurd cc

both_teams : (room : Room) → has_both_teams room ≡ true → BothTeams room.players
both_teams room h =
    let ((player, here), (opponent, there)) =
      both_there (first_of_team 0 room) (first_of_team 1 room) h in
    (first_of_team-count 0 room player here, first_of_team-count 1 room opponent there)

captain-KeepsPlace : KeepsPlace captain
captain-KeepsPlace c = (refl, refl, refl, refl)

pub ready-KeepsPlace : KeepsPlace ready
ready-KeepsPlace c = (refl, refl, refl, refl)

captains-InOrder :
    (player opponent : Option YgoClient) {room : Room}
    → InOrder room
    → InOrder (captains player opponent room)
captains-InOrder (some player) (some opponent) o =
    change-InOrder (change-InOrder o player.object captain captain-KeepsPlace) opponent.object
      captain captain-KeepsPlace
captains-InOrder (some player) none o = o
captains-InOrder none opponent o = o

captains-BothTeams :
    (player opponent : Option YgoClient) (room : Room)
    → BothTeams room.players
    → BothTeams (captains player opponent room).players
captains-BothTeams (some player) (some opponent) room here =
    BothTeams-keep _ (change_if-KeepsPlace (is_object opponent.object) captain captain-KeepsPlace) _
      (BothTeams-keep _ (change_if-KeepsPlace (is_object player.object) captain captain-KeepsPlace)
        room.players here)
captains-BothTeams (some player) none room here = here
captains-BothTeams none opponent room here = here

pub to_rps-InOrder : {room : Room} → InOrder room → InOrder (to_rps room)
unfolding to_rps
to_rps-InOrder {room} o = captains-InOrder (first_of_team 0 room) (first_of_team 1 room) o

-- To RPS, from a room with both sides there.
pub rps-InOrder :
    (room : Room) → InOrder room → BothTeams room.players → InOrder (rps (to_rps room))
unfolding to_rps
rps-InOrder room o here =
    enter-InOrder (captains-InOrder (first_of_team 0 room) (first_of_team 1 room) o) (rps_state 0 0)
      rps_label refl (captains-BothTeams (first_of_team 0 room) (first_of_team 1 room) room here)

either_outcome :
    (a b : Outcome) (test : Bool)
    → (test ≡ true → InOrder (left_by a))
    → (test ≡ false → InOrder (left_by b))
    → InOrder (left_by (if test then a else b))
either_outcome a b true here there = here refl
either_outcome a b false here there = there refl

start_match-InOrder : {room : Room} → InOrder room → InOrder (left_by (start_match room))
unfolding start_match
start_match-InOrder {room} o =
    either_outcome _ _ (has_both_teams room)
      (λ both.
        SameOrder-InOrder (rps (to_rps room)) _ (refl, refl, refl, refl, refl, refl, refl)
          (rps-InOrder room o (both_teams room both)))
      (λ _. o)

by_reservation :
    (a : Outcome) (b : ReservedDuelSession → Outcome) (reserved : Option ReservedDuelSession)
    → InOrder (left_by a)
    → ((session : ReservedDuelSession) → InOrder (left_by (b session)))
    → InOrder (left_by (elim reserved [ none ↦ a | some session ↦ b session ]))
by_reservation a b none free held = free
by_reservation a b (some session) free held = held session

pub handle_try_start-InOrder :
    (player : YgoClient) {room : Room}
    → InOrder room
    → InOrder (left_by (handle_try_start player room))
unfolding handle_try_start
handle_try_start-InOrder player {room} o =
    by_reservation _ _ room.reserved_duel
      (either_outcome _ _ (not player.host) (λ _. o)
        (λ _.
          either_outcome _ _ (not (all_players_ready room)) (λ _. o) (λ _. start_match-InOrder o)))
      (λ _. o)

take_deck-InOrder :
    (player : YgoClient) (deck : Deck) {room : Room}
    → InOrder room
    → InOrder (left_by (take_deck player deck room))
unfolding start_reserved_duel_when_ready
take_deck-InOrder player deck {room} o = by_reservation _ _ ready_room.reserved_duel ready_o (λ _.
    either_outcome _ _ (not (is_players_full ready_room) || not (all_players_ready ready_room))
      (λ _. ready_o) (λ _. start_match-InOrder ready_o))
  where
    ready_room : Room
    ready_room = set_decks_to_player_unsafe player.position deck room

    ready_o : InOrder (set_decks_to_player_unsafe player.position deck room)
    ready_o = set_decks_to_player_unsafe-InOrder player.position deck o

take_reserved_deck-InOrder :
    (player : YgoClient) (deck : Deck) (reserved : Option ReservedDuelSession) {room : Room}
    → InOrder room
    → InOrder (left_by (take_reserved_deck player deck reserved room))
take_reserved_deck-InOrder player deck none o = take_deck-InOrder player deck o
take_reserved_deck-InOrder player deck (some session) o =
    either_outcome _ _ (locks_ready_deck session.reservation && player.is_ready) (λ _. o)
      (λ _.
        either_outcome _ _ (accepts_deck session.reservation player.team (to_card_codes deck))
          (λ _. take_deck-InOrder player deck o) (λ _. not_ready_unsafe-InOrder player o))

pub handle_update_deck-InOrder :
    (validate : Deck → Option DeckError) (built : Option Deck) (player : YgoClient) {room : Room}
    → InOrder room
    → InOrder (left_by (handle_update_deck validate built player room))
unfolding handle_update_deck
handle_update_deck-InOrder validate built player {room} o =
    either_outcome _ _ (is_spectator player) (λ _. o) (λ _. with_deck built)
  where
    with_deck :
        (built : Option Deck)
        → InOrder (
            left_by (elim built [
              | none ↦ done (not_ready_unsafe player room)
              | some deck ↦
                  if player.is_internal
                  then take_deck player deck room
                  else (if should_validate_deck room && is_error (validate deck)
                      then done (not_ready_unsafe player room)
                      else take_reserved_deck player deck room.reserved_duel room)
            ]))
    with_deck none = not_ready_unsafe-InOrder player o
    with_deck (some deck) =
        either_outcome _ _ player.is_internal (λ _. take_deck-InOrder player deck o)
          (λ _.
            either_outcome _ _ (should_validate_deck room && is_error (validate deck))
              (λ _. not_ready_unsafe-InOrder player o)
              (λ _. take_reserved_deck-InOrder player deck room.reserved_duel o))
