-- ===== src/Rooms/Phases.antt =====
-- ygopro/room/domain/states/{YGOProRockPaperScissorState,YGOProChoosingOrderState,
-- YGOProSideDeckingState}.ts: how a room passes from one phase of its match to the next.
use edopro_server_ts.Prelude.{
  ℕ, Option, none, some, Bool, true, false, not, ◌&&◌, ◌||◌, all, if◌then◌else◌, nat_eqb,
}
use edopro_server_ts.Deck.{Deck}
use edopro_server_ts.Deck.Errors.{DeckError}
use edopro_server_ts.ReservedDuel.Session.{accepts_deck}
use edopro_server_ts.Rooms.{
  Room, waiting_state, rps_state, choosing_order_state, dueling_state, side_decking_state, change,
  first_of_team,
}
use edopro_server_ts.Rooms.Clients.{YgoClient, is_spectator, ready}
use edopro_server_ts.Rooms.Lobby.{
  rps, choosing_order, dueling, set_decks_to_player_unsafe, not_ready_unsafe,
}
use edopro_server_ts.Rooms.Waiting.{to_rps, should_validate_deck, is_error, to_card_codes}

-- `getRPSWinner`: the team that wins; 1 loses to 2, 2 to 3, and 3 to 1.
unfoldable pub get_rps_winner : ℕ → ℕ → ℕ
get_rps_winner hand0 hand1 =
    if (nat_eqb hand0 1 && nat_eqb hand1 2)
      || ((nat_eqb hand0 2 && nat_eqb hand1 3) || (nat_eqb hand0 3 && nat_eqb hand1 1))
    then 1
    else 0

abbrev pub won_by : Option YgoClient → Room → Room
won_by none room = room
won_by (some winner) room =
    choosing_order
      (record room { client_who_chooses_turn = some winner.object; room_state = rps_state 0 0 })

-- Both hands are shown: a tie begins again, and the winner is to choose who goes first.
abbrev pub settle : ℕ → ℕ → Room → Room
settle hand0 hand1 room =
    if nat_eqb hand0 hand1
    then to_rps (record room { room_state = rps_state 0 0 })
    else won_by (first_of_team (get_rps_winner hand0 hand1) room) room

abbrev pub show_hands : ℕ → ℕ → Room → Room
show_hands hand0 hand1 room =
    let shown = record room { room_state = rps_state hand0 hand1 } in
    if nat_eqb hand0 0 || nat_eqb hand1 0 then shown else settle hand0 hand1 shown

abbrev pub give_hand : ℕ → ℕ → ℕ → ℕ → Room → Room
give_hand team res hand0 hand1 room =
    if nat_eqb team 0
    then show_hands res hand1 room
    else (if nat_eqb team 1 then show_hands hand0 res room else room)

-- `res` is the hand of the message, which is not checked.
unfoldable pub handle_rps_choice : ℕ → YgoClient → Room → Room
handle_rps_choice res player room = if not player.is_captain then room else elim room.room_state [
  | rps_state hand0 hand1 ↦ give_hand player.team res hand0 hand1 room
  | waiting_state ↦ room
  | choosing_order_state ↦ room
  | dueling_state ↦ room
  | side_decking_state ↦ room
]

-- `TurnPlayerResult.FIRST`, of the message library, is a parameter.
unfoldable pub handle_turn_choice : ℕ → ℕ → YgoClient → Room → Room
handle_turn_choice first turn player room = dueling (record room {
  is_position_swapped =
      if nat_eqb turn first then not (nat_eqb player.team 0) else nat_eqb player.team 0;
})

abbrev pub chosen_or_rps : Option ℕ → Room → Room
chosen_or_rps none room = rps (to_rps (record room { turn_choice_requires_rps = false }))
chosen_or_rps (some chooser) room =
    if room.turn_choice_requires_rps
    then rps (to_rps (record room { turn_choice_requires_rps = false }))
    else choosing_order room

abbrev pub next_duel_when_ready : Room → Room
next_duel_when_ready room =
    if not (all (λ (client : YgoClient). client.is_ready) room.players)
    then room
    else chosen_or_rps room.client_who_chooses_turn room

abbrev pub is_reserved_deck : YgoClient → Deck → Room → Bool
is_reserved_deck player deck room = elim room.reserved_duel [
  | none ↦ true
  | some session ↦ accepts_deck session.reservation player.team (to_card_codes deck)
]

abbrev pub side_with : Deck → YgoClient → Room → Room
side_with deck player room =
    next_duel_when_ready
      (change player.object ready (set_decks_to_player_unsafe player.position deck room))

-- `is_side` says whether the message only exchanges cards of the player's deck.
unfoldable pub handle_side_deck :
    (Deck → Option DeckError) → Bool → Option Deck → YgoClient → Room → Room
handle_side_deck validate is_side built player room =
    if is_spectator player || not is_side then room else elim built [
      | none ↦ not_ready_unsafe player room
      | some deck ↦
          if (should_validate_deck room && is_error (validate deck))
            || not (is_reserved_deck player deck room)
          then not_ready_unsafe player room
          else side_with deck player room
    ]
