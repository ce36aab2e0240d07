-- ===== src/Rooms/Waiting.antt =====
-- ygopro/room/domain/states/YGOProWaitingState.ts: the handlers of a room that waits for its players.
-- What the deck builder of a message returns is an argument, `none` for its error, and so is the deck
-- validator of the state.
use edopro_server_ts.Prelude.{
  ℕ, String, Option, none, some, Bool, true, false, not, ◌&&◌, ◌||◌, List, map, if◌then◌else◌,
  nat_eqb,
}
use edopro_server_ts.Deck.{Deck, Card}
use edopro_server_ts.Deck.Errors.{DeckError}
use edopro_server_ts.RoomMatch.{Player, new_match, initialize_historical_data}
use edopro_server_ts.ReservedDuel.{RequiredDeck}
use edopro_server_ts.ReservedDuel.Session.{ReservedDuelSession, accepts_deck, locks_ready_deck}
use edopro_server_ts.Rooms.{Room, change, all_players_ready, is_name_taken, first_of_team}
use edopro_server_ts.Rooms.Clients.{
  YgoClient, Socket, PlayerCredential, as_guest, is_spectator, captain,
}
use edopro_server_ts.Rooms.Lobby.{
  rps, is_players_full, player_to_spectator_unsafe, spectator_to_player_unsafe,
  move_player_to_another_cell_unsafe, set_decks_to_player_unsafe, not_ready_unsafe,
}
use edopro_server_ts.Rooms.Gates.{
  reservation_admits, reservation_permits_seat, is_refused_invitation, admit_to_room,
  admits_as_player,
}

-- How a handler ends: with the room it leaves, or with an exception and the room as it then is.
pub data Outcome : Type 0 where
  done thrown : Room → Outcome

-- `admit`, for the JOIN of a client and for a socket that matchmaking admits.
unfoldable pub admit : ℕ → Socket → String → PlayerCredential → Room → Room
admit object socket name credential room =
    if not (reservation_admits socket room)
    then room
    else (if is_name_taken room.players name
        then room
        else (if is_refused_invitation socket room
            then room
            else admit_to_room object socket name credential room))

abbrev pub player_of : YgoClient → Player
player_of client = record { id = client.id; name = client.name; team = client.team }

-- `createMatchUnsafe`
abbrev pub create_match : ℕ → Room → Room
create_match best_of room = record room {
  match_of = some (initialize_historical_data (new_match best_of) (map player_of room.players));
}

-- `toRPS`: the first players of the teams choose for them.
abbrev pub captains : Option YgoClient → Option YgoClient → Room → Room
captains (some player) (some opponent) room =
    change opponent.object captain (change player.object captain room)
captains (some _) none room = room
captains none _ room = room

unfoldable pub to_rps : Room → Room
to_rps room = captains (first_of_team 0 room) (first_of_team 1 room) room

abbrev pub both_some : Option YgoClient → Option YgoClient → Bool
both_some (some _) (some _) = true
both_some (some _) none = false
both_some none _ = false

-- `sendDeckCountMessage` reads the deck of the first player of each team.
abbrev pub has_both_teams : Room → Bool
has_both_teams room = both_some (first_of_team 0 room) (first_of_team 1 room)

unfoldable pub start_match : Room → Outcome
start_match room =
    if has_both_teams room
    then done (rps (create_match room.host_info.best_of (to_rps room)))
    else thrown room

unfoldable pub handle_try_start : YgoClient → Room → Outcome
handle_try_start player room = elim room.reserved_duel [
  | some _ ↦ done room
  | none ↦
      if not player.host
      then done room
      else (if not (all_players_ready room) then done room else start_match room)
]

unfoldable pub start_reserved_duel_when_ready : Room → Outcome
start_reserved_duel_when_ready room = elim room.reserved_duel [
  | none ↦ done room
  | some _ ↦
      if not (is_players_full room) || not (all_players_ready room)
      then done room
      else start_match room
]

unfoldable pub handle_to_observer : YgoClient → Room → Room
handle_to_observer player room = elim room.reserved_duel [
  | some _ ↦ room
  | none ↦
      if is_spectator player || player.host then room else player_to_spectator_unsafe player room
]

-- `player.credential ?? { kind: "guest", name }`
abbrev pub credential_of : YgoClient → PlayerCredential
credential_of player = elim player.credential [
  | some credential ↦ credential
  | none ↦ as_guest player.name
]

unfoldable pub handle_to_duel : YgoClient → Room → Room
handle_to_duel player room = elim room.reserved_duel [
  | some _ ↦ room
  | none ↦
      if is_spectator player
      then (if admits_as_player room.league (credential_of player)
            && reservation_permits_seat player.socket room
          then spectator_to_player_unsafe player room
          else room)
      else move_player_to_another_cell_unsafe player room
]

abbrev pub codes : List Card → List ℕ
codes = map (λ (card : Card). card.code)

-- ygopro/room/domain/reservedDeck.ts
abbrev pub to_card_codes : Deck → RequiredDeck
to_card_codes deck = record {
  main = codes deck.main;
  extra = codes deck.extra;
  side = codes deck.side;
}

-- `setDecksToPlayerUnsafe`, then `startReservedDuelWhenReady`.
abbrev pub take_deck : YgoClient → Deck → Room → Outcome
take_deck player deck room =
    start_reserved_duel_when_ready (set_decks_to_player_unsafe player.position deck room)

-- `honoursReservedDeck`, and what follows it.
abbrev pub take_reserved_deck : YgoClient → Deck → Option ReservedDuelSession → Room → Outcome
take_reserved_deck player deck none room = take_deck player deck room
take_reserved_deck player deck (some session) room =
    if locks_ready_deck session.reservation && player.is_ready
    then done room
    else (if accepts_deck session.reservation player.team (to_card_codes deck)
        then take_deck player deck room
        else done (not_ready_unsafe player room))

-- `shouldValidateDeck`
abbrev pub should_validate_deck : Room → Bool
should_validate_deck room = elim room.reserved_duel [
  | some _ ↦ true
  | none ↦ nat_eqb room.host_info.no_check_deck 0
]

abbrev pub is_error : Option DeckError → Bool
is_error none = false
is_error (some _) = true

unfoldable pub handle_update_deck :
    (Deck → Option DeckError) → Option Deck → YgoClient → Room → Outcome
handle_update_deck validate built player room =
    if is_spectator player then done room else elim built [
      | none ↦ done (not_ready_unsafe player room)
      | some deck ↦
          if player.is_internal
          then take_deck player deck room
          else (if should_validate_deck room && is_error (validate deck)
              then done (not_ready_unsafe player room)
              else take_reserved_deck player deck room.reserved_duel room)
    ]

abbrev pub handle_not_ready : YgoClient → Room → Room
handle_not_ready player room = not_ready_unsafe player room
