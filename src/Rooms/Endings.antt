-- ===== src/Rooms/Endings.antt =====
-- How a duel and a match of a YGOPro room end: `handleWinCondition` of
-- ygopro/room/domain/states/YGOProDuelingState.ts, and AbandonBetweenDuels.ts, EndMatchByAbandon.ts
-- and FinalizeYGOProRoom.ts of ygopro/room/application. Of a room that is finalized only the state of
-- its own is kept: its tokens, sockets and listings are other components'.
use edopro_server_ts.Prelude.{
  ℕ, ◌-◌, ◌%◌, Option, none, some, Bool, true, false, not, ◌&&◌, ◌||◌, map, find?, if◌then◌else◌,
  nat_eqb,
}
use edopro_server_ts.RoomMatch.{
  PlayerConnection, duel_winner, forfeit, is_finished, has_played_any_duel,
}
use edopro_server_ts.ReservedDuel.{ReservedDuelAbandon, disconnect, room_closed}
use edopro_server_ts.ReservedDuel.Session.{ReservedDuelSession, mark_game_over, close, is_single}
use edopro_server_ts.Rooms.{Room}
use edopro_server_ts.Rooms.Clients.{YgoClient, not_ready}
use edopro_server_ts.Rooms.Duels.{Duel, finished}
use edopro_server_ts.Rooms.Lobby.{side_decking, is_between_duels}

abbrev pub map_some : {A : Type 0} → (A → A) → Option A → Option A
map_some f none = none
map_some f (some a) = some (f a)

abbrev pub test_some : {A : Type 0} → Bool → (A → Bool) → Option A → Bool
test_some otherwise test none = otherwise
test_some otherwise test (some a) = test a

abbrev pub turn_of : Option Duel → ℕ
turn_of none = 0
turn_of (some duel) = duel.turn

abbrev pub connection_of : YgoClient → PlayerConnection
connection_of client = record {
  name = client.name;
  ip_address = client.socket.remote_address;
  client = client.socket.client_name;
}

abbrev pub has_played : Room → Bool
has_played room = test_some false has_played_any_duel room.match_of

abbrev pub is_single_reserved : Option ReservedDuelSession → Bool
is_single_reserved =
    test_some false (λ (session : ReservedDuelSession). is_single session.reservation)

unfoldable pub is_match_finished : Room → Bool
is_match_finished room =
    if is_single_reserved room.reserved_duel && has_played room
    then true
    else test_some true is_finished room.match_of

-- `FinalizeYGOProRoom.run`
unfoldable pub finalize : ReservedDuelAbandon → Room → Room
finalize abandon room = if room.finalizing then room else record room {
  finalizing = true;
  reserved_duel = map_some (close abandon) room.reserved_duel;
}

abbrev pub closed_by_server : ReservedDuelAbandon
closed_by_server = record { seat = none; reason = room_closed; started = none }

abbrev pub disconnected : ℕ → ReservedDuelAbandon
disconnected team = record { seat = some team; reason = disconnect; started = none }

-- `room.duelWinner`, with `room.turn`.
abbrev pub record_winner : ℕ → Room → Room
record_winner winner room = record room {
  match_of =
      map_some (duel_winner winner (turn_of room.current_duel) (map connection_of room.players))
        room.match_of;
}

-- `processDuelEnd`
abbrev pub process_duel_end : ℕ → Room → Room
process_duel_end winner room =
    let over =
      record_winner winner (record room { current_duel = map_some finished room.current_duel }) in
    record over { players = map not_ready over.players }

-- The losing team's player at its first position; the team sizes are not 0.
abbrev pub is_loser : ℕ → Room → YgoClient → Bool
is_loser winner room client =
    if nat_eqb winner 0
    then nat_eqb (client.position % room.team1) 0 && nat_eqb client.team 1
    else nat_eqb (client.position % room.team0) 0 && nat_eqb client.team 0

abbrev pub chosen : Option YgoClient → Room → Room
chosen none room = room
chosen (some loser) room = record room { client_who_chooses_turn = some loser.object }

unfoldable pub assign_side_deck_choice : ℕ → Room → Room
assign_side_deck_choice winner room =
    if nat_eqb winner 0 || nat_eqb winner 1
    then chosen (find? (is_loser winner room) room.players)
        (record room { turn_choice_requires_rps = false })
    else record room { turn_choice_requires_rps = true }

-- `determineNextPhase`: the match ends or goes on to side decking.
abbrev pub determine_next_phase : ℕ → Room → Room
determine_next_phase winner room =
    if is_match_finished room
    then finalize closed_by_server
        (record room { reserved_duel = map_some mark_game_over room.reserved_duel })
    else assign_side_deck_choice winner (side_decking room)

-- `OCGCore.toIngamePosition`: the team of an engine side; a draw's 2 stays as it is.
unfoldable pub to_ingame_position : ℕ → Room → ℕ
to_ingame_position side room =
    if (nat_eqb side 0 || nat_eqb side 1) && room.is_position_swapped then 1 - side else side

unfoldable pub handle_win_condition : ℕ → Room → Room
handle_win_condition side room =
    if test_some false (λ (duel : Duel). duel.is_finished) room.current_duel
    then room
    else determine_next_phase (to_ingame_position side room)
        (process_duel_end (to_ingame_position side room) room)

abbrev pub other_team : ℕ → ℕ
other_team team = if nat_eqb team 0 then 1 else 0

abbrev pub match_forfeit : ℕ → Room → Room
match_forfeit winner_team room = record room {
  match_of =
      map_some (λ m. (forfeit winner_team (map connection_of room.players) m).0) room.match_of;
}

-- `EndMatchByAbandon.run`
abbrev pub end_match_by_abandon : ℕ → Room → Room
end_match_by_abandon abandoning_team room =
    if room.finalizing || is_match_finished room
    then room
    else let forfeited = match_forfeit (other_team abandoning_team) room in
      finalize closed_by_server
        (record forfeited { reserved_duel = map_some mark_game_over forfeited.reserved_duel })

-- `AbandonBetweenDuels.resolve`, at the end of the grace of a player or on its surrender.
unfoldable pub resolve : ℕ → Room → Room
resolve abandoning_team room =
    if room.finalizing || (is_match_finished room || not (is_between_duels room))
    then room
    else (if not (has_played room)
        then finalize (disconnected abandoning_team) room
        else end_match_by_abandon abandoning_team room)
