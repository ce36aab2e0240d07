-- ===== src/Rooms/Leaving.antt =====
-- ygopro/room/application/YGOProDisconnectPolicy.ts: what the end of a connection does to the room.
-- `AbortMatchmakingRoom.run` also releases the queue, which is not the room's.
use edopro_server_ts.Prelude.{
  ℕ, Option, none, some, Bool, true, not, ◌&&◌, ◌||◌, all, find?, map, if◌then◌else◌, nat_eqb,
}
use edopro_server_ts.ReservedDuel.{ReservedDuelAbandon, bot_unavailable}
use edopro_server_ts.Rooms.{Room, has_no_connected_players}
use edopro_server_ts.Rooms.Clients.{YgoClient, is_spectator}
use edopro_server_ts.Rooms.Lobby.{player_leave, spectator_leave, is_between_duels}
use edopro_server_ts.Rooms.Gates.{is_waiting}
use edopro_server_ts.Rooms.Endings.{finalize, closed_by_server, disconnected}

abbrev pub has_socket : ℕ → YgoClient → Bool
has_socket socket_id client = nat_eqb client.socket.id socket_id

-- The connection is closed before the policy is asked.
abbrev pub hang_up : ℕ → YgoClient → YgoClient
hang_up socket_id client =
    if has_socket socket_id client
    then record client { socket = record (client.socket) { closed = true } }
    else client

abbrev pub closed_socket : ℕ → Room → Room
closed_socket socket_id room = record room {
  players = map (hang_up socket_id) room.players;
  spectators = map (hang_up socket_id) room.spectators;
}

abbrev pub no_human_left : Room → Bool
no_human_left room =
    all (λ (client : YgoClient). client.is_internal || client.socket.closed) room.players

abbrev pub without_bot : ReservedDuelAbandon
without_bot = record { seat = none; reason = bot_unavailable; started = none }

-- `closeReservedDuel`: who is recorded to have ended the duel, if the leave ends it.
abbrev pub reserved_ending : Option YgoClient → Room → Option ReservedDuelAbandon
reserved_ending none room = none
reserved_ending (some leaver) room =
    if leaver.is_internal
    then some without_bot
    else (if has_no_connected_players room || (no_human_left room || room.no_reconnect)
        then some (disconnected leaver.team)
        else none)

-- Between duels a timer is set, which the room does not show; otherwise only a waiting room lets its
-- player go.
abbrev pub leave_seat : YgoClient → Room → Room
leave_seat player room =
    if room.no_host
    then finalize closed_by_server room
    else (if not (is_spectator player) && is_between_duels room
        then room
        else (if is_waiting room then player_leave player room else room))

abbrev pub leave_stands : Option YgoClient → Room → Room
leave_stands none room = room
leave_stands (some spectator) room = spectator_leave spectator room

abbrev pub leave_as : ℕ → Option YgoClient → Room → Room
leave_as socket_id (some player) room = leave_seat player room
leave_as socket_id none room = leave_stands (find? (has_socket socket_id) room.spectators) room

abbrev pub leave_open : ℕ → Room → Room
leave_open socket_id room =
    if has_no_connected_players room
    then finalize closed_by_server room
    else leave_as socket_id (find? (has_socket socket_id) room.players) room

abbrev pub end_or_leave : ℕ → Option ReservedDuelAbandon → Room → Room
end_or_leave socket_id none room = leave_open socket_id room
end_or_leave socket_id (some abandon) room = finalize abandon room

abbrev pub leave : ℕ → Room → Room
leave socket_id room =
    if room.is_matchmaking && is_waiting room
    then finalize closed_by_server room
    else elim room.reserved_duel [
      | none ↦ leave_open socket_id room
      | some _ ↦
          end_or_leave socket_id (reserved_ending (find? (has_socket socket_id) room.players) room)
            room
    ]

unfoldable pub on_disconnect : ℕ → Room → Room
on_disconnect socket_id room = leave socket_id (closed_socket socket_id room)
