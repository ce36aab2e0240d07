-- ===== src/Rooms/Reconnect.antt =====
-- shared/room/domain/findReconnectingPlayer.ts and findMidDuelReconnectingPlayer.ts: the seat that a
-- JOIN by name is handed back while a duel is in progress; and the JOIN handler that the states of RPS,
-- choosing order and side decking have in common.
use edopro_server_ts.Prelude.{
  ℕ, String, Option, none, some, Bool, true, false, not, ◌&&◌, List, any, find?, if◌then◌else◌,
}
use edopro_server_ts.Prelude.Eq.{◌==◌, string_eq}
use edopro_server_ts.Rooms.{
  Room, RoomState, waiting_state, rps_state, choosing_order_state, dueling_state,
  side_decking_state, change,
}
use edopro_server_ts.Rooms.Clients.{
  YgoClient, Socket, PlayerCredential, by_ticket, by_pin, as_guest, is_strong_auth, has_name,
  clear_reconnecting,
}
use edopro_server_ts.Rooms.Lobby.{create_spectator_unsafe, add_spectator_unsafe, reconnect}
use edopro_server_ts.Rooms.Gates.{stamped, reservation_admits, is_ranked}

abbrev pub same_address : Option String → Option String → Bool
same_address none none = true
same_address none (some _) = false
same_address (some _) none = false
same_address (some a) (some b) = a == b

abbrev pub is_reconnect_eligible_seat : String → Option String → Bool → YgoClient → Bool
is_reconnect_eligible_seat name address ranked client =
    if is_strong_auth client
    then false
    else (if not (has_name name client)
        then false
        else (if not ranked
            then same_address client.socket.remote_address address && client.socket.closed
            else true))

-- A joiner's account, `none` for a guest, is the one that the seat is bound to.
abbrev pub is_account : String → Option String → Bool
is_account user_id none = false
is_account user_id (some joiner) = user_id == joiner

abbrev pub is_bound_to : Option String → Option PlayerCredential → Bool
is_bound_to joiner none = true
is_bound_to joiner (some (by_pin user_id)) = is_account user_id joiner
is_bound_to joiner (some (by_ticket _)) = false
is_bound_to joiner (some (as_guest _)) = false

abbrev pub is_reclaimable : String → Option String → Bool → Option String → YgoClient → Bool
is_reclaimable name address ranked joiner client =
    is_reconnect_eligible_seat name address ranked client
    && (if not ranked then true else is_bound_to joiner client.credential)

unfoldable pub find_reconnecting_player :
    List YgoClient → String → Option String → Bool → Option String → Option YgoClient
find_reconnecting_player players name address ranked joiner =
    find? (is_reclaimable name address ranked joiner) players

unfoldable pub is_pairing_reconnect_routing_eligible :
    List YgoClient → String → Option String → Bool → Bool
is_pairing_reconnect_routing_eligible players name address ranked =
    any (is_reconnect_eligible_seat name address ranked) players

unfoldable pub find_mid_duel_reconnecting_player :
    List YgoClient → String → Socket → ℕ → Bool → Option String → Option YgoClient
find_mid_duel_reconnecting_player players name socket room_id ranked joiner =
    if stamped socket.watch_for_room_id room_id
    then none
    else find_reconnecting_player players name socket.remote_address ranked joiner

-- What the resolver of a joiner's identity says: an account, a guest, or an error or a timeout.
pub data Identity : Type 0 where
  account : String → Identity
  guest_identity unresolved : Identity

abbrev pub admit_as_spectator : ℕ → Socket → String → Room → Room
admit_as_spectator object socket name room =
    add_spectator_unsafe (create_spectator_unsafe object socket name) room

-- Side decking takes the player for back at once; the other states wait for its deck.
abbrev pub clear_after : RoomState → YgoClient → Room → Room
clear_after side_decking_state player room = change player.object clear_reconnecting room
clear_after waiting_state player room = room
clear_after (rps_state _ _) player room = room
clear_after choosing_order_state player room = room
clear_after dueling_state player room = room

abbrev pub seat_or_spectate : ℕ → Socket → String → Option YgoClient → Room → Room
seat_or_spectate object socket name none room = admit_as_spectator object socket name room
seat_or_spectate object socket name (some player) room =
    clear_after room.room_state player (reconnect player socket room)

-- `handleExpressReconnect`, with the player that its token belongs to.
abbrev pub handle_express_reconnect : YgoClient → Socket → Room → Room
handle_express_reconnect player socket room =
    change player.object clear_reconnecting (reconnect player socket room)

abbrev pub rejoin : ℕ → Socket → String → Option String → Room → Room
rejoin object socket name joiner room =
    seat_or_spectate object socket name
      (find_mid_duel_reconnecting_player room.players name socket room.id (is_ranked room.league)
        joiner)
      room

-- The identity is asked for in a ranked room only.
abbrev pub rejoin_as : ℕ → Socket → String → Identity → Room → Room
rejoin_as object socket name identity room =
    if not (is_ranked room.league) then rejoin object socket name none room else elim identity [
      | account user_id ↦ rejoin object socket name (some user_id) room
      | guest_identity ↦ rejoin object socket name none room
      | unresolved ↦ admit_as_spectator object socket name room
    ]

unfoldable pub handle_mid_duel_join : ℕ → Socket → String → Identity → Room → Room
handle_mid_duel_join object socket name identity room =
    if not (reservation_admits socket room)
    then room
    else rejoin_as object socket name identity room
