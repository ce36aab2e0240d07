-- ===== src/Rooms/InOrder/Connections.antt =====
-- Connections that are lost and that come back keep a room in order: YGOProDisconnectPolicy.ts of
-- ygopro/room/application, and the JOIN and the token of a phase past the lobby.
use edopro_server_ts.Prelude.{
  ℕ, ◌≡◌, refl, ◌∙◌, String, Option, none, some, true, false, not, ◌&&◌, find?, count_if-append,
  arith,
}
use edopro_server_ts.ReservedDuel.{ReservedDuelAbandon}
use edopro_server_ts.Rooms.{
  Room, RoomState, DuelState, waiting_state, rps_state, choosing_order_state, dueling_state,
  side_decking_state, waiting_label, rps_label, choosing_order_label, dueling_label,
  side_decking_label, has_no_connected_players,
}
use edopro_server_ts.Rooms.Clients.{YgoClient, Socket, is_spectator, clear_reconnecting}
use edopro_server_ts.Rooms.WellSeated.{
  KeepsPlace, change_if-KeepsPlace, is_object, players-leave, spectators-leave,
}
use edopro_server_ts.Rooms.Lobby.{reconnect, taken_over, is_between_duels, create_spectator_unsafe}
use edopro_server_ts.Rooms.Gates.{is_waiting, is_ranked, reservation_admits}
use edopro_server_ts.Rooms.Reconnect.{
  Identity, account, guest_identity, unresolved, handle_mid_duel_join, rejoin, seat_or_spectate,
  admit_as_spectator, find_mid_duel_reconnecting_player,
}
use edopro_server_ts.Rooms.Endings.{closed_by_server}
use edopro_server_ts.Rooms.Leaving.{
  on_disconnect, leave, leave_open, leave_as, leave_seat, leave_stands, end_or_leave, hang_up,
  has_socket, closed_socket, reserved_ending,
}
use edopro_server_ts.Rooms.Steps.{IsUnused}
use edopro_server_ts.Rooms.InOrder.{
  InOrder, label_of, change-InOrder, kept-InOrder, stands-InOrder, watch-InOrder, in_lobby,
}
use edopro_server_ts.Rooms.InOrder.Lobby.{either-InOrder, if-InOrder, reserved-InOrder}
use edopro_server_ts.Rooms.{change}
use edopro_server_ts.Rooms.Reconnect.{clear_after, handle_express_reconnect}
use edopro_server_ts.Rooms.InOrder.Endings.{finalize-InOrder}

waiting_label-state : (state : RoomState) → label_of state ≡ waiting_label → state ≡ waiting_state
waiting_label-state waiting_state e = refl
waiting_label-state (rps_state a b) e = absurd cc
waiting_label-state choosing_order_state e = absurd cc
waiting_label-state dueling_state e = absurd cc
waiting_label-state side_decking_state e = absurd cc

is_waiting-label :
    (label : DuelState)
    → (elim label [ waiting_label ↦ true | _ ↦ false ]) ≡ true
    → label ≡ waiting_label
is_waiting-label waiting_label h = refl
is_waiting-label dueling_label h = absurd cc
is_waiting-label rps_label h = absurd cc
is_waiting-label choosing_order_label h = absurd cc
is_waiting-label side_decking_label h = absurd cc

is_waiting-state :
    (room : Room) → InOrder room → is_waiting room ≡ true → room.room_state ≡ waiting_state
is_waiting-state room o h =
    waiting_label-state room.room_state (o.coherent ∙ is_waiting-label room.duel_state h)

leave_seat-InOrder :
    (player : YgoClient) (room : Room) → InOrder room → InOrder (leave_seat player room)
leave_seat-InOrder player room o =
    either-InOrder room.no_host (finalize-InOrder closed_by_server room o) (
      either-InOrder (not (is_spectator player) && is_between_duels room) o (
        if-InOrder (is_waiting room)
          (λ waits. in_lobby o (is_waiting-state room o waits) (players-leave o.well _)) (λ _. o)))

leave_stands-InOrder :
    (spectator : Option YgoClient) (room : Room)
    → InOrder room
    → InOrder (leave_stands spectator room)
leave_stands-InOrder none room o = o
leave_stands-InOrder (some spectator) room o = stands-InOrder o (spectators-leave o.well _)

leave_as-InOrder :
    (socket_id : ℕ) (player : Option YgoClient) (room : Room)
    → InOrder room
    → InOrder (leave_as socket_id player room)
leave_as-InOrder socket_id (some player) room o = leave_seat-InOrder player room o
leave_as-InOrder socket_id none room o = leave_stands-InOrder _ room o

leave_open-InOrder :
    (socket_id : ℕ) (room : Room) → InOrder room → InOrder (leave_open socket_id room)
leave_open-InOrder socket_id room o =
    either-InOrder (has_no_connected_players room) (finalize-InOrder closed_by_server room o)
      (leave_as-InOrder socket_id _ room o)

end_or_leave-InOrder :
    (socket_id : ℕ) (ending : Option ReservedDuelAbandon) (room : Room)
    → InOrder room
    → InOrder (end_or_leave socket_id ending room)
end_or_leave-InOrder socket_id none room o = leave_open-InOrder socket_id room o
end_or_leave-InOrder socket_id (some abandon) room o = finalize-InOrder abandon room o

leave-InOrder : (socket_id : ℕ) (room : Room) → InOrder room → InOrder (leave socket_id room)
leave-InOrder socket_id room o =
    either-InOrder (room.is_matchmaking && is_waiting room)
      (finalize-InOrder closed_by_server room o)
      (reserved-InOrder room.reserved_duel (λ _. leave_open-InOrder socket_id room o)
        (λ _ _.
          end_or_leave-InOrder socket_id
            (reserved_ending (find? (has_socket socket_id) room.players) room) room o))

hang_up-KeepsPlace : (socket_id : ℕ) → KeepsPlace (hang_up socket_id)
hang_up-KeepsPlace socket_id =
    change_if-KeepsPlace (has_socket socket_id)
      (λ client. record client { socket = record (client.socket) { closed = true } })
      (λ c. (refl, refl, refl, refl))

pub on_disconnect-InOrder :
    (socket_id : ℕ) (room : Room) → InOrder room → InOrder (on_disconnect socket_id room)
unfolding on_disconnect
on_disconnect-InOrder socket_id room o = leave-InOrder socket_id (closed_socket socket_id room) (
    kept-InOrder o (hang_up socket_id) (hang_up socket_id) (hang_up-KeepsPlace socket_id)
      (hang_up-KeepsPlace socket_id))

reconnect-InOrder :
    (player : YgoClient) (socket : Socket) (room : Room)
    → InOrder room
    → InOrder (reconnect player socket room)
unfolding reconnect
reconnect-InOrder player socket room o =
    change-InOrder o player.object (taken_over socket) (λ c. (refl, refl, refl, refl))

cleared-InOrder :
    (player : YgoClient) (room : Room)
    → InOrder room
    → InOrder (change player.object clear_reconnecting room)
cleared-InOrder player room o =
    change-InOrder o player.object clear_reconnecting (λ c. (refl, refl, refl, refl))

pub handle_express_reconnect-InOrder :
    (player : YgoClient) (socket : Socket) (room : Room)
    → InOrder room
    → InOrder (handle_express_reconnect player socket room)
handle_express_reconnect-InOrder player socket room o =
    cleared-InOrder player _ (reconnect-InOrder player socket room o)

clear_after-InOrder :
    (state : RoomState) (player : YgoClient) (room : Room)
    → InOrder room
    → InOrder (clear_after state player room)
clear_after-InOrder side_decking_state player room o = cleared-InOrder player room o
clear_after-InOrder waiting_state player room o = o
clear_after-InOrder (rps_state _ _) player room o = o
clear_after-InOrder choosing_order_state player room o = o
clear_after-InOrder dueling_state player room o = o

module _ (object : ℕ) (socket : Socket) (name : String) (room : Room)
    (unused : IsUnused object room) (o : InOrder room) where
  spectate-InOrder : InOrder (admit_as_spectator object socket name room)
  spectate-InOrder =
      watch-InOrder o (create_spectator_unsafe object socket name)
        (
          omega (arith, unused, count_if-append (is_object object) room.players room.spectators),
          omega (arith, unused, count_if-append (is_object object) room.players room.spectators),
        )
        (refl, refl)

  seat_or_spectate-InOrder :
      (player : Option YgoClient) → InOrder (seat_or_spectate object socket name player room)
  seat_or_spectate-InOrder none = spectate-InOrder
  seat_or_spectate-InOrder (some player) =
      clear_after-InOrder room.room_state player _ (reconnect-InOrder player socket room o)

  rejoin-InOrder : (joiner : Option String) → InOrder (rejoin object socket name joiner room)
  rejoin-InOrder joiner = seat_or_spectate-InOrder (
      find_mid_duel_reconnecting_player room.players name socket room.id (is_ranked room.league)
        joiner)

  by_identity :
      (identity : Identity)
      → InOrder (elim identity [
        | account user_id ↦ rejoin object socket name (some user_id) room
        | guest_identity ↦ rejoin object socket name none room
        | unresolved ↦ admit_as_spectator object socket name room
      ])
  by_identity (account user_id) = rejoin-InOrder (some user_id)
  by_identity guest_identity = rejoin-InOrder none
  by_identity unresolved = spectate-InOrder

  pub handle_mid_duel_join-InOrder :
      (identity : Identity) → InOrder (handle_mid_duel_join object socket name identity room)
  unfolding handle_mid_duel_join
  handle_mid_duel_join-InOrder identity =
      either-InOrder (not (reservation_admits socket room)) o
        (either-InOrder (not (is_ranked room.league)) (rejoin-InOrder none) (by_identity identity))
