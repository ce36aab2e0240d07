-- ===== src/Rooms/Gates.antt =====
-- ygopro/room/domain/YGOProRoom.ts: who may enter a reserved room and who may take a seat in it; and
-- shared/room/admission/domain/{RoomLeague,RoomAdmission}.ts with
-- ygopro/room/admission/application/AdmitToRoom.ts: how a client is admitted.
use edopro_server_ts.Prelude.{
  ℕ, String, Option, none, some, Bool, true, false, not, ◌&&◌, ◌||◌, [], ◌∷◌, any, if◌then◌else◌,
  nat_eqb,
}
use edopro_server_ts.Prelude.Eq.{◌==◌, string_eq, contains}
use edopro_server_ts.ReservedDuel.Session.{ReservedDuelSession, bot_seat, seat_of_user}
use edopro_server_ts.RoomRules.Room.{RoomLeague, verified, external, casual}
use edopro_server_ts.Rooms.{Room, waiting_label}
use edopro_server_ts.Rooms.Clients.{
  YgoClient, Socket, PlayerCredential, by_ticket, by_pin, as_guest, set_credential,
}
use edopro_server_ts.Rooms.Seats.{Seat, t0_positions, t1_positions, first_of}
use edopro_server_ts.Rooms.Lobby.{
  place_in, has_free_seat, build_player, create_spectator_unsafe, add_player_unsafe,
  add_spectator_unsafe,
}

-- A stamp holds for this room; `undefined` for none.
abbrev pub stamped : Option ℕ → ℕ → Bool
stamped none id = false
stamped (some stamp) id = nat_eqb stamp id

abbrev pub is_user_id : String → Option String → Bool
is_user_id user_id none = false
is_user_id user_id (some id) = id == user_id

abbrev pub holds_live_seat : String → Room → Bool
holds_live_seat user_id room =
    any (λ (player : YgoClient). is_user_id user_id player.id && not player.socket.closed)
      room.players

-- The identity of the socket is reserved and holds no live seat; the empty one is no identity.
abbrev pub identity_admits : Option String → Room → Bool
identity_admits none room = false
identity_admits (some user_id) room =
    not (user_id == "")
    && (contains user_id room.reserved_user_ids && not (holds_live_seat user_id room))

abbrev pub allows_spectators : Option ReservedDuelSession → Bool
allows_spectators none = true
allows_spectators (some session) = session.reservation.options.spectators

unfoldable pub reservation_admits : Socket → Room → Bool
reservation_admits socket room = elim room.reserved_user_ids [
  | [] ↦ true
  | _ ∷ _ ↦
      if stamped socket.internal_for_room_id room.id
      then true
      else (if stamped socket.watch_for_room_id room.id
          then allows_spectators room.reserved_duel
          else identity_admits socket.resolved_user_id room)
]

unfoldable pub reservation_permits_seat : Socket → Room → Bool
reservation_permits_seat socket room = elim room.reserved_user_ids [
  | [] ↦ true
  | _ ∷ _ ↦ identity_admits socket.resolved_user_id room
]

abbrev pub has_no_reserved_users : Room → Bool
has_no_reserved_users room = elim room.reserved_user_ids [ [] ↦ true | _ ∷ _ ↦ false ]

abbrev pub is_waiting : Room → Bool
is_waiting room = elim room.duel_state [ waiting_label ↦ true | _ ↦ false ]

unfoldable pub can_accept_invitation : Room → Bool
can_accept_invitation room =
    (room.password == "")
    && (not room.is_matchmaking
        && (has_no_reserved_users room
            && (not room.finalizing && (is_waiting room && has_free_seat room))))

abbrev pub seat_at : ℕ → Option ℕ → Option Seat
seat_at team none = none
seat_at team (some position) = some (record { position = position; team = team })

abbrev pub unless_taken : Room → Option ℕ → Option Seat
unless_taken room none = none
unless_taken room (some team) =
    if any (λ (player : YgoClient). nat_eqb player.team team) room.players
    then none
    else seat_at team (
        first_of
          (if nat_eqb team 0 then t0_positions room.team0 else t1_positions room.team0 room.team1))

abbrev pub reserved_seat_for : Socket → ReservedDuelSession → Room → Option Seat
reserved_seat_for socket session room = unless_taken room (
    if stamped socket.internal_for_room_id room.id
    then bot_seat session.reservation
    else seat_of_user session.reservation socket.resolved_user_id)

abbrev pub is_refused_invitation : Socket → Room → Bool
is_refused_invitation socket room =
    stamped socket.invite_for_room_id room.id && not (can_accept_invitation room)

abbrev pub free_seat : Socket → Room → Option Seat
free_seat socket room =
    if is_refused_invitation socket room || stamped socket.watch_for_room_id room.id
    then none
    else elim room.reserved_duel [
      | some session ↦ reserved_seat_for socket session room
      | none ↦ place_in room
    ]

-- `league.isRanked`
abbrev pub is_ranked : RoomLeague → Bool
is_ranked casual = false
is_ranked verified = true
is_ranked external = true

abbrev pub admits_as_player : RoomLeague → PlayerCredential → Bool
admits_as_player casual credential = true
admits_as_player verified (by_ticket _) = true
admits_as_player verified (by_pin _) = false
admits_as_player verified (as_guest _) = false
admits_as_player external (by_ticket _) = true
admits_as_player external (by_pin _) = true
admits_as_player external (as_guest _) = false

abbrev pub is_guest : PlayerCredential → Bool
is_guest (as_guest _) = true
is_guest (by_ticket _) = false
is_guest (by_pin _) = false

pub data Admission : Type 0 where
  as_player : PlayerCredential → Seat → Admission
  as_spectator rejected : Admission

abbrev pub seat_or_stands : PlayerCredential → Option Seat → Admission
seat_or_stands credential none = as_spectator
seat_or_stands credential (some seat) = as_player credential seat

unfoldable pub decide : RoomLeague → PlayerCredential → Option Seat → Admission
decide league credential seat =
    if is_ranked league && is_guest credential
    then rejected
    else (if not (admits_as_player league credential)
        then as_spectator
        else seat_or_stands credential seat)

abbrev pub user_id_of : PlayerCredential → Option String
user_id_of (as_guest _) = none
user_id_of (by_ticket id) = some id
user_id_of (by_pin id) = some id

-- `seatPlayer`, `admitSpectator` and `rejectAdmission`: an invitation is to a seat or to nothing.
abbrev pub seat_player : ℕ → Socket → String → PlayerCredential → Seat → Room → Room
seat_player object socket name credential seat room =
    if stamped socket.invite_for_room_id room.id
      && (not (can_accept_invitation room) || socket.closed)
    then room
    else add_player_unsafe
        (set_credential credential
          (build_player object socket name (user_id_of credential) seat.position seat.team room))
        room

abbrev pub admit_spectator : ℕ → Socket → String → PlayerCredential → Room → Room
admit_spectator object socket name credential room =
    if stamped socket.invite_for_room_id room.id
    then room
    else add_spectator_unsafe
        (set_credential credential (create_spectator_unsafe object socket name)) room

abbrev pub admitted : ℕ → Socket → String → PlayerCredential → Admission → Room → Room
admitted object socket name credential (as_player key seat) room =
    seat_player object socket name key seat room
admitted object socket name credential as_spectator room =
    admit_spectator object socket name credential room
admitted object socket name credential rejected room = room

-- `AdmitToRoom.run`, once the credential is resolved.
unfoldable pub admit_to_room : ℕ → Socket → String → PlayerCredential → Room → Room
admit_to_room object socket name credential room =
    admitted object socket name credential (decide room.league credential (free_seat socket room))
      room
