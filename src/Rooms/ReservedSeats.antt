-- ===== src/Rooms/ReservedSeats.antt =====
-- Who sits in a room that is reserved for accounts: the gates of ygopro/room/domain/YGOProRoom.ts at the
-- three doors to a seat, the JOIN of the lobby, TO_DUEL and the JOIN of a later phase.
use edopro_server_ts.Prelude.{
  ℕ, ◌≡◌, ◌≢◌, refl, String, Option, none, some, Bool, true, false, not, ◌&&◌, ◌||◌, [], ◌∷◌, ◌++◌,
  All, All-append, if◌then◌else◌, untested, by_test, and-eq-true_iff, arith,
}
use edopro_server_ts.Prelude.Eq.{string_eq}
use edopro_server_ts.ReservedDuel.Session.{ReservedDuelSession}
use edopro_server_ts.Rooms.{Room, is_name_taken}
use edopro_server_ts.Rooms.Clients.{YgoClient, Socket, PlayerCredential, is_spectator}
use edopro_server_ts.Rooms.Seats.{Seat, next_available_position}
use edopro_server_ts.Rooms.Lobby.{
  spectator_to_player_unsafe, move_player_to_another_cell_unsafe, sit_down, move_to, place_in,
  to_the_seat, reconnect, taken_over,
}
use edopro_server_ts.Rooms.Gates.{
  stamped, reservation_admits, reservation_permits_seat, free_seat, is_refused_invitation,
  admit_to_room, admitted, decide, admit_spectator, as_spectator, rejected, seat_or_stands,
  is_ranked, is_guest, admits_as_player, can_accept_invitation,
}
use edopro_server_ts.Rooms.Waiting.{admit, handle_to_duel, credential_of}
use edopro_server_ts.Rooms.Reconnect.{
  Identity, account, guest_identity, unresolved, admit_as_spectator, handle_mid_duel_join, rejoin,
  seat_or_spectate, find_mid_duel_reconnecting_player,
}
use edopro_server_ts.Rooms.Reclaim.{reclaims_own_seat}
use edopro_server_ts.Rooms.SeatRights.{
  MaySit, SeatsAreReserved, admits-MaySit, permits-MaySit, change_in-MaySit,
  clear_after-SeatsAreReserved,
}

module _ (room : Room) (is_reserved : room.reserved_user_ids ≢ [])
    (held : SeatsAreReserved room) where
  -- The JOIN of a lobby.
  admitted_seats :
      (object : ℕ) (socket : Socket) (name : String) (credential : PlayerCredential)
      → reservation_admits socket room ≡ true
      → SeatsAreReserved (admit_to_room object socket name credential room)
  unfolding reservation_admits admit_to_room decide
  admitted_seats object socket name credential admits =
      decided (is_ranked room.league && is_guest credential)
        (not (admits_as_player room.league credential)) (free_seat socket room) refl
    where
      stands_seats : SeatsAreReserved (admit_spectator object socket name credential room)
      stands_seats =
          by_test SeatsAreReserved (stamped socket.invite_for_room_id room.id) room _ (λ _. held)
            (λ _. held)

      appended :
          (p : YgoClient)
          → MaySit room.id room.reserved_user_ids p.socket
          → All
              (λ (q : YgoClient). MaySit room.id room.reserved_user_ids q.socket)
              (room.players ++ p ∷ [])
      appended p may = All-append _ room.players (p ∷ []) held (may, tt)

      unwatched :
          {seat : Seat}
          → free_seat socket room ≡ some seat
          → stamped socket.watch_for_room_id room.id ≡ false
      unwatched e =
          let (outside, _) =
            untested (is_refused_invitation socket room || stamped socket.watch_for_room_id room.id)
              _ _ e in
          ground (arith, outside)

      joins :
          stamped socket.watch_for_room_id room.id ≡ false
          → MaySit room.id room.reserved_user_ids socket
      joins unstamped =
          admits-MaySit room socket room.reserved_user_ids is_reserved refl unstamped admits

      decided :
          (unknown unfit : Bool) (seat : Option Seat)
          → free_seat socket room ≡ seat
          → SeatsAreReserved (
              admitted object socket name credential
                (if unknown
                  then rejected
                  else (if unfit then as_spectator else seat_or_stands credential seat))
                room)
      decided true unfit seat e = held
      decided false true seat e = stands_seats
      decided false false none e = stands_seats
      decided false false (some seat) e =
          by_test SeatsAreReserved
            (stamped socket.invite_for_room_id room.id
              && (not (can_accept_invitation room) || socket.closed))
            room _ (λ _. held) (λ _. appended _ (joins (unwatched e)))

  admit_seats :
      (object : ℕ) (socket : Socket) (name : String) (credential : PlayerCredential)
      → SeatsAreReserved (admit object socket name credential room)
  unfolding admit
  admit_seats object socket name credential =
      by_test SeatsAreReserved (not (reservation_admits socket room)) room _ (λ _. held)
        (λ admits.
          by_test SeatsAreReserved (is_name_taken room.players name) room _ (λ _. held)
            (λ _.
              by_test SeatsAreReserved (is_refused_invitation socket room) room _ (λ _. held)
                (λ _. admitted_seats object socket name credential (ground (arith, admits)))))

  sit_down_seats :
      (player : YgoClient) (place : Option Seat)
      → reservation_permits_seat player.socket room ≡ true
      → SeatsAreReserved (sit_down player place room)
  unfolding reservation_permits_seat
  sit_down_seats player none permits = held
  sit_down_seats player (some place) permits =
      change_in-MaySit room.id room.reserved_user_ids player.object (to_the_seat place)
        (room.players ++ player ∷ []) (λ c k. k)
        (All-append _ room.players _ held
          (permits-MaySit room player.socket room.reserved_user_ids is_reserved refl permits, tt))

  move_to_seats :
      (player : YgoClient) (place : Option Seat) → SeatsAreReserved (move_to player place room)
  move_to_seats player none = held
  move_to_seats player (some place) =
      change_in-MaySit room.id room.reserved_user_ids player.object (to_the_seat place) room.players
        (λ c k. k) held

  unless_reserved :
      (reserved : Option ReservedDuelSession) (after : Room)
      → SeatsAreReserved after
      → SeatsAreReserved (elim reserved [ some _ ↦ room | none ↦ after ])
  unless_reserved none after h = h
  unless_reserved (some session) after h = held

  handle_to_duel_seats : (player : YgoClient) → SeatsAreReserved (handle_to_duel player room)
  unfolding handle_to_duel spectator_to_player_unsafe move_player_to_another_cell_unsafe
  handle_to_duel_seats player = unless_reserved room.reserved_duel _ (
      by_test SeatsAreReserved (is_spectator player) _ _
        (λ _.
          by_test SeatsAreReserved
            (admits_as_player room.league (credential_of player)
              && reservation_permits_seat player.socket room)
            _ room
            (λ fits.
              sit_down_seats player (place_in room)
                ((and-eq-true_iff (admits_as_player room.league (credential_of player)) _).0
                  fits).1)
            (λ _. held))
        (λ _. unless_reserved room.reserved_duel _ (
          move_to_seats player
            (next_available_position room.team0 room.team1 room.players player.position))))

  rejoin_seats :
      (object : ℕ) (socket : Socket) (name : String) (joiner : Option String)
      → reservation_admits socket room ≡ true
      → SeatsAreReserved (rejoin object socket name joiner room)
  unfolding reservation_admits reconnect
  rejoin_seats object socket name joiner admits =
      seated
        (find_mid_duel_reconnecting_player room.players name socket room.id (is_ranked room.league)
          joiner)
        refl
    where
      seated :
          (seat : Option YgoClient)
          → find_mid_duel_reconnecting_player room.players name socket room.id
              (is_ranked room.league)
              joiner
            ≡ seat
          → SeatsAreReserved (seat_or_spectate object socket name seat room)
      seated none e = held
      seated (some player) e =
          let (unstamped, _, _, _) =
            reclaims_own_seat room.players name socket room.id (is_ranked room.league) joiner player
              e in
          let over =
            change_in-MaySit room.id room.reserved_user_ids player.object (taken_over socket)
              room.players
              (λ c k.
                admits-MaySit room socket room.reserved_user_ids is_reserved refl unstamped admits)
              held in
          clear_after-SeatsAreReserved room.room_state player (reconnect player socket room) over

  by_identity :
      (object : ℕ) (socket : Socket) (name : String) (identity : Identity)
      → reservation_admits socket room ≡ true
      → SeatsAreReserved (elim identity [
        | account user_id ↦ rejoin object socket name (some user_id) room
        | guest_identity ↦ rejoin object socket name none room
        | unresolved ↦ admit_as_spectator object socket name room
      ])
  by_identity object socket name (account user_id) admits =
      rejoin_seats object socket name (some user_id) admits
  by_identity object socket name guest_identity admits = rejoin_seats object socket name none admits
  by_identity object socket name unresolved admits = held

  handle_mid_duel_join_seats :
      (object : ℕ) (socket : Socket) (name : String) (identity : Identity)
      → SeatsAreReserved (handle_mid_duel_join object socket name identity room)
  unfolding handle_mid_duel_join
  handle_mid_duel_join_seats object socket name identity =
      by_test SeatsAreReserved (not (reservation_admits socket room)) room _ (λ _. held)
        (λ admits.
          by_test SeatsAreReserved (not (is_ranked room.league)) _ _
            (λ _. rejoin_seats object socket name none (ground (arith, admits)))
            (λ _. by_identity object socket name identity (ground (arith, admits))))

-- In a room that is reserved for accounts, and whose players' connections all belong to its own bot or
-- to one of these accounts, no JOIN, in the lobby or later, whatever it says of its name, its
-- credential and its stamps, and no TO_DUEL of a client seats any other connection.
pub seats_stay_reserved :
    (room : Room) (object : ℕ) (socket : Socket) (name : String) (credential : PlayerCredential)
    (identity : Identity) (player : YgoClient)
    → room.reserved_user_ids ≢ []
    → SeatsAreReserved room
    → SeatsAreReserved (admit object socket name credential room)
      × SeatsAreReserved (handle_to_duel player room)
      × SeatsAreReserved (handle_mid_duel_join object socket name identity room)
seats_stay_reserved room object socket name credential identity player some_ held = (
  admit_seats room some_ held object socket name credential,
  handle_to_duel_seats room some_ held player,
  handle_mid_duel_join_seats room some_ held object socket name identity,
)
