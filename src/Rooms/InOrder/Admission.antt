-- ===== src/Rooms/InOrder/Admission.antt =====
-- The JOIN of a client keeps a waiting room in order: `admit` of
-- ygopro/room/domain/states/YGOProWaitingState.ts.
use edopro_server_ts.Prelude.{
  ℕ, ◌≤◌, ◌≡◌, refl, sym, subst, ◌⊎◌, inl, inr, String, Option, none, some, Bool, true, false, not,
  ◌&&◌, ◌||◌, List, [], ◌∷◌, find?, any, All, All-map, count_if, count_if-append, nat_eqb, arith,
  if◌then◌else◌, Bool-cases, Option-cases, untested,
}
use edopro_server_ts.Prelude.Marks.{count_if-none_iff, count_if-any}
use edopro_server_ts.ReservedDuel.{
  UserParticipant, WindbotParticipant, ReservationParticipant, user, windbot,
}
use edopro_server_ts.ReservedDuel.Session.{
  ReservedDuelSession, bot_seat, seat_of_user, users_of, bots_of, seat_or_null, is_user,
}
use edopro_server_ts.Rooms.{Room, is_name_taken, waiting_state}
use edopro_server_ts.Rooms.Clients.{YgoClient, Socket, PlayerCredential}
use edopro_server_ts.Rooms.Seats.{Seat, first_of, t0_positions, t1_positions}
use edopro_server_ts.Rooms.FreeSeats.{IsSeat, Seated, IsFree, free-All, the_seat}
use edopro_server_ts.Rooms.WellSeated.{is_object, is_host, player-joins}
use edopro_server_ts.Rooms.Lobby.{place_in}
use edopro_server_ts.Rooms.Gates.{
  free_seat, reserved_seat_for, unless_taken, admit_to_room, admitted, decide, seat_player, seat_at,
  admit_spectator, as_spectator, rejected, seat_or_stands, is_ranked, is_guest, admits_as_player,
  stamped, is_refused_invitation, reservation_admits,
}
use edopro_server_ts.Rooms.Waiting.{admit}
use edopro_server_ts.Rooms.Steps.{IsUnused}
use edopro_server_ts.Rooms.InOrder.{InOrder, HasTeamSeat, HasTeamSeats, in_lobby, watch-InOrder}
use edopro_server_ts.Rooms.InOrder.Lobby.{if-InOrder, either-InOrder, place_in-IsFree}

-- The seats that a reservation names are the teams'.
users-HasTeamSeats :
    (participants : List ReservationParticipant) (test : UserParticipant → Bool) (team : ℕ)
    → All HasTeamSeat participants
    → seat_or_null (find? test (users_of participants)) ≡ some team
    → team ≤ 1
users-HasTeamSeats [] test team h e = absurd cc
users-HasTeamSeats (user u ∷ ps) test team (low, h) e = elim (Bool-cases (test u)) [
  | inl found ↦
      let same : some u.seat ≡ some team =
        subst (λ b. seat_or_null (if b then some u else find? test (users_of ps)) ≡ some team) found
          e in
      let here : u.seat ≡ team = cc in omega (arith, here, low)
  | inr other ↦ users-HasTeamSeats ps test team h (
      subst (λ b. seat_or_null (if b then some u else find? test (users_of ps)) ≡ some team) other
        e)
]
users-HasTeamSeats (windbot b ∷ ps) test team (low, h) e = users-HasTeamSeats ps test team h e

first_bot : List WindbotParticipant → Option ℕ
first_bot bots = elim bots [ [] ↦ none | b ∷ _ ↦ some b.seat ]

bots-HasTeamSeats :
    (participants : List ReservationParticipant) (team : ℕ)
    → All HasTeamSeat participants
    → first_bot (bots_of participants) ≡ some team
    → team ≤ 1
unfolding first_bot
bots-HasTeamSeats [] team h e = absurd cc
bots-HasTeamSeats (user u ∷ ps) team (low, h) e = bots-HasTeamSeats ps team h e
bots-HasTeamSeats (windbot b ∷ ps) team (low, h) e =
    let here : b.seat ≡ team = cc in omega (arith, here, low)

by_reservation :
    (reserved : Option ReservedDuelSession) (open_ : Option Seat)
    (held : ReservedDuelSession → Option Seat) (seat : Seat)
    → (elim reserved [ some session ↦ held session | none ↦ open_ ]) ≡ some seat
    → (open_ ≡ some seat)
      ⊎ ((session : ReservedDuelSession) × (reserved ≡ some session) × (held session ≡ some seat))
by_reservation none open_ held seat e = inl e
by_reservation (some session) open_ held seat e = inr (session, refl, e)

abbrev unless_taken_by : List YgoClient → ℕ → ℕ → ℕ → Option Seat
unless_taken_by players team0 team1 team =
    if any (λ (player : YgoClient). nat_eqb player.team team) players
    then none
    else seat_at team
        (first_of (if nat_eqb team 0 then t0_positions team0 else t1_positions team0 team1))

untaken-IsFree :
    (players : List YgoClient) (seat : Seat)
    → All (Seated 1 1) players
    → (any (λ (player : YgoClient). nat_eqb player.team seat.team) players ≡ false)
    → IsSeat 1 1 seat.position seat.team
    → IsFree 1 1 players seat
untaken-IsFree players seat seated untaken place = (
  place,
  free-All 1 1 players seat.position seat.team place seated (
      All-map _ _ (λ p h e. absurd cc) players
        ((count_if-none_iff _ players).0 (count_if-any _ players untaken))),
)

module _ {room : Room} (o : InOrder room) (waits : room.room_state ≡ waiting_state) where
  open o use {one_each, well, reserved}

  unless_taken-IsFree :
      (team : ℕ) (seat : Seat)
      → team ≤ 1
      → unless_taken room (some team) ≡ some seat
      → IsFree 1 1 room.players seat
  unless_taken-IsFree team seat low found = elim (le_one team low) [
    | inl zero_ ↦
        let (untaken, e) : (is_taken 0 ≡ false) × (some (the_seat 0 0) ≡ some seat) =
          untested (is_taken 0) (some (the_seat 0 0)) seat
            (subst (λ t. unless_taken_by room.players 1 1 t ≡ some seat) zero_ one_of_each) in
        let same : ◌≡◌ {A = Seat} (the_seat 0 0) seat = cc in
        subst (IsFree 1 1 room.players) same
          (untaken-IsFree room.players _ well.seated untaken (inl (refl, omega arith)))
    | inr one ↦
        let (untaken, e) : (is_taken 1 ≡ false) × (some (the_seat 1 1) ≡ some seat) =
          untested (is_taken 1) (some (the_seat 1 1)) seat
            (subst (λ t. unless_taken_by room.players 1 1 t ≡ some seat) one one_of_each) in
        let same : ◌≡◌ {A = Seat} (the_seat 1 1) seat = cc in
        subst (IsFree 1 1 room.players) same
          (untaken-IsFree room.players _ well.seated untaken (inr (refl, omega arith, omega arith)))
  ]
    where
      is_taken : ℕ → Bool
      is_taken t = any (λ (player : YgoClient). nat_eqb player.team t) room.players

      le_one : (n : ℕ) → n ≤ 1 → (n ≡ 0) ⊎ (n ≡ 1)
      le_one n h = omega (arith, h)

      one_of_each : unless_taken_by room.players 1 1 team ≡ some seat
      one_of_each =
          subst (λ n. unless_taken_by room.players 1 n team ≡ some seat) one_each.1
            (subst (λ n. unless_taken_by room.players n room.team1 team ≡ some seat) one_each.0
              found)

  reserved_seat_for-IsFree :
      (socket : Socket) (session : ReservedDuelSession) (seat : Seat)
      → room.reserved_duel ≡ some session
      → reserved_seat_for socket session room ≡ some seat
      → IsFree 1 1 room.players seat
  unfolding seat_of_user bot_seat first_bot
  reserved_seat_for-IsFree socket session seat held found =
      elim (Option-cases (team_for (stamped socket.internal_for_room_id room.id))) [
        | inl none_ ↦ absurd (holds_nothing _ none_ found)
        | inr (team, e) ↦
            unless_taken-IsFree team seat (team_for-le _ team e)
              (subst (λ t. unless_taken room t ≡ some seat) e found)
      ]
    where
      named : All HasTeamSeat session.reservation.participants
      named = subst HasTeamSeats held reserved

      team_for : Bool → Option ℕ
      team_for internal =
          if internal
          then bot_seat session.reservation
          else seat_of_user session.reservation socket.resolved_user_id

      holds_nothing : (t : Option ℕ) → t ≡ none → unless_taken room t ≡ some seat → ⊥
      holds_nothing none e f = cc
      holds_nothing (some t) e f = cc

      team_for-le : (internal : Bool) (team : ℕ) → team_for internal ≡ some team → team ≤ 1
      team_for-le true team e = bots-HasTeamSeats session.reservation.participants team named e
      team_for-le false team e =
          users-HasTeamSeats session.reservation.participants (is_user socket.resolved_user_id) team
            named e

  free_seat-IsFree :
      (socket : Socket) (seat : Seat)
      → free_seat socket room ≡ some seat
      → IsFree 1 1 room.players seat
  free_seat-IsFree socket seat found =
      let (_, open_) =
        untested (is_refused_invitation socket room || stamped socket.watch_for_room_id room.id) _
          seat found in
      elim (by_reservation room.reserved_duel (place_in room)
        (λ session. reserved_seat_for socket session room) seat open_) [
          | inl place ↦ place_in-IsFree o waits seat place
          | inr (session, held, e) ↦ reserved_seat_for-IsFree socket session seat held e
        ]

  new_to :
      (object : ℕ)
      → IsUnused object room
      → (count_if (is_object object) room.players ≡ 0)
        × (count_if (is_object object) room.spectators ≡ 0)
  new_to object unused = (
    omega (arith, unused, count_if-append (is_object object) room.players room.spectators),
    omega (arith, unused, count_if-append (is_object object) room.players room.spectators),
  )

  seat_player-InOrder :
      (object : ℕ) (socket : Socket) (name : String) (credential : PlayerCredential) (seat : Seat)
      → IsUnused object room
      → IsFree 1 1 room.players seat
      → InOrder (seat_player object socket name credential seat room)
  seat_player-InOrder object socket name credential seat unused free =
      if-InOrder _ (λ _. o)
        (λ _. in_lobby o waits (
          player-joins well _ (new_to object unused) free
            (λ h. count_if-any is_host room.players (ground arith))))

  admit_spectator-InOrder :
      (object : ℕ) (socket : Socket) (name : String) (credential : PlayerCredential)
      → IsUnused object room
      → InOrder (admit_spectator object socket name credential room)
  admit_spectator-InOrder object socket name credential unused =
      if-InOrder _ (λ _. o) (λ _. watch-InOrder o _ (new_to object unused) (refl, refl))

  admitted-InOrder :
      (object : ℕ) (socket : Socket) (name : String) (credential : PlayerCredential)
      → IsUnused object room
      → InOrder (
          admitted object socket name credential
            (decide room.league credential (free_seat socket room))
            room)
  unfolding decide
  admitted-InOrder object socket name credential unused =
      decided (is_ranked room.league && is_guest credential)
        (not (admits_as_player room.league credential)) (free_seat socket room) refl
    where
      decided :
          (unknown unfit : Bool) (seat : Option Seat)
          → seat ≡ free_seat socket room
          → InOrder (
              admitted object socket name credential
                (if unknown
                  then rejected
                  else (if unfit then as_spectator else seat_or_stands credential seat))
                room)
      decided true unfit seat e = o
      decided false true seat e = admit_spectator-InOrder object socket name credential unused
      decided false false none e = admit_spectator-InOrder object socket name credential unused
      decided false false (some seat) e =
          seat_player-InOrder object socket name credential seat unused
            (free_seat-IsFree socket seat (sym e))

  pub admit-InOrder :
      (object : ℕ) (socket : Socket) (name : String) (credential : PlayerCredential)
      → IsUnused object room
      → InOrder (admit object socket name credential room)
  unfolding admit admit_to_room
  admit-InOrder object socket name credential unused =
      either-InOrder (not (reservation_admits socket room)) o (
        either-InOrder (is_name_taken room.players name) o (
          either-InOrder (is_refused_invitation socket room) o
            (admitted-InOrder object socket name credential unused)))
