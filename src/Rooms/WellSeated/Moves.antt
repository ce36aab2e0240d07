-- ===== src/Rooms/WellSeated/Moves.antt =====
-- The seats when a client takes one, changes it, or goes to the stands:
-- `movePlayerToAnotherCellUnsafe`, `spectatorToPlayerUnsafe` and `playerToSpectatorUnsafe` of
-- ygopro/room/domain/YGOProRoom.ts.
use edopro_server_ts.Prelude.{
  ℕ, ◌+◌, ◌≤◌, ◌≡◌, refl, ◌⊎◌, inl, inr, Bool, true, false, not, List, [], ◌∷◌, ◌++◌, All, All-map,
  All-append, All-product_iff, count_if, count_if-append, nat_eqb, arith, Bool-cases,
}
use mathlib.Core.List.{Memᴰ}
use edopro_server_ts.Prelude.Marks.{
  count_if-filter, count_if-dropped, count_if-le, count_if-Mem, count_if-map, All-filter, All-Mem,
  All-mapped,
}
use edopro_server_ts.Rooms.{change_in, without_socket}
use edopro_server_ts.Rooms.Clients.{YgoClient}
use edopro_server_ts.Rooms.Seats.{Seat}
use edopro_server_ts.Rooms.FreeSeats.{sits_at, IsFree}
use edopro_server_ts.Rooms.Lobby.{to_the_seat, to_the_stands}
use edopro_server_ts.Rooms.WellSeated.{
  WellSeated, InStands, is_object, is_host, change_in-absent, changed_if, changed_if-object,
}
use edopro_server_ts.Rooms.WellSeated.Seating.{IsElsewhere, sits_beside, seat_object-WellSeated}

-- A client that passes from one list to the other still stands in the room once.
passed-once :
    (player : YgoClient) (to from : List YgoClient)
    → Memᴰ player from
    → (o : ℕ) → count_if (is_object o) to + count_if (is_object o) from ≤ 1
    → count_if (is_object o) (to ++ player ∷ [])
        + count_if (is_object o) (without_socket player.socket.id from)
      ≤ 1
passed-once player to from m o once = elim (Bool-cases (is_object o player)) [
  | inl same ↦
      let dropped : count_if (is_object o) (without_socket player.socket.id from) + 1
          ≤ count_if (is_object o) from =
        count_if-dropped (is_object o) _ player from m same (ground arith) in
      ground (arith, same, dropped, count_if-append (is_object o) to (player ∷ []))
  | inr other ↦
      let fewer : count_if (is_object o) (without_socket player.socket.id from)
          ≤ count_if (is_object o) from =
        count_if-filter (is_object o) _ from in
      ground (arith, other, fewer, count_if-append (is_object o) to (player ∷ []))
]

-- What the object, which is not the host, becomes in the stands.
stands-InStands :
    (object : ℕ) (client : YgoClient)
    → ((is_object object client ≡ true) × (client.host ≡ false)) ⊎ InStands client
    → InStands (changed_if object to_the_stands client)
stands-InStands object client (inl (here, not_host)) = rw here (refl, not_host)
stands-InStands object client (inr (t, h)) = elim (Bool-cases (is_object object client)) [
  | inl here ↦ rw here (refl, h)
  | inr elsewhere ↦ rw elsewhere (t, h)
]

module _ {team0 team1 : ℕ} {players spectators : List YgoClient} (player : YgoClient)
    (w : WellSeated team0 team1 players spectators) where
  open w use {seated, in_stands, apart, once, one_host}

  is_itself : is_object player.object player ≡ true
  is_itself = ground arith

  IsElsewhere-All :
      (place : Seat)
      → All (λ (p : YgoClient). sits_at place.position p ≡ false) players
      → All (IsElsewhere player.object place team0 team1) players
  IsElsewhere-All place free =
      All-map _ _ (λ c (s, f). inr (s, f)) players ((All-product_iff _ _ players).0 (seated, free))

  beside-le :
      (place : Seat) (q : ℕ) (clients : List YgoClient)
      → count_if (sits_beside player.object place q) clients ≤ count_if (sits_at q) clients
  beside-le place q clients =
      count_if-le (sits_at q) (sits_beside player.object place q) (λ c h. ground (arith, h)) clients

  pub move-WellSeated :
      (place : Seat)
      → Memᴰ player players
      → IsFree team0 team1 players place
      → WellSeated team0 team1
          (change_in player.object (to_the_seat place) players)
          (change_in player.object (to_the_seat place) spectators)
  move-WellSeated place m (seat, free) =
      seat_object-WellSeated player.object place players spectators seat
        (IsElsewhere-All place free) in_stands
        (λ q. omega (arith, apart q, beside-le place q players)) once
        (count_if-Mem _ player players m is_itself) one_host

  pub sit-WellSeated :
      (place : Seat)
      → Memᴰ player spectators
      → IsFree team0 team1 players place
      → WellSeated team0 team1
          (change_in player.object (to_the_seat place) (players ++ player ∷ []))
          (change_in player.object (to_the_seat place) (without_socket player.socket.id spectators))
  sit-WellSeated place m (seat, free) =
      seat_object-WellSeated player.object place (players ++ player ∷ [])
        (without_socket player.socket.id spectators) seat
        (All-append _ players _ (IsElsewhere-All place free) (inl is_itself, tt))
        (All-filter _ _ spectators in_stands)
        (λ q.
          rw (count_if-append (sits_beside player.object place q) players (player ∷ []))
            (ground (arith, is_itself, apart q, beside-le place q players)))
        (λ o. passed-once player players spectators m o (once o))
        (ground (arith, is_itself, count_if-append (is_object player.object) players (player ∷ [])))
        (ground (arith, one_host, not_host, count_if-append is_host players (player ∷ [])))
    where
      not_host : player.host ≡ false
      not_host = (All-Mem InStands player spectators in_stands m).1

  pub stand-WellSeated :
      Memᴰ player players
      → player.host ≡ false
      → WellSeated team0 team1
          (change_in player.object to_the_stands (without_socket player.socket.id players))
          (change_in player.object to_the_stands (spectators ++ player ∷ []))
  stand-WellSeated m not_host = record {
    seated = rw left_out (All-filter _ _ players seated);
    in_stands = All-mapped _ _ _ (stands-InStands player.object) (spectators ++ player ∷ []) (
        All-append _ spectators _ (All-map _ _ (λ c h. inr h) spectators in_stands)
          (inl (is_itself, not_host), tt));
    apart = λ q. rw left_out (omega (arith, apart q, count_if-filter (sits_at q) stays players));
    once = λ o. rw left_out (
        omega (
          arith,
          passed-once player spectators players m o (omega (arith, once o)),
          count_if-map (is_object o) (is_object o) (changed_if player.object to_the_stands)
              (changed_if-object player.object o to_the_stands (λ _. refl))
              (spectators ++ player ∷ []),
        ));
    one_host = rw left_out (omega (arith, one_host, count_if-filter is_host stays players));
  }
    where
      stays : YgoClient → Bool
      stays item = not (nat_eqb item.socket.id player.socket.id)

      left_out :
          change_in player.object to_the_stands (without_socket player.socket.id players)
          ≡ without_socket player.socket.id players
      left_out = change_in-absent player.object to_the_stands _ (
          omega (
            arith,
            once player.object,
            count_if-dropped (is_object player.object) stays player players m is_itself
                (ground arith),
          ))
