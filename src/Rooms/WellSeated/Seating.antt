-- ===== src/Rooms/WellSeated/Seating.antt =====
-- The seats when one client takes the place that it is given, and the others stay where they are.
use edopro_server_ts.Prelude.{
  ℕ, ◌+◌, ◌≤◌, ◌≡◌, refl, subst, ap, ◌⊎◌, inl, inr, Bool, true, false, not, ◌&&◌, List, map, All,
  All-map, count_if, nat_eqb, arith, if◌then◌else◌, Bool-cases,
}
use edopro_server_ts.Prelude.Marks.{
  count_if-le-sum, count_if-le, count_if-none_iff, count_if-map, All-mapped,
}
use edopro_server_ts.Rooms.{change_in}
use edopro_server_ts.Rooms.Clients.{YgoClient}
use edopro_server_ts.Rooms.Seats.{Seat}
use edopro_server_ts.Rooms.FreeSeats.{IsSeat, Seated, sits_at}
use edopro_server_ts.Rooms.Lobby.{to_the_seat}
use edopro_server_ts.Rooms.WellSeated.{
  WellSeated, InStands, is_object, is_host, change_in-absent, changed_if, changed_if-object,
}

module _ (object : ℕ) (place : Seat) where
  abbrev seat_object : YgoClient → YgoClient
  seat_object = changed_if object (to_the_seat place)

  -- The object aside, clients are seated and not on the place.
  abbrev pub IsElsewhere : ℕ → ℕ → YgoClient → Type 0
  IsElsewhere team0 team1 client =
      (is_object object client ≡ true)
      ⊎ (Seated team0 team1 client × (sits_at place.position client ≡ false))

  abbrev pub sits_beside : ℕ → YgoClient → Bool
  sits_beside q client = sits_at q client && not (is_object object client)

  seat_object-Seated :
      (team0 team1 : ℕ)
      → IsSeat team0 team1 place.position place.team
      → (client : YgoClient) → IsElsewhere team0 team1 client
      → Seated team0 team1 (seat_object client)
  seat_object-Seated team0 team1 seat client (inl here) = rw here seat
  seat_object-Seated team0 team1 seat client (inr (seated, free)) =
      elim (Bool-cases (is_object object client)) [
        | inl here ↦ rw here seat
        | inr elsewhere ↦ rw elsewhere seated
      ]

  -- Who sits there afterwards is the object, on its new seat, or sat there before.
  after_seat :
      (q : ℕ) (client : YgoClient)
      → sits_at q (seat_object client) ≡ true
      → ((is_object object client ≡ true) × (place.position ≡ q)) ⊎ (sits_beside q client ≡ true)
  after_seat q client h = elim (Bool-cases (is_object object client)) [
    | inl here ↦
        let there : nat_eqb place.position q ≡ true =
          subst (λ b. sits_at q (if b then to_the_seat place client else client) ≡ true) here h in
        inl (here, ground arith)
    | inr elsewhere ↦
        let there : sits_at q client ≡ true =
          subst (λ b. sits_at q (if b then to_the_seat place client else client) ≡ true) elsewhere
            h in
        inr (ground (arith, elsewhere, there))
  ]

  none_beside :
      (players : List YgoClient)
      → All (λ c. (is_object object c ≡ true) ⊎ (sits_at place.position c ≡ false)) players
      → All (λ c. sits_beside place.position c ≡ false) players
  none_beside players = All-map _ _ (λ c h. ground (arith, h)) players

  seat_object-apart :
      (players : List YgoClient) (q : ℕ)
      → All (λ c. (is_object object c ≡ true) ⊎ (sits_at place.position c ≡ false)) players
      → count_if (sits_beside q) players ≤ 1
      → count_if (is_object object) players ≤ 1
      → count_if (sits_at q) (map seat_object players) ≤ 1
  seat_object-apart players q free beside once =
      rw (count_if-map (sits_at q) (λ c. sits_at q (seat_object c)) seat_object (λ _. refl) players)
        (elim (Bool-cases (nat_eqb place.position q)) [
          | inl there ↦
              let e : place.position ≡ q = ground arith in
              let nobody : count_if (sits_beside q) players ≡ 0 =
                subst (λ r. count_if (sits_beside r) players ≡ 0) e
                  ((count_if-none_iff _ players).1 (none_beside players free)) in
              omega (
                arith,
                nobody,
                once,
                count_if-le-sum (is_object object) (sits_beside q) (λ c. sits_at q (seat_object c))
                    in_either players,
              )
          | inr not_there ↦ omega (
            arith,
            beside,
            count_if-le (sits_beside q) (λ c. sits_at q (seat_object c)) (only_beside not_there)
                players,
          )
        ])
    where
      in_either :
          (c : YgoClient)
          → sits_at q (seat_object c) ≡ true
          → (is_object object c ≡ true) ⊎ (sits_beside q c ≡ true)
      in_either c h = elim (after_seat q c h) [ inl (here, _) ↦ inl here | inr there ↦ inr there ]

      only_beside :
          nat_eqb place.position q ≡ false
          → (c : YgoClient) → sits_at q (seat_object c) ≡ true
          → sits_beside q c ≡ true
      only_beside not_there c h = elim (after_seat q c h) [
        | inl (_, e) ↦ absurd (ground arith)
        | inr there ↦ there
      ]

  seat_object-host : (client : YgoClient) → is_host (seat_object client) ≡ is_host client
  seat_object-host client = elim (Bool-cases (is_object object client)) [
    | inl here ↦ rw here refl
    | inr elsewhere ↦ rw elsewhere refl
  ]

  pub seat_object-WellSeated :
      {team0 team1 : ℕ} (players spectators : List YgoClient)
      → IsSeat team0 team1 place.position place.team
      → All (IsElsewhere team0 team1) players
      → All InStands spectators
      → ((q : ℕ) → count_if (sits_beside q) players ≤ 1)
      → ((o : ℕ) → count_if (is_object o) players + count_if (is_object o) spectators ≤ 1)
      → 1 ≤ count_if (is_object object) players
      → count_if is_host players ≤ 1
      → WellSeated team0 team1
          (change_in object (to_the_seat place) players)
          (change_in object (to_the_seat place) spectators)
  seat_object-WellSeated {team0} {team1} players spectators seat elsewhere stands beside once here
        one_host =
      let left_out =
        change_in-absent object (to_the_seat place) spectators (omega (arith, once object)) in
      record {
        seated = All-mapped _ _ seat_object (seat_object-Seated team0 team1 seat) players elsewhere;
        in_stands = rw left_out stands;
        apart = λ q. seat_object-apart players q free (beside q) (omega (arith, once object));
        once = λ o. omega (
          arith,
          once o,
          ap (count_if (is_object o)) left_out,
          count_if-map (is_object o) (is_object o) seat_object
              (changed_if-object object o (to_the_seat place) (λ _. refl)) players,
        );
        one_host = rw (count_if-map is_host is_host seat_object seat_object-host players) one_host;
      }
    where
      free : All (λ c. (is_object object c ≡ true) ⊎ (sits_at place.position c ≡ false)) players
      free =
          All-map _ _ (λ c h. elim h [ inl here ↦ inl here | inr (_, f) ↦ inr f ]) players elsewhere
