-- ===== src/Rooms/FreeSeats.antt =====
-- The seats that `calculatePlaceUnsafe` of shared/room/domain/YgoRoom.ts finds.
pub mod Next
use edopro_server_ts.Prelude.{
  ℕ, zero, suc, ◌+◌, ◌≤◌, ◌<◌, ◌≡◌, refl, sym, subst, ap, ◌∙◌, ◌⊎◌, inl, inr, Option, none, some,
  Bool, true, false, not, List, [], ◌∷◌, ◌++◌, map, filter, All, All-map, ltb, nat_eqb, arith,
  if◌then◌else◌, Bool-cases,
}
use mathlib.Core.List.{Memᴰ}
use edopro_server_ts.Prelude.Marks.{All-Mem}
use edopro_server_ts.Prelude.Eq.{nat_eq, contains}
use edopro_server_ts.Rooms.Clients.{YgoClient}
use edopro_server_ts.Rooms.Seats.{
  Seat, range, t0_positions, t1_positions, get_difference, first_of, positions_of_team, seat_in,
  calculate_place, next_available_position, pick_place, place_for, sorted, insert_sorted,
}

-- The position is one of the team's.
abbrev pub IsSeat : ℕ → ℕ → ℕ → ℕ → Type 0
IsSeat team0 team1 position team =
    ((team ≡ 0) × (position < team0))
    ⊎ ((team ≡ 1) × (team0 ≤ position) × (position < team0 + team1))

abbrev pub Seated : ℕ → ℕ → YgoClient → Type 0
Seated team0 team1 client = IsSeat team0 team1 client.position client.team

abbrev pub sits_at : ℕ → YgoClient → Bool
sits_at position client = nat_eqb client.position position

range-bounds : (start count : ℕ) → All (λ q. (start ≤ q) × (q < start + count)) (range start count)
range-bounds start zero = tt
range-bounds start (suc count) = (
  (omega arith, omega arith),
  All-map _ _ (λ q (low, high). (omega (arith, low), omega (arith, high))) (range (suc start) count)
      (range-bounds (suc start) count),
)

kept-All :
    (P : ℕ → Type 0) (keep : ℕ → Bool) (xs : List ℕ)
    → All P xs
    → All (λ q. P q × (keep q ≡ true)) (filter keep xs)
kept-All P keep [] h = tt
kept-All P keep (x ∷ xs) (p, h) = elim (Bool-cases (keep x)) [
  | inl kept ↦ rw kept ((p, kept), kept-All P keep xs h)
  | inr dropped ↦ rw dropped (kept-All P keep xs h)
]

first_of-All : (P : ℕ → Type 0) (xs : List ℕ) (q : ℕ) → All P xs → first_of xs ≡ some q → P q
first_of-All P [] q h e = absurd cc
first_of-All P (x ∷ xs) q (p, h) e = let same : x ≡ q = cc in subst P same p

-- A position that is not among those of the clients, the first of whom may be left out.
abbrev pub position_of : YgoClient → ℕ
position_of client = client.position

unheld_if :
    (kept : Bool) (q : ℕ) (p : YgoClient) (rest : List YgoClient)
    → contains q (map position_of (if kept then p ∷ rest else rest)) ≡ false
    → (kept ≡ true → sits_at q p ≡ false) × (contains q (map position_of rest) ≡ false)
unheld_if true q p rest h = (λ _. ground arith, ground arith)
unheld_if false q p rest h = (λ e. absurd cc, h)

not_held :
    (team q : ℕ) (players : List YgoClient)
    → contains q (positions_of_team team players) ≡ false
    → All (λ (p : YgoClient). nat_eqb p.team team ≡ true → sits_at q p ≡ false) players
not_held team q [] h = tt
not_held team q (p ∷ players) h =
    let (here, rest) = unheld_if (nat_eqb p.team team) q p _ h in
    (here, not_held team q players rest)

pub not_occupied :
    (q : ℕ) (players : List YgoClient)
    → contains q (map position_of players) ≡ false
    → All (λ (p : YgoClient). sits_at q p ≡ false) players
not_occupied q [] h = tt
not_occupied q (p ∷ players) h = (ground arith, not_occupied q players (ground arith))

seat_in-cases :
    (team : ℕ) (found : Option ℕ) (otherwise : Option Seat) (seat : Seat)
    → seat_in team found otherwise ≡ some seat
    → ((q : ℕ) × (found ≡ some q) × ◌≡◌ {A = Seat} (record { position = q; team = team }) seat)
      ⊎ (otherwise ≡ some seat)
seat_in-cases team none otherwise seat e = inr e
seat_in-cases team (some q) otherwise seat e = inl (q, refl, cc)

module _ (team0 team1 : ℕ) where
  -- The position is a seat of the team's, and no client sits there.
  abbrev pub IsFree : List YgoClient → Seat → Type 0
  IsFree players seat =
      IsSeat team0 team1 seat.position seat.team
      × All (λ (p : YgoClient). sits_at seat.position p ≡ false) players

  -- A seat that no client of its team holds is held by nobody.
  pub free-All :
      (players : List YgoClient) (q team : ℕ)
      → IsSeat team0 team1 q team
      → All (Seated team0 team1) players
      → All (λ (p : YgoClient). nat_eqb p.team team ≡ true → sits_at q p ≡ false) players
      → All (λ (p : YgoClient). sits_at q p ≡ false) players
  free-All [] q team seat seated h = tt
  free-All (p ∷ players) q team seat (s, seated) (u, h) =
      (elsewhere p s u, free-All players q team seat seated h)
    where
      elsewhere :
          (p : YgoClient)
          → Seated team0 team1 p
          → (nat_eqb p.team team ≡ true → sits_at q p ≡ false)
          → sits_at q p ≡ false
      elsewhere p s u = elim (Bool-cases (nat_eqb p.team team)) [
        | inl same ↦ u same
        | inr other ↦ elim s [
          | inl (t, low) ↦ elim seat [
            | inl (zero_, high) ↦ ground arith
            | inr (one, low_, high) ↦ ground arith
          ]
          | inr (t, mid, top) ↦ elim seat [
            | inl (zero_, high) ↦ ground arith
            | inr (one, low_, high) ↦ ground arith
          ]
        ]
      ]

  first_of-IsFree :
      (start count team q : ℕ) (players : List YgoClient)
      → ((p : ℕ) → start ≤ p → p < start + count → IsSeat team0 team1 p team)
      → All (Seated team0 team1) players
      → first_of (get_difference (range start count) (positions_of_team team players)) ≡ some q
      → IsFree players (record { position = q; team = team })
  first_of-IsFree start count team q players in_team seated found =
      let ((low, high), unheld) =
        first_of-All _ _ q (kept-All _ _ _ (range-bounds start count)) found in
      let seat = in_team q low high in
      (seat, free-All players q team seat seated (not_held team q players (ground arith)))

  -- The place of a room whose players all sit on their team's seats is free.
  pub calculate_place-IsFree :
      (players : List YgoClient) (seat : Seat)
      → All (Seated team0 team1) players
      → calculate_place team0 team1 players none ≡ some seat
      → IsFree players seat
  calculate_place-IsFree players seat seated found =
      elim (seat_in-cases 0 (first 0 team0 0) (seat_in 1 (first team0 team1 1) none) seat found) [
        | inl (q, e, same) ↦ subst (IsFree players) same (
            first_of-IsFree 0 team0 0 q players (λ p low high. inl (refl, omega (arith, high)))
              seated e)
        | inr left ↦ elim (seat_in-cases 1 (first team0 team1 1) none seat left) [
          | inl (q, e, same) ↦ subst (IsFree players) same (
              first_of-IsFree team0 team1 1 q players (λ p low high. inr (refl, low, high)) seated
                e)
          | inr nothing ↦ absurd cc
        ]
      ]
    where
      first : ℕ → ℕ → ℕ → Option ℕ
      first start count team =
          first_of (get_difference (range start count) (positions_of_team team players))

abbrev pub the_seat : ℕ → ℕ → Seat
the_seat position team = record { position = position; team = team }
