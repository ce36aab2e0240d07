-- ===== src/Rooms/FreeSeats/Next.antt =====
-- The next free seat of a player: `nextAvailablePosition` of shared/room/domain/YgoRoom.ts.
use edopro_server_ts.Prelude.{
  ℕ, suc, ◌≡◌, refl, sym, subst, ap, ◌∙◌, ◌⊎◌, inl, inr, Option, some, Bool, true, false, not, List,
  [], ◌∷◌, ◌++◌, map, filter, All, ltb, arith, if◌then◌else◌, Bool-cases,
}
use mathlib.Core.List.{Memᴰ}
use edopro_server_ts.Prelude.Marks.{All-Mem}
use edopro_server_ts.Prelude.Eq.{nat_eq, contains}
use edopro_server_ts.Rooms.Clients.{YgoClient}
use edopro_server_ts.Rooms.Seats.{
  Seat, range, t0_positions, t1_positions, get_difference, first_of, next_available_position,
  pick_place, place_for, sorted, insert_sorted,
}
use edopro_server_ts.Rooms.FreeSeats.{Seated, IsFree, the_seat, position_of, not_occupied}

-- With one seat a team: what the tests of the two positions make of them.
abbrev two_of : Bool → Bool → List ℕ
two_of keeps0 keeps1 =
    if keeps0 then 0 ∷ (if keeps1 then 1 ∷ [] else []) else (if keeps1 then 1 ∷ [] else [])

abbrev pick_of_two : Bool → Bool → List ℕ → Option Seat
pick_of_two held0 held1 higher = pick_place 1 (0 ∷ 1 ∷ []) (two_of (not held0) (not held1)) higher

abbrev OneOfTwo : Bool → Bool → Seat → Type 0
OneOfTwo held0 held1 seat =
    ((seat ≡ the_seat 0 0) × (held0 ≡ false)) ⊎ ((seat ≡ the_seat 1 1) × (held1 ≡ false))

only_second :
    (above1 : Bool) (seat : Seat)
    → above1 ≡ true
    → pick_of_two true false (if above1 then 1 ∷ [] else []) ≡ some seat
    → OneOfTwo true false seat
only_second true seat h e = inr (cc, refl)
only_second false seat h e = absurd cc

only_first :
    (above0 : Bool) (seat : Seat)
    → pick_of_two false true (if above0 then 0 ∷ [] else []) ≡ some seat
    → OneOfTwo false true seat
only_first true seat e = inl (cc, refl)
only_first false seat e = inl (cc, refl)

either_of_two :
    (above0 above1 : Bool) (seat : Seat)
    → pick_of_two false false
        (if above0 then 0 ∷ (if above1 then 1 ∷ [] else []) else (if above1 then 1 ∷ [] else []))
      ≡ some seat
    → OneOfTwo false false seat
either_of_two true above1 seat e = inl (cc, refl)
either_of_two false true seat e = inr (cc, refl)
either_of_two false false seat e = inl (cc, refl)

one_of_two :
    (held0 held1 : Bool) (above : ℕ → Bool) (seat : Seat)
    → (held1 ≡ false → above 1 ≡ true)
    → pick_of_two held0 held1 (filter above (two_of (not held0) (not held1))) ≡ some seat
    → OneOfTwo held0 held1 seat
one_of_two true true above seat h e = absurd cc
one_of_two true false above seat h e = only_second (above 1) seat (h refl) e
one_of_two false true above seat h e = only_first (above 0) seat e
one_of_two false false above seat h e = either_of_two (above 0) (above 1) seat e

-- In a room with one seat a team, a player's next place is free, and it is the other team's.
pub next_available_position-IsFree :
    (players : List YgoClient) (player : YgoClient) (seat : Seat)
    → All (Seated 1 1) players
    → Memᴰ player players
    → next_available_position 1 1 players player.position ≡ some seat
    → IsFree 1 1 players seat
next_available_position-IsFree players player seat seated m found =
    elim (one_of_two (contains 0 occupied) (contains 1 occupied) (ltb player.position) seat
      holds_own found) [
        | inl (e, free) ↦
            subst (IsFree 1 1 players) (sym e)
              (inl (refl, omega arith), not_occupied 0 players free)
        | inr (e, free) ↦
            subst (IsFree 1 1 players) (sym e)
              (inr (refl, omega arith, omega arith), not_occupied 1 players free)
      ]
  where
    occupied : List ℕ
    occupied = map position_of players

    holds_own : contains 1 occupied ≡ false → ltb player.position 1 ≡ true
    holds_own free =
        let elsewhere = All-Mem _ player players (not_occupied 1 players free) m in
        elim (All-Mem (Seated 1 1) player players seated m) [
          | inl (_, low) ↦ ground arith
          | inr (_, mid, top) ↦ absurd (ground arith)
        ]

abbrev StartsAtZero : List ℕ → Type 0
StartsAtZero xs = (rest : List ℕ) × (xs ≡ 0 ∷ rest)

insert_zero : (xs : List ℕ) → StartsAtZero (insert_sorted 0 xs)
insert_zero [] = ([], refl)
insert_zero (x ∷ xs) = (x ∷ xs, ground arith)

sorted-StartsAtZero : (xs ys : List ℕ) → StartsAtZero (sorted (xs ++ 0 ∷ ys))
sorted-StartsAtZero [] ys = insert_zero (sorted ys)
sorted-StartsAtZero (x ∷ xs) ys =
    let (rest, e) = sorted-StartsAtZero xs ys in
    elim (Bool-cases (ltb 0 x)) [
      | inl above ↦ (insert_sorted x rest, rw e (rw above refl))
      | inr at_zero ↦ (0 ∷ rest, rw e (rw at_zero (ground arith)))
    ]

abbrev pub free_positions : ℕ → ℕ → List YgoClient → List ℕ
free_positions team0 team1 players =
    get_difference (sorted (t1_positions team0 team1 ++ t0_positions team0))
      (map position_of players)

-- When no seat above the position is free, the first free one counts as team 0's, be it or not.
pub next_available_position-wraps :
    (team0 team1 position q : ℕ) (players : List YgoClient)
    → first_of (free_positions (suc team0) team1 players) ≡ some q
    → filter (ltb position) (free_positions (suc team0) team1 players) ≡ []
    → next_available_position (suc team0) team1 players position ≡ some (the_seat q 0)
next_available_position-wraps team0 team1 position q players first no_higher =
    let (rest, e) = sorted-StartsAtZero (t1_positions (suc team0) team1) (range 1 team0) in
    wraps _ rest _ _ e first no_higher
  where
    wraps :
        (positions rest difference higher : List ℕ)
        → positions ≡ 0 ∷ rest
        → first_of difference ≡ some q
        → higher ≡ []
        → pick_place (suc team0) positions difference higher ≡ some (the_seat q 0)
    wraps [] rest difference higher e f g = absurd cc
    wraps (p ∷ positions) rest [] higher e f g = absurd cc
    wraps (p ∷ positions) rest (d ∷ difference) (a ∷ higher) e f g = absurd cc
    wraps (p ∷ positions) rest (d ∷ difference) [] e f g =
        let zero_ : p ≡ 0 = cc in
        let here : d ≡ q = cc in
        ap (λ r. some (place_for (suc team0) r p)) here
        ∙ ap (λ r. some (place_for (suc team0) q r)) zero_
