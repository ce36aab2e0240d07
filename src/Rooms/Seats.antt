-- ===== src/Rooms/Seats.antt =====
-- shared/room/domain/YgoRoom.ts: the seats of the two teams, and which one a player is given.
use edopro_server_ts.Prelude.{
  ℕ, zero, suc, Option, none, some, not, List, [], ◌∷◌, ◌++◌, map, filter, find?, ltb, nat_eqb,
  if◌then◌else◌,
}
use edopro_server_ts.Prelude.Eq.{nat_eq, contains}
use edopro_server_ts.Rooms.Clients.{YgoClient}

-- shared/room/admission/domain/Seat.ts
pub record Seat : Type 0 where
  pub position : ℕ
  pub team : ℕ

-- `Array.from({ length }, (_, index) => start + index)`
abbrev pub range : ℕ → ℕ → List ℕ
range start zero = []
range start (suc count) = start ∷ range (suc start) count

abbrev pub t0_positions : ℕ → List ℕ
t0_positions team0 = range 0 team0

abbrev pub t1_positions : ℕ → ℕ → List ℕ
t1_positions team0 team1 = range team0 team1

abbrev pub get_difference : List ℕ → List ℕ → List ℕ
get_difference a b = filter (λ item. not (contains item b)) a

abbrev pub first_of : List ℕ → Option ℕ
first_of [] = none
first_of (position ∷ _) = some position

-- The scan from a start position, which no caller gives in a YGOPro room.
abbrev pub find_next_position : List ℕ → Option ℕ → Option ℕ
find_next_position positions none = first_of positions
find_next_position positions (some start) = elim (find? (ltb start) positions) [
  | some position ↦ some position
  | none ↦ first_of positions
]

abbrev pub positions_of_team : ℕ → List YgoClient → List ℕ
positions_of_team team players =
    map (λ (client : YgoClient). client.position)
      (filter (λ (client : YgoClient). nat_eqb client.team team) players)

abbrev pub seat_in : ℕ → Option ℕ → Option Seat → Option Seat
seat_in team none otherwise = otherwise
seat_in team (some position) otherwise = some (record { position = position; team = team })

abbrev pub calculate_place : ℕ → ℕ → List YgoClient → Option ℕ → Option Seat
calculate_place team0 team1 players start =
    seat_in 0
      (find_next_position (get_difference (t0_positions team0) (positions_of_team 0 players)) start)
      (seat_in 1
        (find_next_position
          (get_difference (t1_positions team0 team1) (positions_of_team 1 players)) start)
        none)

abbrev pub insert_sorted : ℕ → List ℕ → List ℕ
insert_sorted a [] = a ∷ []
insert_sorted a (b ∷ bs) = if ltb b a then b ∷ insert_sorted a bs else a ∷ b ∷ bs

-- `sort((a, b) => a - b)`
abbrev pub sorted : List ℕ → List ℕ
sorted [] = []
sorted (a ∷ as_) = insert_sorted a (sorted as_)

-- The team of a place: 0 when the tested position is one of team 0.
abbrev pub place_for : ℕ → ℕ → ℕ → Seat
place_for team0 position tested = record {
  position = position;
  team = if contains tested (t0_positions team0) then 0 else 1;
}

-- The place among those that are free: the first above the position, or else the first. The team of
-- the latter is that of `positions[0]`, the first position of the room.
abbrev pub pick_place : ℕ → List ℕ → List ℕ → List ℕ → Option Seat
pick_place team0 positions difference (next ∷ _) = some (place_for team0 next next)
pick_place team0 (first ∷ _) (free ∷ _) [] = some (place_for team0 free first)
pick_place team0 [] (free ∷ _) [] = some (record { position = free; team = 1 })
pick_place team0 positions [] [] = none

abbrev pub next_available_position : ℕ → ℕ → List YgoClient → ℕ → Option Seat
next_available_position team0 team1 players position =
    let positions = sorted (t1_positions team0 team1 ++ t0_positions team0) in
    let occupied = map (λ (client : YgoClient). client.position) players in
    let difference = get_difference positions occupied in
    pick_place team0 positions difference (filter (ltb position) difference)
