-- ===== src/Rooms/TeamPlayers.antt =====
-- The players of a team in the order of their positions: `getTeamPlayers` of
-- ygopro/room/domain/YGOProRoom.ts.
use edopro_server_ts.Prelude.{
  ℕ, ◌≤◌, ◌≡◌, refl, sym, subst, ap, ◌⊎◌, inl, inr, Option, none, some, Bool, true, false, List, [],
  ◌∷◌, filter, count_if, ltb, arith, if◌then◌else◌,
}
use mathlib.Core.List.{Memᴰ}
use edopro_server_ts.Prelude.Marks.{Mem-filter, count_if-filtered_out}
use edopro_server_ts.Rooms.{Room, first_of_team, by_position, insert_by_position}
use edopro_server_ts.Rooms.Clients.{YgoClient}
use edopro_server_ts.Rooms.InOrder.{is_of_team}

-- The clients in the order of their positions are the same clients.
insert-Mem :
    (c x : YgoClient) (xs : List YgoClient) → Memᴰ c (insert_by_position x xs) → Memᴰ c (x ∷ xs)
insert-Mem c x [] m = m
insert-Mem c x (y ∷ ys) m = placed (ltb y.position x.position) (insert-Mem c x ys) m
  where
    again : Memᴰ c (x ∷ ys) → Memᴰ c (x ∷ y ∷ ys)
    again (Memᴰ.head e) = Memᴰ.head e
    again (Memᴰ.tail n) = Memᴰ.tail (Memᴰ.tail n)

    placed :
        (after : Bool)
        → (Memᴰ c (insert_by_position x ys) → Memᴰ c (x ∷ ys))
        → Memᴰ c (if after then y ∷ insert_by_position x ys else x ∷ y ∷ ys)
        → Memᴰ c (x ∷ y ∷ ys)
    placed true deeper (Memᴰ.head e) = Memᴰ.tail (Memᴰ.head e)
    placed true deeper (Memᴰ.tail n) = again (deeper n)
    placed false deeper n = n

by_position-Mem : (c : YgoClient) (xs : List YgoClient) → Memᴰ c (by_position xs) → Memᴰ c xs
by_position-Mem c [] m = m
by_position-Mem c (x ∷ xs) m = elim (insert-Mem c x (by_position xs) m) [
  | Memᴰ.head e ↦ Memᴰ.head e
  | Memᴰ.tail n ↦ Memᴰ.tail (by_position-Mem c xs n)
]

starts_with :
    (xs : List YgoClient)
    → ((xs ≡ []) ⊎ ((c : YgoClient) × (rest : List YgoClient) × (xs ≡ c ∷ rest)))
starts_with [] = inl refl
starts_with (c ∷ rest) = inr (c, rest, refl)

insert-not-empty : (x : YgoClient) (xs : List YgoClient) → insert_by_position x xs ≡ [] → ⊥
insert-not-empty x [] e = cc
insert-not-empty x (y ∷ ys) e = placed (ltb y.position x.position) e
  where
    placed : (after : Bool) → (if after then y ∷ insert_by_position x ys else x ∷ y ∷ ys) ≡ [] → ⊥
    placed true e = cc
    placed false e = cc

by_position-empty : (xs : List YgoClient) → by_position xs ≡ [] → xs ≡ []
by_position-empty [] e = refl
by_position-empty (x ∷ xs) e = absurd (insert-not-empty x (by_position xs) e)

-- A team with a player has a first one.
pub first_of_team-found :
    (team : ℕ) (room : Room)
    → 1 ≤ count_if (is_of_team team) room.players
    → (c : YgoClient) × (first_of_team team room ≡ some c) × Memᴰ c room.players × (c.team ≡ team)
first_of_team-found team room some_ = elim (starts_with sorted_team) [
  | inl empty ↦ absurd (
      ground (
        arith,
        some_,
        count_if-filtered_out (is_of_team team) room.players (by_position-empty _ empty),
      ))
  | inr (c, rest, e) ↦
      let (there, passes) =
        Mem-filter (is_of_team team) c room.players
          (by_position-Mem c _ (subst (λ xs. Memᴰ c xs) (sym e) (Memᴰ.head refl))) in
      (c, ap first e, there, ground arith)
]
  where
    sorted_team : List YgoClient
    sorted_team = by_position (filter (is_of_team team) room.players)

    first : List YgoClient → Option YgoClient
    first xs = elim xs [ [] ↦ none | player ∷ _ ↦ some player ]
