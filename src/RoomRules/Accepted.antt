-- ===== src/RoomRules/Accepted.antt =====
-- The mappings of a tier that accept an option: none, or one alone.
use edopro_server_ts.Prelude.{
  ◌≤◌, ◌≡◌, ◌⊎◌, inl, inr, refl, true, List, [], ◌∷◌, ◌++◌, arith, length, filter, All, Bool-cases,
}
use edopro_server_ts.RoomRules.{Text, RuleMapping, validate}

length-zero : (ms : List RuleMapping) → length ms ≤ 0 → ms ≡ []
length-zero [] e = refl
length-zero (n ∷ ms) e = absurd (omega (arith, e))

-- The option is accepted by no mapping of the tier, or by one alone.
pub pick :
    (o : Text) (tier : List RuleMapping)
    → length (filter (validate o) tier) ≤ 1
    → (filter (validate o) tier ≡ [])
      ⊎ ((m : RuleMapping) × (filter (validate o) tier ≡ m ∷ [])
          × (validate o m ≡ true)
          × ((P : RuleMapping → Type 0) → All P tier → P m))
pick o [] h = inl refl
pick o (m ∷ tier) h = elim (Bool-cases (validate o m)) [
  | inr refuses ↦
      let h' : length (filter (validate o) tier) ≤ 1 = ground (arith, h, refuses) in
      elim (pick o tier h') [
        | inl nothing ↦ inl (rw refuses nothing)
        | inr (n, one, accepts, of_all) ↦ inr (n, rw refuses one, accepts, λ P (_, ps). of_all P ps)
      ]
  | inl accepts ↦
      let empty : filter (validate o) tier ≡ [] =
        length-zero (filter (validate o) tier) (ground (arith, h, accepts)) in
      inr (m, rw (accepts, empty) refl, accepts, λ P (p, _). p)
]

-- A mapping in the midst of the tier that accepts the option counts.
counts :
    (o : Text) (before after : List RuleMapping) (m : RuleMapping)
    → validate o m ≡ true
    → 1 ≤ length (filter (validate o) (before ++ m ∷ after))
counts o [] after m accepts = rw accepts (omega arith)
counts o (n ∷ before) after m accepts = elim (Bool-cases (validate o n)) [
  | inl also ↦ rw also (omega arith)
  | inr refuses ↦ rw refuses (counts o before after m accepts)
]

pub alone :
    (o : Text) (before after : List RuleMapping) (m : RuleMapping)
    → validate o m ≡ true
    → length (filter (validate o) (before ++ m ∷ after)) ≤ 1
    → filter (validate o) (before ++ m ∷ after) ≡ m ∷ []
alone o [] after m accepts one =
    let empty = length-zero (filter (validate o) after) (ground (arith, one, accepts)) in
    rw (accepts, empty) refl
alone o (n ∷ before) after m accepts one = elim (Bool-cases (validate o n)) [
  | inl also ↦ absurd (ground (arith, one, also, counts o before after m accepts))
  | inr refuses ↦ rw refuses (alone o before after m accepts (ground (arith, one, refuses)))
]
