-- ===== src/Prelude/Counts/Agree.antt =====
-- What it says of two lists that the entries of their tallies agree.
use Prim.Native.Nat.{ℕ, suc, ◌+◌, ◌≤◌}
use mathlib.Core.Path.{◌≡◌, refl, ◌∙◌, sym, ap, subst}
use mathlib.Core.Logic.{◌↔◌, ◌⊎◌, inl, inr}
use mathlib.Core.Bool.{true}
use mathlib.Core.List.{List, [], ◌∷◌, Perm}
use mathlib.Core.Option.{none, some}
use native.Mathlib.Omega.{arith}
use edopro_server_ts.Prelude.Tests.{Bool-cases}
use edopro_server_ts.Prelude.Lists.{All, length}
use edopro_server_ts.Prelude.Eq.{Eq, ◌==◌, ==_iff, ==_refl}
use edopro_server_ts.Prelude.Dict.{get, insert, delete, get-insert, get-delete}
use edopro_server_ts.Prelude.Counts.{
  count, bump, tally, tally_onto, get-tally, all_agree, value_or_zero,
}
use edopro_server_ts.Prelude.Counts.Multiset.{perm_iff_counts, perm_of_le, length-perm}
use mathlib.Core.List.Perm

module _ {ℓ} {K : Type ℓ} ⦃e : Eq K⦄ where
  abbrev pub HasDistinctKeys : List (K × ℕ) → Type 0
  HasDistinctKeys [] = Unit
  HasDistinctKeys ((k, v) ∷ m) = (get k m ≡ none) × HasDistinctKeys m

  insert-HasDistinctKeys :
      (k : K) (v : ℕ) (m : List (K × ℕ)) → HasDistinctKeys m → HasDistinctKeys (insert k v m)
  unfolding insert get
  insert-HasDistinctKeys k v [] h = (refl, tt)
  insert-HasDistinctKeys k v ((j, w) ∷ m) (f, h) = elim (Bool-cases (j == k)) [
    | inl same ↦ rw same (f, h)
    | inr other ↦ rw other (
      get-insert k j v m ∙ ground (arith, f, other, ==_iff j k, ==_iff k j),
      insert-HasDistinctKeys k v m h,
    )
  ]

  tally_onto-HasDistinctKeys :
      (m : List (K × ℕ)) (ks : List K) → HasDistinctKeys m → HasDistinctKeys (tally_onto m ks)
  unfolding tally_onto bump
  tally_onto-HasDistinctKeys m [] h = h
  tally_onto-HasDistinctKeys m (k ∷ ks) h =
      tally_onto-HasDistinctKeys (bump k m) ks
        (insert-HasDistinctKeys k (value_or_zero (get k m) + 1) m h)

  pub tally-HasDistinctKeys : (ks : List K) → HasDistinctKeys (tally ks)
  unfolding tally
  tally-HasDistinctKeys ks = tally_onto-HasDistinctKeys [] ks tt

  -- Every entry that a lookup in the first map finds, a lookup in the second finds too.
  abbrev pub IsSubmap : List (K × ℕ) → List (K × ℕ) → Type ℓ
  IsSubmap left right = (k : K) (n : ℕ) → get k left ≡ some n → get k right ≡ some n

  pub all_agree-IsSubmap :
      (left right : List (K × ℕ)) → all_agree left right ≡ true → IsSubmap left right
  unfolding get
  all_agree-IsSubmap [] right h k n f = cc
  all_agree-IsSubmap ((j, v) ∷ left) right h k n f =
      ground (arith, ==_iff j k, h, f, all_agree-IsSubmap left right _ k n)

  IsSubmap-tail :
      (j : K) (v : ℕ) (left right : List (K × ℕ))
      → get j left ≡ none
      → IsSubmap ((j, v) ∷ left) right
      → IsSubmap left right
  unfolding get
  IsSubmap-tail j v left right f h k n g = ground (arith, f, g, h k n, ==_iff j k)

  pub IsSubmap-all_agree :
      (left right : List (K × ℕ))
      → HasDistinctKeys left
      → IsSubmap left right
      → all_agree left right ≡ true
  unfolding get
  IsSubmap-all_agree [] right d h = refl
  IsSubmap-all_agree ((j, v) ∷ left) right (f, d) h =
      let rest = IsSubmap-all_agree left right d (IsSubmap-tail j v left right f h) in
      ground (arith, h j v (ground (arith, ==_refl j)), rest)

  module _ {κ} (P : K × ℕ → Type κ) where
    entry_of_All : (m : List (K × ℕ)) → All P m → (k : K) (n : ℕ) → get k m ≡ some n → P (k, n)
    unfolding get
    entry_of_All [] h k n f = absurd (cc)
    entry_of_All ((j, v) ∷ m) (p, h) k n f = elim (Bool-cases (j == k)) [
      | inl same ↦
          let is_v : v ≡ n = ground (arith, f, same) in
          subst (λ i. P (i, n)) ((==_iff j k).0 same) (subst (λ i. P (j, i)) is_v p)
      | inr other ↦ entry_of_All m h k n (ground (arith, f, other))
    ]

    All-of_entries :
        (m : List (K × ℕ))
        → HasDistinctKeys m
        → ((k : K) (n : ℕ) → get k m ≡ some n → P (k, n))
        → All P m
    unfolding get
    All-of_entries [] d h = tt
    All-of_entries ((j, v) ∷ m) (f, d) h = (
      h j v (ground (arith, ==_refl j)),
      All-of_entries m d (λ k n g. h k n (ground (arith, f, g, ==_iff j k))),
    )

    -- A property of the entries of a map is one of what its lookups find.
    pub entries_iff :
        (m : List (K × ℕ))
        → HasDistinctKeys m
        → All P m ↔ ((k : K) (n : ℕ) → get k m ≡ some n → P (k, n))
    entries_iff m d = (entry_of_All m, All-of_entries m d)

  delete-HasDistinctKeys :
      (k : K) (m : List (K × ℕ)) → HasDistinctKeys m → HasDistinctKeys (delete k m)
  unfolding delete
  delete-HasDistinctKeys k [] h = tt
  delete-HasDistinctKeys k ((j, w) ∷ m) (f, h) = elim (Bool-cases (j == k)) [
    | inl same ↦ rw same (delete-HasDistinctKeys k m h)
    | inr other ↦ rw other (get-delete k j m ∙ ground (arith, f), delete-HasDistinctKeys k m h)
  ]

  delete_absent : (k : K) (m : List (K × ℕ)) → get k m ≡ none → delete k m ≡ m
  unfolding delete get
  delete_absent k [] h = refl
  delete_absent k ((j, w) ∷ m) h = ground (arith, h, delete_absent k m)

  length-delete :
      (k : K) (n : ℕ) (m : List (K × ℕ))
      → HasDistinctKeys m
      → get k m ≡ some n
      → length m ≡ suc (length (delete k m))
  unfolding delete get
  length-delete k n [] d h = cc
  length-delete k n ((j, w) ∷ m) (f, d) h = elim (Bool-cases (j == k)) [
    | inl same ↦ rw same (
        ap suc (
          ap length
            (sym (delete_absent k m (subst (λ i. get i m ≡ none) ((==_iff j k).0 same) f)))))
    | inr other ↦ rw other (ap suc (length-delete k n m d (ground (arith, h, other))))
  ]

  -- A map within a map of the same size is the whole of it.
  pub IsSubmap-symm :
      (left right : List (K × ℕ))
      → HasDistinctKeys left
      → HasDistinctKeys right
      → IsSubmap left right
      → (length left ≤ length right) × (length left ≡ length right → IsSubmap right left)
  unfolding get
  IsSubmap-symm [] [] d d' h = (omega arith, λ _ k n f. f)
  IsSubmap-symm [] (x ∷ right) d d' h = (omega arith, λ l. absurd (omega (arith, l)))
  IsSubmap-symm ((j, v) ∷ left) right (f, d) d' h =
      let found = h j v (ground (arith, ==_refl j)) in
      let (shorter, back) =
        IsSubmap-symm left (delete j right) d (delete-HasDistinctKeys j right d')
          (λ k n g. get-delete j k right ∙ ground (arith, g, f, ==_iff j k, h k n)) in
      let len = length-delete j v right d' found in
      (
        omega (arith, shorter, len),
        λ l k n g.
            ground
              (arith, g, found, ==_iff j k, get-delete j k right, back (omega (arith, l, len)) k n),
      )

  -- The values that occur in the first list occur as often in the second.
  tally-IsSubmap_iff :
      (xs ys : List K)
      → IsSubmap (tally xs) (tally ys) ↔ ((k : K) → (count k xs ≡ 0) ⊎ (count k xs ≡ count k ys))
  tally-IsSubmap_iff xs ys = (
    λ h k. ground (arith, get-tally k xs, get-tally k ys, h k (count k xs)),
    λ h k n f. ground (arith, h k, f, get-tally k xs, get-tally k ys),
  )

  -- Lists of the same length whose tallies agree are permutations of one another, and only those.
  pub tally-perm_iff :
      (xs ys : List K)
      → ((length xs ≡ length ys) × (all_agree (tally xs) (tally ys) ≡ true)) ↔ Perm xs ys
  tally-perm_iff xs ys = (there, back)
    where
      there : (length xs ≡ length ys) × (all_agree (tally xs) (tally ys) ≡ true) → Perm xs ys
      there (l, h) =
          perm_of_le xs ys
            (λ k.
              ground (
                arith,
                (tally-IsSubmap_iff xs ys).0 (all_agree-IsSubmap (tally xs) (tally ys) h) k,
              ))
            l

      back : Perm xs ys → (length xs ≡ length ys) × (all_agree (tally xs) (tally ys) ≡ true)
      back p = (
        length-perm p,
        IsSubmap-all_agree (tally xs) (tally ys) (tally-HasDistinctKeys xs)
            ((tally-IsSubmap_iff xs ys).1 (λ k. inr ((perm_iff_counts xs ys).0 p k))),
      )

  -- So are lists whose tallies have the same size and agree.
  pub tally_size-perm_iff :
      (xs ys : List K)
      → ((length (tally xs) ≡ length (tally ys)) × (all_agree (tally xs) (tally ys) ≡ true))
        ↔ Perm xs ys
  tally_size-perm_iff xs ys = (there, back)
    where
      there :
          (length (tally xs) ≡ length (tally ys)) × (all_agree (tally xs) (tally ys) ≡ true)
          → Perm xs ys
      there (l, h) =
          let sub = all_agree-IsSubmap (tally xs) (tally ys) h in
          let dxs = tally-HasDistinctKeys xs in
          let dys = tally-HasDistinctKeys ys in
          let sup = (IsSubmap-symm (tally xs) (tally ys) dxs dys sub).1 l in
          (perm_iff_counts xs ys).1 λ k.
            ground (arith, (tally-IsSubmap_iff xs ys).0 sub k, (tally-IsSubmap_iff ys xs).0 sup k)

      back :
          Perm xs ys
          → (length (tally xs) ≡ length (tally ys)) × (all_agree (tally xs) (tally ys) ≡ true)
      back p =
          let agrees = ((tally-perm_iff xs ys).1 p).1 in
          let agrees' = ((tally-perm_iff ys xs).1 (Perm.symm p)).1 in
          let dxs = tally-HasDistinctKeys xs in
          let dys = tally-HasDistinctKeys ys in
          let le =
            (IsSubmap-symm (tally xs) (tally ys) dxs dys
              (all_agree-IsSubmap (tally xs) (tally ys) agrees)).0 in
          let ge =
            (IsSubmap-symm (tally ys) (tally xs) dys dxs
              (all_agree-IsSubmap (tally ys) (tally xs) agrees')).0 in
          (omega (arith, le, ge), agrees)
