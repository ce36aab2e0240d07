-- ===== src/Prelude/Counts/Multiset.antt =====
-- Lists with the same counts are permutations of one another, and what agreement of two tallies
-- says of the lists behind them.
use Prim.Native.Nat.{suc, ◌+◌, ◌≤◌, ◌<◌}
use mathlib.Core.Path.{◌≡◌, refl, ◌∙◌, ap}
use mathlib.Core.Logic.{◌↔◌, inl, inr, ∥∥₁_elim}
use mathlib.Core.List.{List, [], ◌∷◌, ◌++◌, Perm, Permᴰ, append-nil}
use mathlib.Core.List.Perm
use native.Mathlib.Omega.{arith}
use native.Mathlib.Nat.{ℕ_set}
use edopro_server_ts.Prelude.Tests.{if◌then◌else◌, Bool-cases}
use edopro_server_ts.Prelude.Lists.{count_if-append, length, length-append}
use edopro_server_ts.Prelude.Eq.{Eq, ◌==◌, ==_iff, ==_refl}
use edopro_server_ts.Prelude.Counts.{count}

module _ {ℓ} {K : Type ℓ} ⦃e : Eq K⦄ where
  remove_first : K → List K → List K
  remove_first k [] = []
  remove_first k (x ∷ xs) = if x == k then xs else x ∷ remove_first k xs

  remove_first-perm : (k : K) (xs : List K) → 0 < count k xs → Perm xs (k ∷ remove_first k xs)
  unfolding remove_first
  remove_first-perm k [] h = absurd (omega arith)
  remove_first-perm k (x ∷ xs) h = elim (Bool-cases (x == k)) [
    | inl same ↦ rw same (Perm.cons' ((==_iff x k).0 same) Perm.rfl)
    | inr other ↦ rw other (
        Perm.trans (Perm.cons x (remove_first-perm k xs (ground (arith, h, other))))
          (Perm.swap k x _))
  ]

  count-permᴰ : (k : K) {xs ys : List K} → Permᴰ xs ys → count k xs ≡ count k ys
  count-permᴰ k Permᴰ.nil = refl
  count-permᴰ k (Permᴰ.cons {a} {b} {l₁ = xs} {l₂ = ys} p d) = ground (arith, count-permᴰ k d, p)
  count-permᴰ k (Permᴰ.swap {a} {b} {a'} {b'} {l} p q) = ground (arith, p, q)
  count-permᴰ k (Permᴰ.trans d d') = count-permᴰ k d ∙ count-permᴰ k d'

  pub count-perm : (k : K) {xs ys : List K} → Perm xs ys → count k xs ≡ count k ys
  count-perm k {xs} {ys} p = ∥∥₁_elim p (ℕ_set (count k xs) (count k ys)) (count-permᴰ k)

  length-permᴰ : {xs ys : List K} → Permᴰ xs ys → length xs ≡ length ys
  length-permᴰ Permᴰ.nil = refl
  length-permᴰ (Permᴰ.cons p d) = ap suc (length-permᴰ d)
  length-permᴰ (Permᴰ.swap p q) = refl
  length-permᴰ (Permᴰ.trans d d') = length-permᴰ d ∙ length-permᴰ d'

  pub length-perm : {xs ys : List K} → Perm xs ys → length xs ≡ length ys
  length-perm {xs} {ys} p = ∥∥₁_elim p (ℕ_set (length xs) (length ys)) length-permᴰ

  -- A list counted within another one is a part of it.
  sub-perm :
      (xs ys : List K)
      → ((k : K) → count k xs ≤ count k ys)
      → (rest : List K) × Perm ys (xs ++ rest)
  sub-perm [] ys h = (ys, Perm.rfl)
  sub-perm (x ∷ xs) ys h =
      let taken = remove_first-perm x ys (ground (arith, h x, ==_refl x)) in
      let (rest, p) =
        sub-perm xs (remove_first x ys) (λ k. omega (arith, h k, count-perm k taken)) in
      (rest, Perm.trans taken (Perm.cons x p))

  eq-nil_of_counts : (xs : List K) → ((k : K) → count k xs ≡ 0) → xs ≡ []
  eq-nil_of_counts [] h = refl
  eq-nil_of_counts (x ∷ xs) h = absurd (ground (arith, h x, ==_refl x))

  count-append : (k : K) (xs ys : List K) → count k (xs ++ ys) ≡ count k xs + count k ys
  count-append k xs ys = count_if-append (λ x. x == k) xs ys

  pub perm_iff_counts : (xs ys : List K) → Perm xs ys ↔ ((k : K) → count k xs ≡ count k ys)
  perm_iff_counts xs ys = (λ p k. count-perm k p, back)
    where
      back : ((k : K) → count k xs ≡ count k ys) → Perm xs ys
      back h =
          let (rest, p) = sub-perm xs ys (λ k. omega (arith, h k)) in
          let e =
            eq-nil_of_counts rest
              (λ k. omega (arith, h k, count-perm k p, count-append k xs rest)) in
          Perm.symm (rw (e, append-nil xs) at p)

  pub perm_of_le :
      (xs ys : List K) → ((k : K) → count k xs ≤ count k ys) → length xs ≡ length ys → Perm xs ys
  perm_of_le xs ys h l =
      let (rest, p) = sub-perm xs ys h in
      let e = eq-nil_of_length rest (omega (arith, l, length-perm p, length-append {ℓ} xs rest)) in
      Perm.symm (rw (e, append-nil xs) at p)
    where
      eq-nil_of_length : (zs : List K) → length zs ≡ 0 → zs ≡ []
      eq-nil_of_length [] z = refl
      eq-nil_of_length (w ∷ zs) z = absurd (omega (arith, z))
