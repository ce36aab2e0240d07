-- ===== src/Prelude/Counts.antt =====
-- How often a value stands in a list: the count itself, and the `Map` that a loop fills with
-- `m.set(k, (m.get(k) ?? 0) + 1)`.
pub mod Multiset
pub mod Agree
use Prim.Native.Nat.{ℕ, ◌+◌, ◌≤◌}
use mathlib.Core.Path.{◌≡◌, refl, ◌∙◌, sym}
use mathlib.Core.Bool.{Bool, true, false, ◌&&◌}
use mathlib.Core.List.{List, [], ◌∷◌}
use mathlib.Core.Option.{Option, none, some}
use native.Mathlib.Omega.{arith}
use edopro_server_ts.Prelude.Tests.{if◌then◌else◌, nat_eqb}
use edopro_server_ts.Prelude.Lists.{count_if, all}
use edopro_server_ts.Prelude.Eq.{Eq, ◌==◌, ==_iff}
use edopro_server_ts.Prelude.Dict.{get, insert, get-insert}

abbrev pub value_or_zero : Option ℕ → ℕ
value_or_zero none = 0
value_or_zero (some n) = n

-- `get(k) === n`, false for an absent key.
abbrev pub equals : Option ℕ → ℕ → Bool
equals none n = false
equals (some m) n = nat_eqb m n

-- What a tally holds for a key that was counted n times.
abbrev pub entry_of : ℕ → Option ℕ
entry_of n = if nat_eqb n 0 then none else some n

module _ {ℓ} {K : Type ℓ} ⦃e : Eq K⦄ where
  abbrev pub count : K → List K → ℕ
  count k xs = count_if (λ x. x == k) xs

  unfoldable pub bump : K → List (K × ℕ) → List (K × ℕ)
  unfolding get insert
  bump k m = insert k (value_or_zero (get k m) + 1) m

  unfoldable pub tally_onto : List (K × ℕ) → List K → List (K × ℕ)
  unfolding bump
  tally_onto m [] = m
  tally_onto m (k ∷ ks) = tally_onto (bump k m) ks

  unfoldable pub tally : List K → List (K × ℕ)
  unfolding tally_onto
  tally ks = tally_onto [] ks

  pub get-bump :
      (k j : K) (m : List (K × ℕ))
      → get j (bump k m) ≡ (if k == j then some (value_or_zero (get k m) + 1) else get j m)
  unfolding bump
  get-bump k j m = get-insert k j (value_or_zero (get k m) + 1) m

  get-tally_onto :
      (j : K) (m : List (K × ℕ)) (ks : List K) (n : ℕ)
      → get j m ≡ entry_of n
      → get j (tally_onto m ks) ≡ entry_of (n + count j ks)
  unfolding tally_onto
  get-tally_onto j m [] n h = ground (arith, h)
  get-tally_onto j m (k ∷ ks) n h =
      let c = if k == j then 1 else 0 in
      get-tally_onto j (bump k m) ks (n + c) (ground (arith, h, get-bump k j m, ==_iff k j))
      ∙ ground arith

  pub get-tally : (j : K) (ks : List K) → get j (tally ks) ≡ entry_of (count j ks)
  unfolding tally get
  get-tally j ks = get-tally_onto j [] ks 0 refl ∙ ground arith

  -- Every entry of the first map is an entry of the second.
  abbrev pub all_agree : List (K × ℕ) → List (K × ℕ) → Bool
  all_agree left right = all (λ (entry : K × ℕ). equals (get entry.0 right) entry.1) left
