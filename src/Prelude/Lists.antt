-- ===== src/Prelude/Lists.antt =====
-- Lists measured by native numbers and searched by Boolean tests, under the library's names.
use Prim.Native.Nat.{ℕ, suc, ◌+◌, ◌≤◌}
use mathlib.Core.Path.{◌≡◌, refl, ap}
use mathlib.Core.Logic.{◌↔◌, ◌⊎◌, inl, inr}
use mathlib.Core.Bool.{Bool, true, false, ◌&&◌, ◌||◌}
use mathlib.Core.List.{List, [], ◌∷◌, ◌++◌, map}
use mathlib.Core.Option.{Option, none, some}
use native.Mathlib.Omega.{arith}
use edopro_server_ts.Prelude.Tests.{if◌then◌else◌, Bool-cases}

module _ {ℓ} {A : Type ℓ} where
  abbrev pub length : List A → ℕ
  length [] = 0
  length (x ∷ xs) = suc (length xs)

  pub length-append : (xs ys : List A) → length (xs ++ ys) ≡ length xs + length ys
  length-append [] ys = omega arith
  length-append (x ∷ xs) ys = omega (arith, length-append xs ys)

  -- `Array.prototype.filter`, `every`, `some` and `find`.
  abbrev pub filter : (A → Bool) → List A → List A
  filter p [] = []
  filter p (x ∷ xs) = if p x then x ∷ filter p xs else filter p xs

  abbrev pub all : (A → Bool) → List A → Bool
  all p [] = true
  all p (x ∷ xs) = p x && all p xs

  abbrev pub any : (A → Bool) → List A → Bool
  any p [] = false
  any p (x ∷ xs) = p x || any p xs

  abbrev pub find? : (A → Bool) → List A → Option A
  find? p [] = none
  find? p (x ∷ xs) = if p x then some x else find? p xs

  -- How many elements pass the test.
  abbrev pub count_if : (A → Bool) → List A → ℕ
  count_if p [] = 0
  count_if p (x ∷ xs) = (if p x then 1 else 0) + count_if p xs

  pub count_if-append :
      (p : A → Bool) (xs ys : List A) → count_if p (xs ++ ys) ≡ count_if p xs + count_if p ys
  count_if-append p [] ys = omega arith
  count_if-append p (x ∷ xs) ys = omega (arith, count_if-append p xs ys)

  pub count_if-le-length : (p : A → Bool) (xs : List A) → count_if p xs ≤ length xs
  count_if-le-length p [] = omega arith
  count_if-le-length p (x ∷ xs) = ground (arith, count_if-le-length p xs)

pub length-map {ℓ κ} :
    {A : Type ℓ} {B : Type κ} (f : A → B) (xs : List A) → length (map f xs) ≡ length xs
length-map f [] = refl
length-map f (x ∷ xs) = ap suc (length-map f xs)

module _ {ℓ κ} {A : Type ℓ} where
  -- Every element satisfies `P`.
  abbrev pub All : (A → Type κ) → List A → Type κ
  All P [] = Unit
  All P (x ∷ xs) = P x × All P xs

  pub All-append : (P : A → Type κ) (xs ys : List A) → All P xs → All P ys → All P (xs ++ ys)
  All-append P [] ys hx hy = hy
  All-append P (x ∷ xs) ys (p, h) hy = (p, All-append P xs ys h hy)

  pub All-map : (P Q : A → Type κ) → ((x : A) → P x → Q x) → (xs : List A) → All P xs → All Q xs
  All-map P Q f [] h = tt
  All-map P Q f (x ∷ xs) (p, h) = (f x p, All-map P Q f xs h)

pub All-product_iff {ℓ κ μ} :
    {A : Type ℓ} (P : A → Type κ) (Q : A → Type μ) (xs : List A)
    → (All P xs × All Q xs) ↔ All (λ x. P x × Q x) xs
All-product_iff P Q [] = (λ _. tt, λ _. (tt, tt))
All-product_iff P Q (x ∷ xs) =
    let (there, back) = All-product_iff P Q xs in
    (
      λ ((p, ps), (q, qs)). ((p, q), there (ps, qs)),
      λ ((p, q), h). ((p, (back h).0), (q, (back h).1)),
    )

pub All-iff {ℓ κ μ} :
    {A : Type ℓ} (P : A → Type κ) (Q : A → Type μ)
    → ((x : A) → P x ↔ Q x)
    → (xs : List A) → All P xs ↔ All Q xs
All-iff P Q h [] = (λ _. tt, λ _. tt)
All-iff P Q h (x ∷ xs) =
    let (there, back) = All-iff P Q h xs in
    (λ (p, ps). ((h x).0 p, there ps), λ (q, qs). ((h x).1 q, back qs))

-- Either no element passes the test, or the first that does stands after some that do not.
pub first_match {ℓ} :
    {A : Type ℓ} (p : A → Bool) (xs : List A)
    → ((find? p xs ≡ none) × All (λ x. p x ≡ false) xs)
      ⊎ ((before : List A) × (x : A) × (after : List A) × (find? p xs ≡ some x)
          × (xs ≡ before ++ x ∷ after)
          × All (λ y. p y ≡ false) before
          × (p x ≡ true))
first_match p [] = inl (refl, tt)
first_match p (x ∷ xs) = elim (Bool-cases (p x)) [
  | inl passes ↦ rw passes (inr ([], x, xs, refl, refl, tt, passes))
  | inr fails ↦ elim (first_match p xs) [
    | inl (f, none_pass) ↦ rw fails (inl (f, (refl, none_pass)))
    | inr (before, y, after, f, split, skipped, passes) ↦
        rw fails (inr (x ∷ before, y, after, f, ap (λ ys. x ∷ ys) split, (fails, skipped), passes))
  ]
]
