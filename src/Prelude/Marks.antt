-- ===== src/Prelude/Marks.antt =====
-- How filters, maps and appended elements change what a list counts and what all of it satisfies.
use edopro_server_ts.Prelude.{
  ◌+◌, ◌≤◌, ◌≡◌, refl, sym, ap, ◌∙◌, ◌↔◌, ◌⊎◌, inl, inr, Bool, true, false, List, [], ◌∷◌, ◌++◌,
  map, All, any, filter, count_if, if◌then◌else◌, arith, Bool-cases,
}
use mathlib.Core.List.{Memᴰ}

module _ {ℓ} {A : Type ℓ} where
  pub count_if-filter : (p q : A → Bool) (xs : List A) → count_if p (filter q xs) ≤ count_if p xs
  count_if-filter p q [] = omega arith
  count_if-filter p q (x ∷ xs) = elim (Bool-cases (q x)) [
    | inl kept ↦ rw kept (omega (arith, count_if-filter p q xs))
    | inr dropped ↦ rw dropped (ground (arith, count_if-filter p q xs))
  ]

  pub count_if-dropped :
      (p q : A → Bool) (x : A) (xs : List A)
      → Memᴰ x xs
      → p x ≡ true
      → q x ≡ false
      → count_if p (filter q xs) + 1 ≤ count_if p xs
  count_if-dropped p q x [] m marked dropped = elim m [ ]
  count_if-dropped p q x (y ∷ ys) (Memᴰ.head e) marked dropped =
      ground (arith, sym e, marked, dropped, count_if-filter p q ys)
  count_if-dropped p q x (y ∷ ys) (Memᴰ.tail m) marked dropped =
      ground (arith, count_if-dropped p q x ys m marked dropped)

  -- What r marks is marked by p or by q.
  pub count_if-le-sum :
      (p q r : A → Bool)
      → ((x : A) → r x ≡ true → (p x ≡ true) ⊎ (q x ≡ true))
      → (xs : List A) → count_if r xs ≤ count_if p xs + count_if q xs
  count_if-le-sum p q r h [] = omega arith
  count_if-le-sum p q r h (x ∷ xs) = elim (Bool-cases (r x)) [
    | inl marked ↦ ground (arith, marked, h x marked, count_if-le-sum p q r h xs)
    | inr unmarked ↦ ground (arith, unmarked, count_if-le-sum p q r h xs)
  ]

  pub count_if-le :
      (p r : A → Bool)
      → ((x : A) → r x ≡ true → p x ≡ true)
      → (xs : List A) → count_if r xs ≤ count_if p xs
  count_if-le p r h [] = omega arith
  count_if-le p r h (x ∷ xs) = elim (Bool-cases (r x)) [
    | inl marked ↦ ground (arith, marked, h x marked, count_if-le p r h xs)
    | inr unmarked ↦ ground (arith, unmarked, count_if-le p r h xs)
  ]

  pub count_if-Mem :
      (p : A → Bool) (x : A) (xs : List A) → Memᴰ x xs → p x ≡ true → 1 ≤ count_if p xs
  count_if-Mem p x [] m marked = elim m [ ]
  count_if-Mem p x (y ∷ ys) (Memᴰ.head e) marked = ground (arith, e, marked)
  count_if-Mem p x (y ∷ ys) (Memᴰ.tail m) marked = ground (arith, count_if-Mem p x ys m marked)

  pub count_if-none_iff :
      (p : A → Bool) (xs : List A) → (count_if p xs ≡ 0) ↔ All (λ x. p x ≡ false) xs
  count_if-none_iff p [] = (λ _. tt, λ _. refl)
  count_if-none_iff p (x ∷ xs) =
      let (there, back) = count_if-none_iff p xs in
      (λ h. (ground arith, there (ground arith)), λ (unmarked, h). ground (arith, unmarked, back h))

  pub count_if-any : (p : A → Bool) (xs : List A) → any p xs ≡ false → count_if p xs ≡ 0
  count_if-any p [] h = refl
  count_if-any p (x ∷ xs) h = ground (arith, count_if-any p xs)

pub count_if-map {ℓ κ} :
    {A : Type ℓ} {B : Type κ} (p : B → Bool) (q : A → Bool) (f : A → B)
    → ((x : A) → p (f x) ≡ q x)
    → (xs : List A) → count_if p (map f xs) ≡ count_if q xs
count_if-map p q f h [] = refl
count_if-map p q f h (x ∷ xs) = rw (h x) (omega (arith, count_if-map p q f h xs))

module _ {ℓ κ} {A : Type ℓ} (P : A → Type κ) where
  pub All-filter : (q : A → Bool) (xs : List A) → All P xs → All P (filter q xs)
  All-filter q [] h = tt
  All-filter q (x ∷ xs) (p, h) = elim (Bool-cases (q x)) [
    | inl kept ↦ rw kept (p, All-filter q xs h)
    | inr dropped ↦ rw dropped (All-filter q xs h)
  ]

  pub All-Mem : (x : A) (xs : List A) → All P xs → Memᴰ x xs → P x
  All-Mem x [] h m = elim m [ ]
  All-Mem x (y ∷ ys) (p, h) (Memᴰ.head e) = rw e p
  All-Mem x (y ∷ ys) (p, h) (Memᴰ.tail m) = All-Mem x ys h m

pub All-mapped {ℓ κ μ ν} :
    {A : Type ℓ} {B : Type κ} (P : A → Type μ) (Q : B → Type ν) (f : A → B)
    → ((x : A) → P x → Q (f x))
    → (xs : List A) → All P xs
    → All Q (map f xs)
All-mapped P Q f h [] all_p = tt
All-mapped P Q f h (x ∷ xs) (p, all_p) = (h x p, All-mapped P Q f h xs all_p)

pub Mem-append {ℓ} :
    {A : Type ℓ} (x : A) (xs ys : List A) → Memᴰ x (xs ++ ys) → Memᴰ x xs ⊎ Memᴰ x ys
Mem-append x [] ys m = inr m
Mem-append x (y ∷ xs) ys (Memᴰ.head e) = inl (Memᴰ.head e)
Mem-append x (y ∷ xs) ys (Memᴰ.tail m) = elim (Mem-append x xs ys m) [
  | inl before ↦ inl (Memᴰ.tail before)
  | inr after ↦ inr after
]

module _ {ℓ} {A : Type ℓ} (p : A → Bool) where
  pub Mem-filter : (c : A) (xs : List A) → Memᴰ c (filter p xs) → Memᴰ c xs × (p c ≡ true)
  Mem-filter c [] m = elim m [ ]
  Mem-filter c (x ∷ xs) m = kept (p x) refl (Mem-filter c xs) m
    where
      kept :
          (keeps : Bool)
          → p x ≡ keeps
          → (Memᴰ c (filter p xs) → Memᴰ c xs × (p c ≡ true))
          → Memᴰ c (if keeps then x ∷ filter p xs else filter p xs)
          → Memᴰ c (x ∷ xs) × (p c ≡ true)
      kept true e deeper (Memᴰ.head f) = (Memᴰ.head f, ap p f ∙ e)
      kept true e deeper (Memᴰ.tail n) =
          (let (there, passes) = deeper n in (Memᴰ.tail there, passes))
      kept false e deeper n = (let (there, passes) = deeper n in (Memᴰ.tail there, passes))

  pub count_if-filtered_out : (xs : List A) → filter p xs ≡ [] → count_if p xs ≡ 0
  count_if-filtered_out [] e = refl
  count_if-filtered_out (x ∷ xs) e = kept (p x) (count_if-filtered_out xs) e
    where
      kept :
          (keeps : Bool)
          → (filter p xs ≡ [] → count_if p xs ≡ 0)
          → (if keeps then x ∷ filter p xs else filter p xs) ≡ []
          → (if keeps then 1 else 0) + count_if p xs ≡ 0
      kept true deeper e = absurd cc
      kept false deeper e = omega (arith, deeper e)
