-- ===== src/RankGroups/Loaded.antt =====
-- The names that the servers have loaded, and the keys that dated names give.
use mathlib.Core.List.{flatten}
use edopro_server_ts.Prelude.{
  ℕ, ◌≡◌, refl, ap, ◌∙◌, Option, none, some, Bool, true, false, not, ◌&&◌, ◌||◌, List, [], ◌∷◌,
  ◌++◌, arith, all, any, filter, Bool-cases, Option-cases, inl, inr,
}
use edopro_server_ts.Prelude.Eq.{◌==◌, ==_iff, contains}
use edopro_server_ts.Prelude.Texts.{Text, text_eq}
use edopro_server_ts.RankGroups.{filter_map, distinct_from}
use edopro_server_ts.RankGroups.Currency.{is_nil}

pub contains-filter :
    (p : Text → Bool) (n : Text) (xs : List Text)
    → contains n (filter p xs) ≡ (contains n xs && p n)
contains-filter p n [] = refl
contains-filter p n (x ∷ xs) = elim (Bool-cases (x == n)) [
  | inl here ↦
      let same : x ≡ n = (==_iff x n).0 here in
      let passes : p x ≡ p n = ap p same in ground (arith, contains-filter p n xs, here, passes)
  | inr elsewhere ↦ ground (arith, contains-filter p n xs, elsewhere)
]

pub contains-distinct_from :
    (n : Text) (seen xs : List Text)
    → contains n (distinct_from seen xs) ≡ (contains n xs && not (contains n seen))
contains-distinct_from n seen [] = refl
contains-distinct_from n seen (x ∷ xs) = elim (Bool-cases (x == n)) [
  | inl here ↦
      let same : contains x seen ≡ contains n seen =
        ap (λ y. contains y seen) ((==_iff x n).0 here) in
      ground (
        arith,
        contains-distinct_from n seen xs,
        contains-distinct_from n (x ∷ seen) xs,
        here,
        same,
      )
  | inr elsewhere ↦
      ground
        (arith, contains-distinct_from n seen xs, contains-distinct_from n (x ∷ seen) xs, elsewhere)
]

contains-append :
    (n : Text) (xs ys : List Text) → contains n (xs ++ ys) ≡ (contains n xs || contains n ys)
contains-append n [] ys = refl
contains-append n (x ∷ xs) ys = ground (arith, contains-append n xs ys)

pub contains-flatten :
    (n : Text) (sets : List (List Text)) → contains n (flatten sets) ≡ any (contains n) sets
unfolding flatten
contains-flatten n [] = refl
contains-flatten n (s ∷ sets) =
    contains-append n s (flatten sets) ∙ ap (λ b. contains n s || b) (contains-flatten n sets)

filter-cons_true {ℓ} :
    {A : Type ℓ} (p : A → Bool) (x : A) (xs : List A)
    → p x ≡ true
    → filter p (x ∷ xs) ≡ x ∷ filter p xs
filter-cons_true p x xs h = rw h refl

filter-cons_false {ℓ} :
    {A : Type ℓ} (p : A → Bool) (x : A) (xs : List A)
    → p x ≡ false
    → filter p (x ∷ xs) ≡ filter p xs
filter-cons_false p x xs h = rw h refl

filter_map-cons {ℓ κ} :
    {A : Type ℓ} {B : Type κ} (f : A → Option B) (x : A) (xs : List A)
    → filter_map f (x ∷ xs) ≡ (elim (f x) [ none ↦ filter_map f xs | some y ↦ y ∷ filter_map f xs ])
filter_map-cons f x xs = refl

module _ (p : ℕ → Bool) (f : Text → Option ℕ) (q : Text → Bool) where
  -- The keys of a list of names.
  unfoldable pub keys_of : List Text → List ℕ
  keys_of names = filter p (filter_map f (filter q names))

  keys_of-here :
      (x : Text) (names : List Text) (k : ℕ)
      → q x ≡ true
      → f x ≡ some k
      → p k ≡ true
      → is_nil (keys_of (x ∷ names)) ≡ false
  unfolding keys_of
  keys_of-here x names k hq hf hp =
      ap (λ l. is_nil (filter p (filter_map f l))) (filter-cons_true q x names hq)
      ∙ ap
          (λ o. is_nil (
            filter p (elim o [
              | none ↦ filter_map f (filter q names)
              | some y ↦ y ∷ filter_map f (filter q names)
            ])))
          hf
      ∙ ap is_nil (filter-cons_true p k (filter_map f (filter q names)) hp)

  keys_of-later :
      (x : Text) (names : List Text)
      → is_nil (keys_of names) ≡ false
      → is_nil (keys_of (x ∷ names)) ≡ false
  unfolding keys_of
  keys_of-later x names h = elim (Bool-cases (q x)) [
    | inr refuses ↦
        ap (λ l. is_nil (filter p (filter_map f l))) (filter-cons_false q x names refuses) ∙ h
    | inl accepts ↦ elim (Option-cases (f x)) [
      | inr (k, found) ↦ elim (Bool-cases (p k)) [
        | inl early ↦ keys_of-here x names k accepts found early
        | inr late ↦
            ap (λ l. is_nil (filter p (filter_map f l))) (filter-cons_true q x names accepts)
            ∙ ap
                (λ o. is_nil (
                  filter p (elim o [
                    | none ↦ filter_map f (filter q names)
                    | some y ↦ y ∷ filter_map f (filter q names)
                  ])))
                found
            ∙ ap is_nil (filter-cons_false p k (filter_map f (filter q names)) late)
            ∙ h
      ]
      | inl nothing ↦
          ap (λ l. is_nil (filter p (filter_map f l))) (filter-cons_true q x names accepts)
          ∙ ap
              (λ o. is_nil (
                filter p (elim o [
                  | none ↦ filter_map f (filter q names)
                  | some y ↦ y ∷ filter_map f (filter q names)
                ])))
              nothing
          ∙ h
    ]
  ]

  pub keys_of-contains :
      (n : Text) (k : ℕ)
      → q n ≡ true
      → f n ≡ some k
      → p k ≡ true
      → (names : List Text) → contains n names ≡ true
      → is_nil (keys_of names) ≡ false
  keys_of-contains n k hq hf hp [] h = cc
  keys_of-contains n k hq hf hp (x ∷ names) h = elim (Bool-cases (x == n)) [
    | inl here ↦
        let same : x ≡ n = (==_iff x n).0 here in
        keys_of-here x names k (ap q same ∙ hq) (ap f same ∙ hf) hp
    | inr elsewhere ↦
        keys_of-later x names (keys_of-contains n k hq hf hp names (ground (arith, h, elsewhere)))
  ]

module _ {ℓ} {A : Type ℓ} (nil has : A → Bool) where
  pub not_all_nil :
      ((a : A) → has a ≡ true → nil a ≡ false)
      → (xs : List A) → any has xs ≡ true
      → all nil xs ≡ false
  not_all_nil apart [] h = cc
  not_all_nil apart (x ∷ xs) h = elim (Bool-cases (has x)) [
    | inl here ↦ rw (apart x here) refl
    | inr elsewhere ↦ ground (arith, not_all_nil apart xs (ground (arith, h, elsewhere)))
  ]
