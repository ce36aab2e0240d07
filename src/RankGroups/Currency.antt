-- ===== src/RankGroups/Currency.antt =====
-- A dated list is current by a rule that needs neither the newest list of a server nor the oldest of
-- those.
use edopro_server_ts.Prelude.{
  ℕ, ◌≡◌, refl, ◌∙◌, Option, none, some, Bool, true, false, not, ◌&&◌, ◌||◌, List, [], ◌∷◌, arith,
  leb, min, max, all, any,
}
use edopro_server_ts.Prelude.Texts.{Text}
use edopro_server_ts.RankGroups.{
  RankGroupDefinition, filter_map, max_from, min_from, greatest, least, current_keys,
  max_current_dated_key, currency_floor_key, is_from, is_current,
}

abbrev pub is_nil : List ℕ → Bool
is_nil [] = true
is_nil (_ ∷ _) = false

max_from-leb : (m k : ℕ) (ks : List ℕ) → leb (max_from m ks) k ≡ (leb m k && all (λ x. leb x k) ks)
max_from-leb m k [] = ground arith
max_from-leb m k (x ∷ xs) = ground (arith, max_from-leb (max m x) k xs)

min_from-leb : (m k : ℕ) (ks : List ℕ) → leb (min_from m ks) k ≡ (leb m k || any (λ x. leb x k) ks)
min_from-leb m k [] = ground arith
min_from-leb m k (x ∷ xs) = ground (arith, min_from-leb (min m x) k xs)

-- The floor of some keys, none of which stands for no floor.
is_from-least :
    (keys : List ℕ) (k : ℕ) → is_from (least keys) k ≡ (is_nil keys || any (λ x. leb x k) keys)
is_from-least [] k = refl
is_from-least (x ∷ xs) k = min_from-leb x k xs

module _ {ℓ} {A : Type ℓ} (keys : A → List ℕ) where
  unfoldable pub newest : A → Option ℕ
  newest server = greatest (keys server)

  -- No server has a key.
  pub nil_newest :
      (servers : List A) → is_nil (filter_map newest servers) ≡ all (λ s. is_nil (keys s)) servers
  unfolding newest
  nil_newest [] = refl
  nil_newest (s ∷ servers) = go (nil_newest servers) (keys s)
    where
      go :
          is_nil (filter_map newest servers) ≡ all (λ t. is_nil (keys t)) servers
          → (ks : List ℕ)
          → is_nil (elim (greatest ks) [
            | none ↦ filter_map newest servers
            | some k ↦ k ∷ filter_map newest servers
          ])
            ≡ (is_nil ks && all (λ t. is_nil (keys t)) servers)
      go later [] = later
      go later (k ∷ ks) = refl

  -- Some server's newest key is no later.
  any-newest :
      (key : ℕ) (servers : List A)
      → any (λ k. leb k key) (filter_map newest servers)
        ≡ any (λ s. not (is_nil (keys s)) && all (λ k. leb k key) (keys s)) servers
  unfolding newest
  any-newest key [] = refl
  any-newest key (s ∷ servers) = go (any-newest key servers) (keys s)
    where
      go :
          any (λ k. leb k key) (filter_map newest servers)
            ≡ any (λ t. not (is_nil (keys t)) && all (λ k. leb k key) (keys t)) servers
          → (ks : List ℕ)
          → any
              (λ k. leb k key)
              (elim (greatest ks) [
                | none ↦ filter_map newest servers
                | some k ↦ k ∷ filter_map newest servers
              ])
            ≡ ((not (is_nil ks) && all (λ k. leb k key) ks)
                || any (λ t. not (is_nil (keys t)) && all (λ k. leb k key) (keys t)) servers)
      go later [] = later
      go later (k ∷ ks) = rw (max_from-leb k key ks, later) refl

  is_from-newest :
      (key : ℕ) (servers : List A)
      → is_from (least (filter_map newest servers)) key ≡ (
          all (λ s. is_nil (keys s)) servers
          || any (λ s. not (is_nil (keys s)) && all (λ k. leb k key) (keys s)) servers)
  is_from-newest key servers =
      is_from-least (filter_map newest servers) key
      ∙ rw (nil_newest servers, any-newest key servers) refl

-- A dated name is current for a group exactly when its date is not after today and either no server
-- has a matching list that is dated by today, or some server has one and none that is later than the
-- name's.
pub is_current_iff :
    (played : ℕ) (group : RankGroupDefinition) (servers : List (List Text)) (today : ℕ)
    → is_current (some played) group servers today ≡ (
        leb played today
        && (all (λ names. is_nil (current_keys group today names)) servers
            || any
                (λ names.
                  not (is_nil (current_keys group today names))
                  && all (λ k. leb k played) (current_keys group today names))
                servers))
unfolding is_current currency_floor_key max_current_dated_key newest
is_current_iff played group servers today =
    ground (arith, is_from-newest (current_keys group today) played servers)
