-- ===== src/RankGroups/Agree.antt =====
-- What a played list feeds and what the summary shows agree.
use mathlib.Core.List.{flatten}
use edopro_server_ts.Prelude.{
  ℕ, ◌≡◌, refl, ap, ◌∙◌, some, Bool, true, false, not, ◌&&◌, ◌||◌, List, [], ◌∷◌, arith, leb, any,
  map, filter, if◌then◌else◌, Bool-cases, Option-cases, inl, inr,
}
use edopro_server_ts.Prelude.Eq.{contains}
use edopro_server_ts.Prelude.Texts.{Text, text_eq}
use edopro_server_ts.RankGroups.{
  RankGroupDefinition, Day, filter_map, least, current_keys, max_current_dated_key,
  currency_floor_key, is_current, matches_group, dated_key, resolves, is_empty, resolve_groups_for,
  non_groupable_names, distinct_from, matched_lists, feeds_now, current_lists_for, today_key,
}
use edopro_server_ts.RankGroups.Currency.{is_nil, newest, nil_newest}
use edopro_server_ts.RankGroups.Loaded.{
  contains-filter, contains-distinct_from, contains-flatten, keys_of, keys_of-contains, not_all_nil,
}

-- A dated, matching name that some server has loaded gives a floor.
floor_found :
    (group : RankGroupDefinition) (servers : List (List Text)) (today k : ℕ) (n : Text)
    → matches_group n group ≡ true
    → dated_key n ≡ some k
    → leb k today ≡ true
    → any (contains n) servers ≡ true
    → (floor : ℕ) × (currency_floor_key group servers today ≡ some floor)
unfolding currency_floor_key max_current_dated_key newest current_keys keys_of
floor_found group servers today k n matches dated early loaded =
    let some_key =
      nil_newest (current_keys group today) servers
      ∙ not_all_nil (λ names. is_nil (current_keys group today names)) (contains n)
          (keys_of-contains (λ key. leb key today) dated_key (λ name. matches_group name group) n k
            matches dated early)
          servers loaded in
    least_found (filter_map (max_current_dated_key group today) servers) some_key
  where
    least_found : (ks : List ℕ) → is_nil ks ≡ false → (floor : ℕ) × (least ks ≡ some floor)
    least_found [] h = cc
    least_found (j ∷ ks) h = (_, refl)

-- The two tests agree on a matching name that some server has loaded.
feeds_now-is_current :
    (group : RankGroupDefinition) (servers : List (List Text)) (today : ℕ) (n : Text)
    → matches_group n group ≡ true
    → any (contains n) servers ≡ true
    → feeds_now (currency_floor_key group servers today) today (dated_key n)
      ≡ is_current (dated_key n) group servers today
unfolding is_current
feeds_now-is_current group servers today n matches loaded = elim (Option-cases (dated_key n)) [
  | inl dateless ↦ rw dateless refl
  | inr (k, dated) ↦ elim (Bool-cases (leb k today)) [
    | inr late ↦ elim (Option-cases (currency_floor_key group servers today)) [
      | inl none_found ↦ rw (dated, none_found) (ground (arith, late))
      | inr (floor, found) ↦ rw (dated, found) (ground (arith, late))
    ]
    | inl early ↦
        let (floor, found) = floor_found group servers today k n matches dated early loaded in
        rw (dated, found) (ground (arith, early))
  ]
]

-- The lists that show the name for a group.
abbrev pub shows : Text → List (List Text) → Day → RankGroupDefinition → Bool
shows name servers today group =
    group.enabled
    && (if group.only_current
        then contains name (current_lists_for group servers today).1
        else contains name (current_lists_for group servers today).0)

filter-path {ℓ} :
    {A : Type ℓ} (p q : A → Bool)
    → ((x : A) → p x ≡ q x)
    → (xs : List A) → filter p xs ≡ filter q xs
filter-path p q e [] = refl
filter-path p q e (x ∷ xs) = rw e (ap (λ ys. if q x then x ∷ ys else ys) (filter-path p q e xs))

matched-contains :
    (group : RankGroupDefinition) (servers : List (List Text)) (n : Text)
    → any (contains n) servers ≡ true
    → contains n (matched_lists group servers) ≡ matches_group n group
unfolding matched_lists
matched-contains group servers n loaded =
    contains-filter (λ name. matches_group name group) n (distinct_from [] (flatten servers))
    ∙ rw (contains-distinct_from n [] (flatten servers), contains-flatten n servers, loaded) refl

current-contains :
    (group : RankGroupDefinition) (servers : List (List Text)) (today : Day) (n : Text)
    → contains n non_groupable_names ≡ false
    → any (contains n) servers ≡ true
    → contains n (current_lists_for group servers today).1
      ≡ (matches_group n group && is_current (dated_key n) group servers (today_key today))
unfolding current_lists_for
current-contains group servers today n groupable loaded =
    contains-filter
      (λ name.
        not (contains name non_groupable_names)
        && feeds_now (currency_floor_key group servers (today_key today)) (today_key today)
            (dated_key name))
      n (matched_lists group servers)
    ∙ rw (matched-contains group servers n loaded, groupable)
        (elim (Bool-cases (matches_group n group)) [
          | inl matches ↦
              rw (matches, feeds_now-is_current group servers (today_key today) n matches loaded)
                refl
          | inr fails ↦ rw fails refl
        ])

resolves-shows :
    (name : Text) (servers : List (List Text)) (today : Day) (group : RankGroupDefinition)
    → contains name non_groupable_names ≡ false
    → any (contains name) servers ≡ true
    → resolves name servers (today_key today) group ≡ shows name servers today group
unfolding current_lists_for matched_lists resolves
resolves-shows name servers today group groupable loaded =
    combine group.enabled group.only_current (matches_group name group)
      (is_current (dated_key name) group servers (today_key today))
      (contains name (current_lists_for group servers today).1)
      (contains name (current_lists_for group servers today).0)
      (current-contains group servers today name groupable loaded)
      (matched-contains group servers name loaded)
  where
    combine :
        (enabled only matches now current matched : Bool)
        → current ≡ (matches && now)
        → matched ≡ matches
        → (enabled && (matches && (not only || now)))
          ≡ (enabled && (if only then current else matched))
    combine enabled only matches now current matched h k = ground arith

-- A loaded name that is neither empty, nor N/A or Global, feeds exactly the enabled groups that list
-- it: among the lists that are current for the group, where the group wants those only, or else
-- among all the lists that match.
pub resolve_groups_for-shows :
    (name : Text) (groups : List RankGroupDefinition) (servers : List (List Text)) (today : Day)
    → is_empty name ≡ false
    → contains name non_groupable_names ≡ false
    → any (contains name) servers ≡ true
    → resolve_groups_for name groups servers today
      ≡ map (λ g. g.name) (filter (shows name servers today) groups)
unfolding resolve_groups_for
resolve_groups_for-shows name groups servers today named groupable loaded =
    rw (named, groupable)
      (ap (map (λ g. g.name)) (
        filter-path (resolves name servers (today_key today)) (shows name servers today)
          (λ g. resolves-shows name servers today g groupable loaded) groups))
