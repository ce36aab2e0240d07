-- ===== src/RankGroups/Tests.antt =====
-- Two servers, one of which lags behind with its newest TCG list.
use edopro_server_ts.Prelude.{
  ◌≡◌, refl, true, not, ◌&&◌, ◌||◌, List, [], ◌∷◌, leb, all, any, map, filter, some,
}
use edopro_server_ts.Prelude.Texts.{Text, codes}
use edopro_server_ts.RankGroups.{
  RankGroupDefinition, Day, is_current, current_keys, resolve_groups_for, groups_for,
}
use edopro_server_ts.RankGroups.Currency.{is_nil, is_current_iff}
use edopro_server_ts.RankGroups.Agree.{shows, resolve_groups_for-shows}

abbrev tcg_group : RankGroupDefinition
tcg_group = record {
  name = codes "TCG";
  enabled = true;
  only_current = true;
  members = codes "* TCG" ∷ [];
}

abbrev loaded_lists : List (List Text)
loaded_lists =
    (codes "2026.02 TCG" ∷ codes "2025.11 TCG" ∷ [])
    ∷ (codes "2026.05.04 TCG" ∷ codes "Edison" ∷ [])
    ∷ []

abbrev in_june : Day
in_june = record { utc_full_year = 2026; utc_month = 5; utc_date = 9 }

is_current_iff_example : is_current (some 20260201) tcg_group loaded_lists 20260609 ≡ (
    leb 20260201 20260609
    && (all (λ names. is_nil (current_keys tcg_group 20260609 names)) loaded_lists
        || any
            (λ names.
              not (is_nil (current_keys tcg_group 20260609 names))
              && all (λ k. leb k 20260201) (current_keys tcg_group 20260609 names))
            loaded_lists))
is_current_iff_example = is_current_iff 20260201 tcg_group loaded_lists 20260609

resolve_groups_for-shows_example :
    resolve_groups_for (codes "2026.02 TCG") (tcg_group ∷ []) loaded_lists in_june
    ≡ map (λ g. g.name) (filter (shows (codes "2026.02 TCG") loaded_lists in_june) (tcg_group ∷ []))
resolve_groups_for-shows_example =
    resolve_groups_for-shows (codes "2026.02 TCG") (tcg_group ∷ []) loaded_lists in_june refl refl
      refl

-- The lagging server's list still feeds the group, the one before it does not.
lagging_feeds :
    groups_for
      (record { aliases = []; groups = tcg_group ∷ [] })
      loaded_lists
      in_june
      (codes "2026.02 TCG")
    ≡ codes "TCG" ∷ []
unfolding groups_for
lagging_feeds = refl

older_does_not :
    groups_for
      (record { aliases = []; groups = tcg_group ∷ [] })
      loaded_lists
      in_june
      (codes "2025.11 TCG")
    ≡ []
unfolding groups_for
older_does_not = refl
