-- ===== src/Ledger/FanOut.antt =====
-- src/shared/stats/points-ledger/domain/fanOutAchievementPoints.ts, and how its rules mirror those of
-- the backfill.
use edopro_server_ts.Prelude.{
  ℕ, ◌+◌, ◌≡◌, refl, ap, ◌∙◌, String, Option, none, some, Bool, true, false, not, ◌&&◌, ◌||◌, List,
  [], ◌∷◌, ◌++◌, all, map, if◌then◌else◌, arith, Bool-cases, Option-cases, inl, inr,
}
use edopro_server_ts.Prelude.Eq.{◌==◌, string_eq}
use edopro_server_ts.Prelude.Dict.{get, insert}
use edopro_server_ts.Prelude.Int.{ℤ}
use edopro_server_ts.Ledger.Whole.{rank_names, resolve-names}
use edopro_server_ts.Ledger.{Rank, or_else, with_rank, group_ranks, resolve_ranks_to_credit}

pub record AchievementPointsRow : Type 0 where
  pub user_id : String
  pub rank_name : String
  pub season : ℕ
  pub points : ℤ

pub record FanOut : Type 0 where
  pub fanned : List AchievementPointsRow
  pub unmapped_counts : List (String × ℕ)

abbrev pub is_some {ℓ} : {A : Type ℓ} → Option A → Bool
is_some none = false
is_some (some _) = true

and_swap : (a b c : Bool) → (a && (b && c)) ≡ (b && (a && c))
and_swap a b c = ground arith

module _ (resolve_alias : String → String) (groups_for : String → List String)
    (ranks_by_name : String → Option Rank) where
  abbrev pub resolve_target_names : String → List String
  resolve_target_names label =
      if label == "Global" || label == "N/A"
      then label ∷ []
      else resolve_alias label ∷ groups_for (resolve_alias label)

  abbrev pub all_resolved : List String → Bool
  all_resolved names = all (λ name. is_some (ranks_by_name name)) names

  -- The body of the loop.
  abbrev pub fan_out_row : AchievementPointsRow → FanOut → FanOut
  unfolding get insert
  fan_out_row row f =
      let target_names = resolve_target_names row.rank_name in
      if not (all_resolved target_names)
      then record f {
        unmapped_counts =
            insert row.rank_name (or_else 0 (get row.rank_name f.unmapped_counts) + 1)
              f.unmapped_counts;
      }
      else record f {
        fanned = f.fanned ++ map (λ name. record row { rank_name = name }) target_names;
      }

  abbrev pub fan_out_rows : List AchievementPointsRow → FanOut → FanOut
  unfolding fan_out_row
  fan_out_rows [] f = f
  fan_out_rows (row ∷ rows) f = fan_out_rows rows (fan_out_row row f)

  unfoldable pub fan_out_achievement_points :
      (List (String × ℕ) → List (String × ℕ)) → List AchievementPointsRow → FanOut
  unfolding fan_out_rows
  fan_out_achievement_points sort_unmapped rows =
      let f = fan_out_rows rows (record { fanned = []; unmapped_counts = [] }) in
      record f { unmapped_counts = sort_unmapped f.unmapped_counts }

  group_ranks-is_some :
      (names : List String) → is_some (group_ranks ranks_by_name names) ≡ all_resolved names
  group_ranks-is_some [] = refl
  group_ranks-is_some (name ∷ names) = elim (Option-cases (ranks_by_name name)) [
    | inl missing ↦ rw missing refl
    | inr (rank, found) ↦
        rw found (with_some rank (group_ranks ranks_by_name names) ∙ group_ranks-is_some names)
  ]
    where
      with_some :
          (rank : Rank) (o : Option (List Rank)) → is_some (with_rank (some rank) o) ≡ is_some o
      with_some rank none = refl
      with_some rank (some ranks) = refl

  -- Of a label other than Global: a match row of that banlist is credited exactly when there is a rank
  -- for Global and achievement points under the label fan out; but when the label is empty, exactly when
  -- there is a rank for Global, whether the points fan out or not.
  pub fan_out-mirrors :
      (label : String)
      → (label == "Global") ≡ false
      → is_some (resolve_ranks_to_credit resolve_alias groups_for ranks_by_name label) ≡ (
          is_some (ranks_by_name "Global")
          && (label == "" || all_resolved (resolve_target_names label)))
  fan_out-mirrors label not_global =
      ap is_some (resolve-names resolve_alias groups_for ranks_by_name label)
      ∙ group_ranks-is_some (rank_names resolve_alias groups_for ranks_by_name label)
      ∙ (elim (Bool-cases (label == "")) [
        | inl unnamed ↦ rw unnamed refl
        | inr named ↦ elim (Bool-cases (label == "N/A")) [
          | inl blank ↦
              rw (named, not_global, blank)
                (and_swap (is_some (ranks_by_name label)) (is_some (ranks_by_name "Global")) true)
          | inr ranked ↦
              rw (named, not_global, ranked)
                (and_swap (is_some (ranks_by_name (resolve_alias label)))
                  (is_some (ranks_by_name "Global"))
                  (all_resolved (groups_for (resolve_alias label))))
        ]
      ])
