-- ===== src/Ledger/Whole.antt =====
-- The fan-out of a match row is whole or nothing: the entries that the plan makes are those of each
-- row's ranks, by their names.
use edopro_server_ts.Prelude.{
  ◌≡◌, refl, ap, String, Option, none, some, Bool, true, false, not, List, [], ◌∷◌, ◌++◌, map,
  if◌then◌else◌, Bool-cases, Option-cases, inl, inr,
}
use edopro_server_ts.Prelude.Eq.{◌==◌, string_eq}
use edopro_server_ts.Ledger.{
  Rank, BackfillMatchRow, PointsLedgerEntry, entry_of, with_rank, group_ranks, is_ranked_ban_list,
  resolved_name, global_and_groups, resolve_ranks_to_credit,
}

abbrev entries_for : BackfillMatchRow → Option (List Rank) → List PointsLedgerEntry
entries_for row none = []
entries_for row (some ranks) = map (entry_of row) ranks

if-map {ℓ κ} :
    {A : Type ℓ} {B : Type κ} (f : A → B) (b : Bool) {x y : B} {u v : A}
    → x ≡ f u
    → y ≡ f v
    → (if b then x else y) ≡ f (if b then u else v)
if-map f true h k = h
if-map f false h k = k

module _ (resolve_alias : String → String) (groups_for : String → List String)
    (ranks_by_name : String → Option Rank) where
  -- The names of the groups, and of the ranks, that a row of a banlist credits.
  abbrev pub group_names : String → List String
  group_names name =
      if is_ranked_ban_list name then groups_for (resolved_name resolve_alias name) else []

  abbrev pub rank_names : String → List String
  rank_names name =
      if name == ""
      then "Global" ∷ group_names name
      else resolved_name resolve_alias name ∷ "Global" ∷ group_names name

  global-names :
      (name : String)
      → global_and_groups resolve_alias groups_for ranks_by_name name
        ≡ group_ranks ranks_by_name ("Global" ∷ group_names name)
  global-names name = elim (Option-cases (ranks_by_name "Global")) [
    | inl missing ↦ rw (global_and_groups, missing) refl
    | inr (rank, found) ↦ elim (Bool-cases (is_ranked_ban_list name)) [
      | inl ranked ↦ rw (global_and_groups, found, ranked) refl
      | inr unranked ↦ rw (global_and_groups, found, unranked) refl
    ]
  ]

  -- The early returns give the ranks of all the names, or none of them.
  pub resolve-names :
      (name : String)
      → resolve_ranks_to_credit resolve_alias groups_for ranks_by_name name
        ≡ group_ranks ranks_by_name (rank_names name)
  unfolding resolve_ranks_to_credit
  resolve-names name =
      if-map (group_ranks ranks_by_name) (name == "") (global-names name)
        (elim (Option-cases (ranks_by_name (resolved_name resolve_alias name))) [
          | inl missing ↦ rw missing refl
          | inr (rank, found) ↦ rw found (ap (with_rank (some rank)) (global-names name))
        ])

  module _ (known_user_ids : String → Bool) where
    -- The entries of a row: of a known user and whole, or none.
    abbrev pub entries_of : BackfillMatchRow → List PointsLedgerEntry
    entries_of row =
        if not (known_user_ids row.user_id)
        then []
        else entries_for row (group_ranks ranks_by_name (rank_names row.ban_list_name))

    abbrev pub all_entries : List BackfillMatchRow → List PointsLedgerEntry
    all_entries [] = []
    all_entries (row ∷ rows) = entries_of row ++ all_entries rows
