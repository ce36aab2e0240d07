-- ===== src/Ledger/Games.antt =====
-- The games that the reconciliation leaves out.
use edopro_server_ts.Prelude.{
  ℕ, ◌+◌, ◌≡◌, refl, ap, ◌∙◌, String, Option, none, some, Bool, true, false, not, ◌&&◌, ◌||◌, List,
  [], ◌∷◌, all, count_if, ◌≤◌, if◌then◌else◌, arith, Bool-cases, inl, inr,
}
use edopro_server_ts.Prelude.Eq.{◌==◌, string_eq, nat_eq, ==_iff}
use edopro_server_ts.Prelude.Dict.{get, get-insert}
use edopro_server_ts.Ledger.{
  Rank, BackfillMatchRow, Backfill, GameCounts, nothing_planned, credit_all, credit_row, flag_row,
  count_row, plan_row, plan_rows, or_else, is_skipped, resolve_ranks_to_credit,
}

abbrev zero_counts : GameCounts
zero_counts = record { total = 0; missing = 0 }

-- The counts of a game; none are zero.
abbrev pub counts_at : String → Backfill → GameCounts
unfolding get
counts_at game_id b = or_else zero_counts (get game_id b.game_row_counts)

credit_all-counts :
    (row : BackfillMatchRow) (ranks : List Rank) (b : Backfill)
    → (credit_all row ranks b).game_row_counts ≡ b.game_row_counts
unfolding credit_all
credit_all-counts row [] b = refl
credit_all-counts row (rank ∷ ranks) b = credit_all-counts row ranks _

credit_row-counts :
    (row : BackfillMatchRow) (credit : Option (List Rank)) (b : Backfill)
    → (credit_row row credit b).game_row_counts ≡ b.game_row_counts
unfolding credit_row
credit_row-counts row none b = refl
credit_row-counts row (some ranks) b = credit_all-counts row ranks b

flag_row-counts :
    (row : BackfillMatchRow) (b : Backfill) → (flag_row row b).game_row_counts ≡ b.game_row_counts
flag_row-counts row b = elim (Bool-cases row.anulled) [
  | inl flagged ↦ rw flagged refl
  | inr kept ↦ rw kept refl
]

abbrev one_if : Bool → ℕ
one_if test = if test then 1 else 0

count_row-counts :
    (is_missing : Bool) (game_id g : String) (b : Backfill)
    → counts_at g (count_row is_missing game_id b) ≡ (record {
      total = (counts_at g b).total + one_if (game_id == g);
      missing = (counts_at g b).missing + one_if ((game_id == g) && is_missing);
    })
unfolding count_row counts_at
count_row-counts is_missing game_id g b =
    ap (or_else zero_counts)
      (get-insert game_id g (counted is_missing (counts_at game_id b)) b.game_row_counts)
    ∙ (elim (Bool-cases (game_id == g)) [
      | inl here ↦
          let same : game_id ≡ g = (==_iff game_id g).0 here in
          rw here (ap (λ i. counted is_missing (counts_at i b)) same)
      | inr elsewhere ↦ rw elsewhere (counts_path (omega arith) (omega arith))
    ])
  where
    counted : Bool → GameCounts → GameCounts
    counted missing counts = record {
      total = counts.total + 1;
      missing = counts.missing + one_if missing;
    }

    counts_path :
        {c : GameCounts} {t m : ℕ}
        → c.total ≡ t
        → c.missing ≡ m
        → c ≡ record { total = t; missing = m }
    counts_path {c} {t} {m} h k =
        let e : ◌≡◌ {A = GameCounts} (record { total = c.total; missing = c.missing })
            (record { total = t; missing = m }) =
          cc in
        e

module _ (resolve_alias : String → String) (groups_for : String → List String)
    (ranks_by_name : String → Option Rank) (known_user_ids : String → Bool) where
  abbrev in_game : String → BackfillMatchRow → Bool
  in_game g row = row.game_id == g

  abbrev in_game_missing : String → BackfillMatchRow → Bool
  in_game_missing g row = (row.game_id == g) && not (known_user_ids row.user_id)

  plan_row-counts :
      (g : String) (row : BackfillMatchRow) (b : Backfill)
      → counts_at g (plan_row resolve_alias groups_for ranks_by_name known_user_ids row b)
        ≡ (record {
          total = (counts_at g b).total + one_if (in_game g row);
          missing = (counts_at g b).missing + one_if (in_game_missing g row);
        })
  unfolding plan_row
  plan_row-counts g row b = elim (Bool-cases (known_user_ids row.user_id)) [
    | inr unknown ↦ rw unknown (count_row-counts true row.game_id g b)
    | inl known ↦
        let credit =
          resolve_ranks_to_credit resolve_alias groups_for ranks_by_name row.ban_list_name in
        let counted = count_row false row.game_id b in
        rw known (
          ap (λ m. or_else zero_counts (get g m))
            (credit_row-counts row credit (flag_row row counted) ∙ flag_row-counts row counted)
          ∙ count_row-counts false row.game_id g b)
  ]

  plan_rows-counts :
      (g : String) (rows : List BackfillMatchRow) (b : Backfill)
      → ((counts_at g
            (plan_rows resolve_alias groups_for ranks_by_name known_user_ids rows b)).total
          ≡ (counts_at g b).total + count_if (in_game g) rows)
        × ((counts_at g
              (plan_rows resolve_alias groups_for ranks_by_name known_user_ids rows b)).missing
            ≡ (counts_at g b).missing + count_if (in_game_missing g) rows)
  unfolding plan_rows
  plan_rows-counts g [] b = (omega arith, omega arith)
  plan_rows-counts g (row ∷ rows) b =
      let next = plan_row resolve_alias groups_for ranks_by_name known_user_ids row b in
      let step = plan_row-counts g row b in
      let (total, missing) = plan_rows-counts g rows next in
      (
        total ∙ ap (λ c. c.total + count_if (in_game g) rows) step ∙ omega arith,
        missing ∙ ap (λ c. c.missing + count_if (in_game_missing g) rows) step ∙ omega arith,
      )

  missing_le :
      (g : String) (rows : List BackfillMatchRow)
      → count_if (in_game_missing g) rows ≤ count_if (in_game g) rows
  missing_le g [] = omega arith
  missing_le g (row ∷ rows) = ground (arith, missing_le g rows)

  -- A game is left out exactly when all its rows are of missing users.
  all_missing :
      (g : String) (rows : List BackfillMatchRow)
      → (count_if (in_game_missing g) rows == count_if (in_game g) rows)
        ≡ all (λ row. not (in_game g row) || not (known_user_ids row.user_id)) rows
  all_missing g [] = refl
  all_missing g (row ∷ rows) = ground (arith, all_missing g rows, missing_le g rows)

  -- The counts that the plan keeps of a game single it out as skipped exactly when every row of the game
  -- is of a missing user.
  pub is_skipped-counts :
      (g : String) (rows : List BackfillMatchRow)
      → is_skipped (
          counts_at g
            (plan_rows resolve_alias groups_for ranks_by_name known_user_ids rows nothing_planned))
        ≡ all (λ row. not (row.game_id == g) || not (known_user_ids row.user_id)) rows
  unfolding counts_at
  is_skipped-counts g rows =
      let (total, missing) = plan_rows-counts g rows nothing_planned in
      rw
        (
          total ∙ zero_add (count_if (in_game g) rows),
          missing ∙ zero_add (count_if (in_game_missing g) rows),
        )
        (all_missing g rows)
    where
      zero_add : (n : ℕ) → 0 + n ≡ n
      zero_add n = omega arith
