-- ===== src/Ledger.antt =====
-- src/shared/stats/points-ledger/domain: planLedgerBackfill.ts, which derives the ledger from the rows of
-- past matches, and fanOutAchievementPoints.ts. The ranks, the aliases, the groups and the known users
-- are functions, as in the source; the orders of `sort` and `localeCompare` are parameters.
pub mod Whole
pub mod Games
pub mod FanOut
mod Tests
use edopro_server_ts.Prelude.{
  ℕ, ◌+◌, String, Option, none, some, Bool, true, false, not, ◌&&◌, ◌||◌, List, [], ◌∷◌, ◌++◌, all,
  map, filter, length, if◌then◌else◌,
}
use edopro_server_ts.Prelude.Eq.{◌==◌, nat_eq, string_eq, contains}
use edopro_server_ts.Prelude.Dict.{get, insert}
use edopro_server_ts.Prelude.Int.{ℤ}

-- Rank.ts
pub data RankType : Type 0 where
  banlist_rank group_rank global_rank : RankType

pub record Rank : Type 0 where
  pub id : String
  pub name : String
  pub type : RankType
  pub enabled : Bool

pub record BackfillMatchRow : Type 0 where
  pub game_id : String
  pub user_id : String
  pub season : ℕ
  pub ban_list_name : String
  pub winner : Bool
  pub points : ℤ
  pub anulled : Bool

-- An entry of kind `applied` and cycle 0.
pub record PointsLedgerEntry : Type 0 where
  pub game_id : String
  pub user_id : String
  pub rank_id : String
  pub season : ℕ
  pub points_delta : ℤ
  pub wins_delta : ℕ
  pub losses_delta : ℕ

pub record GameCounts : Type 0 where
  pub total : ℕ
  pub missing : ℕ

pub record RankAccumulator : Type 0 where
  pub rank_name : String
  pub entry_count : ℕ
  pub games : List String
  pub users : List String

-- The variables of the loop.
pub record Backfill : Type 0 where
  pub entries : List PointsLedgerEntry
  pub unmapped_counts : List (String × ℕ)
  pub pre_flagged_game_ids : List String
  pub rank_stats : List (String × RankAccumulator)
  pub missing_users : List String
  pub missing_user_match_rows : ℕ
  pub game_row_counts : List (String × GameCounts)

abbrev pub nothing_planned : Backfill
nothing_planned = record {
  entries = [];
  unmapped_counts = [];
  pre_flagged_game_ids = [];
  rank_stats = [];
  missing_users = [];
  missing_user_match_rows = 0;
  game_row_counts = [];
}

-- `Set.add`
abbrev pub add_to : String → List String → List String
add_to x xs = if contains x xs then xs else xs ++ x ∷ []

abbrev pub or_else {ℓ} : {A : Type ℓ} → A → Option A → A
or_else default none = default
or_else default (some a) = a

-- A list of ranks, unless one is missing.
abbrev pub with_rank : Option Rank → Option (List Rank) → Option (List Rank)
with_rank none ranks = none
with_rank (some rank) none = none
with_rank (some rank) (some ranks) = some (rank ∷ ranks)

abbrev pub entry_of : BackfillMatchRow → Rank → PointsLedgerEntry
entry_of row rank = record {
  game_id = row.game_id;
  user_id = row.user_id;
  rank_id = rank.id;
  season = row.season;
  points_delta = row.points;
  wins_delta = if row.winner then 1 else 0;
  losses_delta = if row.winner then 0 else 1;
}

unfoldable pub accumulate_rank_stats :
    List (String × RankAccumulator) → Rank → BackfillMatchRow → List (String × RankAccumulator)
unfolding get insert
accumulate_rank_stats rank_stats rank row =
    let stats =
      or_else (record { rank_name = rank.name; entry_count = 0; games = []; users = [] })
        (get rank.id rank_stats) in
    insert rank.id
      (record stats {
        entry_count = stats.entry_count + 1;
        games = add_to row.game_id stats.games;
        users = add_to row.user_id stats.users;
      })
      rank_stats

abbrev pub credit_all : BackfillMatchRow → List Rank → Backfill → Backfill
unfolding accumulate_rank_stats
credit_all row [] b = b
credit_all row (rank ∷ ranks) b = credit_all row ranks (record b {
  entries = b.entries ++ entry_of row rank ∷ [];
  rank_stats = accumulate_rank_stats b.rank_stats rank row;
})

-- The loop over the groups.
abbrev pub group_ranks : (String → Option Rank) → List String → Option (List Rank)
group_ranks ranks_by_name [] = some []
group_ranks ranks_by_name (name ∷ names) =
    with_rank (ranks_by_name name) (group_ranks ranks_by_name names)

abbrev pub is_ranked_ban_list : String → Bool
is_ranked_ban_list name = not (name == "") && not (name == "N/A")

abbrev pub resolved_name : (String → String) → String → String
resolved_name resolve_alias name = if is_ranked_ban_list name then resolve_alias name else name

abbrev pub count_row : Bool → String → Backfill → Backfill
unfolding get insert
count_row is_missing game_id b =
    let counts = or_else (record { total = 0; missing = 0 }) (get game_id b.game_row_counts) in
    record b {
      game_row_counts =
          insert game_id
            (record {
              total = counts.total + 1;
              missing = counts.missing + (if is_missing then 1 else 0);
            })
            b.game_row_counts;
    }

abbrev pub flag_row : BackfillMatchRow → Backfill → Backfill
flag_row row b =
    if row.anulled
    then record b { pre_flagged_game_ids = add_to row.game_id b.pre_flagged_game_ids }
    else b

abbrev pub credit_row : BackfillMatchRow → Option (List Rank) → Backfill → Backfill
unfolding get insert credit_all
credit_row row none b = record b {
  unmapped_counts =
      insert row.ban_list_name (or_else 0 (get row.ban_list_name b.unmapped_counts) + 1)
        b.unmapped_counts;
}
credit_row row (some ranks) b = credit_all row ranks b

module _ (resolve_alias : String → String) (groups_for : String → List String)
    (ranks_by_name : String → Option Rank) where
  -- `resolveRanksToCredit` after the ban list.
  abbrev pub global_and_groups : String → Option (List Rank)
  global_and_groups name = elim (ranks_by_name "Global") [
    | none ↦ none
    | some rank ↦
        if is_ranked_ban_list name
        then with_rank (some rank)
            (group_ranks ranks_by_name (groups_for (resolved_name resolve_alias name)))
        else some (rank ∷ [])
  ]

  unfoldable pub resolve_ranks_to_credit : String → Option (List Rank)
  resolve_ranks_to_credit name =
      if name == ""
      then global_and_groups name
      else elim (ranks_by_name (resolved_name resolve_alias name)) [
        | none ↦ none
        | some rank ↦ with_rank (some rank) (global_and_groups name)
      ]

  -- The body of the loop.
  abbrev pub plan_row : (String → Bool) → BackfillMatchRow → Backfill → Backfill
  unfolding count_row credit_row resolve_ranks_to_credit
  plan_row known_user_ids row b =
      if not (known_user_ids row.user_id)
      then record (count_row true row.game_id b) {
        missing_users = add_to row.user_id b.missing_users;
        missing_user_match_rows = b.missing_user_match_rows + 1;
      }
      else credit_row row (resolve_ranks_to_credit row.ban_list_name)
          (flag_row row (count_row false row.game_id b))

  abbrev pub plan_rows : (String → Bool) → List BackfillMatchRow → Backfill → Backfill
  unfolding plan_row
  plan_rows known_user_ids [] b = b
  plan_rows known_user_ids (row ∷ rows) b =
      plan_rows known_user_ids rows (plan_row known_user_ids row b)

-- Games of missing users alone.
abbrev pub is_skipped : GameCounts → Bool
is_skipped counts = counts.missing == counts.total

pub record RankBackfillSummary : Type 0 where
  pub rank_id : String
  pub rank_name : String
  pub entry_count : ℕ
  pub game_count : ℕ
  pub user_count : ℕ

abbrev pub summary_of : String × RankAccumulator → RankBackfillSummary
summary_of (rank_id, stats) = record {
  rank_id = rank_id;
  rank_name = stats.rank_name;
  entry_count = stats.entry_count;
  game_count = length stats.games;
  user_count = length stats.users;
}

pub record PlanLedgerBackfillResult : Type 0 where
  pub entries : List PointsLedgerEntry
  pub unmapped_ban_lists : List (String × ℕ)
  pub rank_summaries : List RankBackfillSummary
  pub pre_flagged_game_ids : List String
  pub skipped_match_rows : ℕ
  pub skipped_users : List String
  pub skipped_game_ids : List String

module _ (sort : List String → List String) (sort_unmapped : List (String × ℕ) → List (String × ℕ))
    (sort_summaries : List RankBackfillSummary → List RankBackfillSummary) where
  abbrev pub result_of : Backfill → PlanLedgerBackfillResult
  result_of b = record {
    entries = b.entries;
    unmapped_ban_lists = sort_unmapped b.unmapped_counts;
    rank_summaries = sort_summaries (map summary_of b.rank_stats);
    pre_flagged_game_ids = sort b.pre_flagged_game_ids;
    skipped_match_rows = b.missing_user_match_rows;
    skipped_users = sort b.missing_users;
    skipped_game_ids = sort (
        map (λ (game_id, _). game_id)
          (filter (λ (_, counts). is_skipped counts) b.game_row_counts));
  }

  unfoldable pub plan_ledger_backfill :
      (String → String)
      → (String → List String)
      → (String → Option Rank)
      → (String → Bool)
      → List BackfillMatchRow
      → PlanLedgerBackfillResult
  unfolding plan_rows
  plan_ledger_backfill resolve_alias groups_for ranks_by_name known_user_ids rows =
      result_of
        (plan_rows resolve_alias groups_for ranks_by_name known_user_ids rows nothing_planned)
