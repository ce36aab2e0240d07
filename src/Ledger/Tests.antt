-- ===== src/Ledger/Tests.antt =====
-- Three rows of a match, of which one user is gone.
use edopro_server_ts.Prelude.{
  ◌≡◌, refl, String, Option, some, Bool, true, false, not, ◌&&◌, ◌||◌, List, [], ◌∷◌, all,
  if◌then◌else◌,
}
use edopro_server_ts.Prelude.Eq.{◌==◌, string_eq}
use edopro_server_ts.Prelude.Int.{pos}
use edopro_server_ts.Ledger.{
  Rank, banlist_rank, BackfillMatchRow, plan_rows, nothing_planned, is_skipped,
  plan_ledger_backfill, resolve_ranks_to_credit,
}
use edopro_server_ts.Ledger.Games.{counts_at, is_skipped-counts}
use edopro_server_ts.Ledger.FanOut.{is_some, all_resolved, resolve_target_names, fan_out-mirrors}

abbrev same : String → String
same name = name

abbrev tcg_feeds : String → List String
tcg_feeds name = if name == "2026.05 TCG" then "TCG" ∷ [] else []

abbrev every_rank : String → Option Rank
every_rank name = some (record { id = name; name = name; type = banlist_rank; enabled = true })

abbrev not_gone : String → Bool
not_gone user = not (user == "gone")

abbrev played : String → String → Bool → BackfillMatchRow
played game user won = record {
  game_id = game;
  user_id = user;
  season = 4;
  ban_list_name = "2026.05 TCG";
  winner = won;
  points = pos 3;
  anulled = false;
}

abbrev history : List BackfillMatchRow
history = played "g1" "mai" true ∷ played "g1" "gone" false ∷ played "g2" "gone" true ∷ []

is_skipped-counts_example :
    is_skipped
      (counts_at "g2" (plan_rows same tcg_feeds every_rank not_gone history nothing_planned))
    ≡ all (λ row. not (row.game_id == "g2") || not (not_gone row.user_id)) history
is_skipped-counts_example = is_skipped-counts same tcg_feeds every_rank not_gone "g2" history

skipped_games :
    (plan_ledger_backfill
      (λ xs. xs)
      (λ xs. xs)
      (λ xs. xs)
      same
      tcg_feeds
      every_rank
      not_gone
      history).skipped_game_ids
    ≡ "g2" ∷ []
unfolding plan_ledger_backfill
skipped_games = refl

fan_out-mirrors_example :
    is_some (resolve_ranks_to_credit same tcg_feeds every_rank "2026.05 TCG") ≡ (
      is_some (every_rank "Global")
      && (◌==◌ {A = String} "2026.05 TCG" ""
          || all_resolved same tcg_feeds every_rank
              (resolve_target_names same tcg_feeds every_rank "2026.05 TCG")))
fan_out-mirrors_example = fan_out-mirrors same tcg_feeds every_rank "2026.05 TCG" refl
