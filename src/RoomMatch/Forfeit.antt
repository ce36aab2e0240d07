-- ===== src/RoomMatch/Forfeit.antt =====
-- Match.ts: `forfeit` ends the match, and awards exactly the games the winner still needs.
use edopro_server_ts.Prelude.{
  ℕ, zero, suc, ◌+◌, ◌-◌, ◌≤◌, ◌<◌, ◌≡◌, true, List, arith, if◌then◌else◌, nat_eqb,
}
use edopro_server_ts.RoomMatch.{
  Match, PlayerConnection, is_finished, count_duel, duel_winner, award, forfeit,
}
use edopro_server_ts.RoomMatch.Score.{IsValid, duel_winner-IsValid}

-- The score of team 0 or of team 1, and that of the other side.
abbrev pub score_of : ℕ → Match → ℕ
score_of team m = if nat_eqb team 0 then m.player_score else m.opponent_score

abbrev pub score_against : ℕ → Match → ℕ
score_against team m = if nat_eqb team 0 then m.opponent_score else m.player_score

-- The wins that `team` still lacks; none once the match is over.
abbrev pub missing_wins : ℕ → Match → ℕ
missing_wins team m = if is_finished m then 0 else m.need_wins - score_of team m

award_lem :
    (left team : ℕ) (ips : List PlayerConnection) (m : Match) (awarded : ℕ)
    → IsValid m
    → team < 2
    → missing_wins team m ≤ left
    → let r = award left team ips m awarded in
      (is_finished r.0 ≡ true)
      × (r.1 ≡ awarded + missing_wins team m)
      × (score_of team r.0 ≡ score_of team m + missing_wins team m)
      × (score_against team r.0 ≡ score_against team m)
unfolding award is_finished duel_winner count_duel
award_lem zero team ips m awarded v h k = ground arith
award_lem (suc left) team ips m awarded v h k = ground (
  arith,
  award_lem left team ips (duel_winner team 0 ips m) (awarded + 1)
      (duel_winner-IsValid team 0 ips m v) h,
)

missing_wins-le : (team : ℕ) (m : Match) → IsValid m → missing_wins team m ≤ m.best_of
unfolding is_finished
missing_wins-le team m v = ground arith

-- A forfeit in favour of team 0 or 1 ends a valid match: it awards the wins that the team still
-- lacks (none if the match was over), adds them to that team's score, and leaves the other score
-- alone.
pub forfeit_decides :
    (team : ℕ) (ips : List PlayerConnection) (m : Match)
    → IsValid m
    → team < 2
    → let r = forfeit team ips m in
      (is_finished r.0 ≡ true)
      × (r.1 ≡ missing_wins team m)
      × (score_of team r.0 ≡ score_of team m + missing_wins team m)
      × (score_against team r.0 ≡ score_against team m)
unfolding forfeit
forfeit_decides team ips m v h =
    let (over, awarded, score, other) =
      award_lem m.best_of team ips m 0 v h (missing_wins-le team m v) in
    (over, omega (arith, awarded), score, other)
