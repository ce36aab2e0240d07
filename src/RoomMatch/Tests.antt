-- ===== src/RoomMatch/Tests.antt =====
-- Match.ts at concrete inputs: a best of three between two named players.
use edopro_server_ts.Prelude.{
  ◌≤◌, ◌<◌, ◌*◌, ◌+◌, ◌≡◌, refl, true, none, some, List, [], ◌∷◌, arith, All, inr,
}
use edopro_server_ts.RoomMatch.{
  Match, Player, PlayerConnection, new_match, initialize_historical_data, is_finished, duel_winner,
  forfeit, players_history, half_up, award,
}
use edopro_server_ts.RoomMatch.Score.{Call, duels, run, run-new_match-bounds, new_match-IsValid}
use edopro_server_ts.RoomMatch.Forfeit.{score_of, score_against, missing_wins, forfeit_decides}
use edopro_server_ts.RoomMatch.History.{
  AllTallied, IsShown, play, forfeit-AllTallied, players_history-IsShown,
}

abbrev jaden : Player
jaden = record { id = none; name = "Jaden"; team = 0 }

abbrev chazz : Player
chazz = record { id = some "u2"; name = "Chazz"; team = 1 }

abbrev chazz_connection : PlayerConnection
chazz_connection = record { name = "Chazz"; ip_address = some "10.0.0.2"; client = some "edopro" }

abbrev connections : List PlayerConnection
connections = chazz_connection ∷ []

abbrev fresh : Match
fresh = initialize_historical_data (new_match 3) (jaden ∷ chazz ∷ [])

abbrev one_one : List Call
one_one = duels 0 9 [] ∷ duels 2 30 [] ∷ duels 1 4 connections ∷ []

run-new_match-bounds_example :
    let m = run (new_match 3) one_one in
    (m.player_score ≤ half_up 3)
    × (m.opponent_score ≤ half_up 3)
    × (m.player_score + m.opponent_score < 2 * half_up 3)
run-new_match-bounds_example = run-new_match-bounds 3 one_one (omega arith)

forfeit_decides_example :
    let r = forfeit 1 connections (new_match 3) in
    (is_finished r.0 ≡ true)
    × (r.1 ≡ missing_wins 1 (new_match 3))
    × (score_of 1 r.0 ≡ score_of 1 (new_match 3) + missing_wins 1 (new_match 3))
    × (score_against 1 r.0 ≡ score_against 1 (new_match 3))
forfeit_decides_example =
    forfeit_decides 1 connections (new_match 3) (new_match-IsValid 3) (omega arith)

forfeit-AllTallied_example :
    let m = play fresh ((0, 9, []) ∷ (2, 30, []) ∷ []) in
    AllTallied m × AllTallied (forfeit 1 connections m).0
unfolding duel_winner is_finished new_match initialize_historical_data
forfeit-AllTallied_example =
    forfeit-AllTallied 3 (jaden ∷ chazz ∷ []) ((0, 9, []) ∷ (2, 30, []) ∷ []) 1 connections
      (ground arith) (omega arith)

abbrev chazz_won : Match
chazz_won = record {
  player_score = 1;
  opponent_score = 2;
  best_of = 3;
  need_wins = 2;
  players = record { player = jaden; games = [] } ∷ record { player = chazz; games = [] } ∷ [];
}

chazz_won-IsShown : All (IsShown chazz_won) (players_history chazz_won)
unfolding is_finished
chazz_won-IsShown =
    players_history-IsShown chazz_won
      (record {
        needed = refl;
        player_within = omega arith;
        opponent_within = omega arith;
        one_winner = inr (omega arith);
      })
      (omega arith) refl (omega arith)

forfeit_awards_the_rest : (forfeit 1 connections fresh).1 ≡ 2
unfolding forfeit award is_finished duel_winner new_match initialize_historical_data
forfeit_awards_the_rest = refl
