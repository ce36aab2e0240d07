-- ===== src/RoomMatch.antt =====
-- shared/room/domain/match/domain/Match.ts: the score of a best-of match and its per-player games.
-- Teams and turns are naturals; `ipAddress ?? null` and `client ?? null` are `Option`s. A method
-- that mutates the match returns the new match.
pub mod Score
pub mod History
pub mod Forfeit
mod Tests
use edopro_server_ts.Prelude.{
  ℕ, zero, suc, ◌+◌, ◌/◌, String, Option, none, some, Bool, true, false, ◌&&◌, ◌||◌, List, [], ◌∷◌,
  ◌++◌, map, leb, ltb, nat_eqb, if◌then◌else◌, find?, any, length,
}
use edopro_server_ts.Prelude.Eq.{◌==◌, nat_eq, string_eq}

pub data GameResult : Type 0 where
  won lost deuce : GameResult

pub record Game : Type 0 where
  pub result : GameResult
  pub turns : ℕ
  pub ip_address : Option String
  pub client : Option String

pub record Player : Type 0 where
  pub id : Option String
  pub name : String
  pub team : ℕ

-- `Player & MatchHistory`
pub record PlayerHistory : Type 0 where
  pub player : Player
  pub open player use *
  pub games : List Game

pub record PlayerConnection : Type 0 where
  pub name : String
  pub ip_address : Option String
  pub client : Option String

-- `PlayerData`
pub record PlayerData : Type 0 where
  pub history : PlayerHistory
  pub open history use *
  pub winner : Bool
  pub score : ℕ

pub record Match : Type 0 where
  pub player_score : ℕ
  pub opponent_score : ℕ
  pub best_of : ℕ
  pub need_wins : ℕ
  pub players : List PlayerHistory

abbrev pub draw : ℕ
draw = 2

-- `Team.PLAYER`
abbrev pub team_player : ℕ
team_player = 0

-- `Math.ceil(bestOf / 2)`
abbrev pub half_up : ℕ → ℕ
half_up n = (n + 1) / 2

pub new_match : ℕ → Match
new_match best_of = record {
  player_score = 0;
  opponent_score = 0;
  best_of = best_of;
  need_wins = half_up best_of;
  players = [];
}

abbrev pub empty_history : Player → PlayerHistory
empty_history p = record { player = p; games = [] }

pub initialize_historical_data : Match → List Player → Match
initialize_historical_data m ps = record m { players = map empty_history ps }

unfoldable pub is_finished : Match → Bool
is_finished m = leb m.need_wins m.opponent_score || leb m.need_wins m.player_score

abbrev pub result_for : ℕ → ℕ → GameResult
result_for winner team = if winner == draw then deuce else if team == winner then won else lost

abbrev pub connection_of : List PlayerConnection → String → Option PlayerConnection
connection_of ips name = find? (λ (data' : PlayerConnection). data'.name == name) ips

abbrev pub ip_address_of : Option PlayerConnection → Option String
ip_address_of none = none
ip_address_of (some c) = c.ip_address

abbrev pub client_of : Option PlayerConnection → Option String
client_of none = none
client_of (some c) = c.client

-- The game that `duelWinner` pushes for a player.
abbrev pub game_for : ℕ → ℕ → Option PlayerConnection → ℕ → Game
game_for winner turns connection team = record {
  result = result_for winner team;
  turns = turns;
  ip_address = ip_address_of connection;
  client = client_of connection;
}

-- The body of the `forEach` of `duelWinner`.
pub record_game : ℕ → ℕ → List PlayerConnection → PlayerHistory → PlayerHistory
record_game winner turns ips p = record p {
  games = p.games ++ game_for winner turns (connection_of ips p.name) p.team ∷ [];
}

-- The part of `duelWinner` below the `forEach`.
pub count_duel : ℕ → Match → Match
count_duel winner m =
    if is_finished m
    then m
    else if winner == draw
    then m
    else if winner == 0
    then record m { player_score = m.player_score + 1 }
    else record m { opponent_score = m.opponent_score + 1 }

pub duel_winner : ℕ → ℕ → List PlayerConnection → Match → Match
unfolding count_duel record_game
duel_winner winner turns ips m =
    count_duel winner (record m { players = map (record_game winner turns ips) m.players })

-- The loop of `forfeit`: the first argument is `bestOf - awarded`, the rounds left.
pub award : ℕ → ℕ → List PlayerConnection → Match → ℕ → Match × ℕ
award zero winner_team ips m awarded = (m, awarded)
award (suc left) winner_team ips m awarded = elim (is_finished m) [
  | true ↦ (m, awarded)
  | false ↦ award left winner_team ips (duel_winner winner_team 0 ips m) (awarded + 1)
]

pub forfeit : ℕ → List PlayerConnection → Match → Match × ℕ
forfeit winner_team ips m = award m.best_of winner_team ips m 0

pub winner_team : Match → ℕ
winner_team m = if ltb m.opponent_score m.player_score then 0 else 1

pub player_data : Match → PlayerHistory → PlayerData
unfolding winner_team
player_data m p = record {
  history = p;
  winner = winner_team m == p.team;
  score = if p.team == team_player then m.player_score else m.opponent_score;
}

pub players_history : Match → List PlayerData
unfolding player_data
players_history m = map (player_data m) m.players

pub is_first_duel : Match → Bool
is_first_duel m = m.player_score == 0 && m.opponent_score == 0

pub has_played_any_duel : Match → Bool
has_played_any_duel m = any (λ (p : PlayerHistory). ltb 0 (length p.games)) m.players
