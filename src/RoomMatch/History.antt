-- ===== src/RoomMatch/History.antt =====
-- Match.ts: the recorded games agree with the score, also after a forfeit.
use edopro_server_ts.Prelude.{
  leb, inl, inr, Bool-cases, ℕ, zero, suc, ◌+◌, ◌≤◌, ◌<◌, ◌≡◌, ◌⊎◌, Bool, true, false, List, [],
  ◌∷◌, ◌++◌, map, arith, nat_eqb, count_if, count_if-append, All, if◌then◌else◌,
}
use edopro_server_ts.RoomMatch.{
  won, lost, deuce, Game, Player, PlayerHistory, PlayerConnection, PlayerData, Match, new_match,
  initialize_historical_data, is_finished, record_game, count_duel, game_for, connection_of,
  duel_winner, award, forfeit, winner_team, player_data, players_history, empty_history,
}
use edopro_server_ts.RoomMatch.Score.{IsValid}

abbrev pub is_won : Game → Bool
is_won g = elim g.result [ won ↦ true | lost ↦ false | deuce ↦ false ]

abbrev pub is_lost : Game → Bool
is_lost g = elim g.result [ won ↦ false | lost ↦ true | deuce ↦ false ]

-- The games that a player's record counts as won and as lost.
abbrev pub wins : PlayerHistory → ℕ
wins p = count_if is_won p.games

abbrev pub losses : PlayerHistory → ℕ
losses p = count_if is_lost p.games

-- The record of a player of team 0 or 1 shows the two scores.
abbrev pub IsTallied : ℕ → ℕ → PlayerHistory → Type 0
IsTallied own other p =
    ((p.team ≡ 0) × (wins p ≡ own) × (losses p ≡ other))
    ⊎ ((p.team ≡ 1) × (wins p ≡ other) × (losses p ≡ own))
    ⊎ (1 < p.team)

abbrev pub AllTallied : Match → Type 0
AllTallied m = All (IsTallied m.player_score m.opponent_score) m.players

-- The change of the scores by a duel that `winner` won (2 is a draw).
abbrev gain : ℕ → ℕ → ℕ
gain winner team = if nat_eqb winner team then 1 else 0

count_if-snoc :
    (q : Game → Bool) (gs : List Game) (g : Game)
    → count_if q (gs ++ g ∷ []) ≡ count_if q gs + (if q g then 1 else 0)
count_if-snoc q gs g = omega (arith, count_if-append q gs (g ∷ []))

record_game-IsTallied :
    (winner turns : ℕ) (ips : List PlayerConnection) (own other : ℕ) (p : PlayerHistory)
    → winner ≤ 2
    → IsTallied own other p
    → IsTallied (own + gain winner 0) (other + gain winner 1) (record_game winner turns ips p)
unfolding record_game
record_game-IsTallied winner turns ips own other p h t =
    let g = game_for winner turns (connection_of ips p.name) p.team in
    ground (arith, count_if-snoc is_won p.games g, count_if-snoc is_lost p.games g, t)

record_games-IsTallied :
    (winner turns : ℕ) (ips : List PlayerConnection) (own other : ℕ) (ps : List PlayerHistory)
    → winner ≤ 2
    → All (IsTallied own other) ps
    → All
        (IsTallied (own + gain winner 0) (other + gain winner 1))
        (map (record_game winner turns ips) ps)
record_games-IsTallied winner turns ips own other [] h t = tt
record_games-IsTallied winner turns ips own other (p ∷ ps) h (t, ts) = (
  record_game-IsTallied winner turns ips own other p h t,
  record_games-IsTallied winner turns ips own other ps h ts,
)

-- A duel played while the match is open moves the score as it moves the records.
scores-duel_winner :
    (winner turns : ℕ) (ips : List PlayerConnection) (m : Match)
    → winner ≤ 2
    → is_finished m ≡ false
    → ((duel_winner winner turns ips m).player_score ≡ m.player_score + gain winner 0)
      × ((duel_winner winner turns ips m).opponent_score ≡ m.opponent_score + gain winner 1)
      × ((duel_winner winner turns ips m).players ≡ map (record_game winner turns ips) m.players)
unfolding duel_winner count_duel is_finished
scores-duel_winner winner turns ips m h e = ground arith

pub duel_winner-AllTallied :
    (winner turns : ℕ) (ips : List PlayerConnection) (m : Match)
    → winner ≤ 2
    → is_finished m ≡ false
    → AllTallied m
    → AllTallied (duel_winner winner turns ips m)
duel_winner-AllTallied winner turns ips m h e t =
    let (own, other, records) = scores-duel_winner winner turns ips m h e in
    rw (own, other, records)
      (record_games-IsTallied winner turns ips m.player_score m.opponent_score m.players h t)

award-AllTallied :
    (left team : ℕ) (ips : List PlayerConnection) (m : Match) (awarded : ℕ)
    → team ≤ 2
    → AllTallied m
    → AllTallied (award left team ips m awarded).0
unfolding award
award-AllTallied zero team ips m awarded h t = t
award-AllTallied (suc left) team ips m awarded h t = elim (Bool-cases (is_finished m)) [
  | inl over ↦ rw (over, award) t
  | inr open_match ↦
      rw (open_match, award)
        (award-AllTallied left team ips (duel_winner team 0 ips m) (awarded + 1) h
          (duel_winner-AllTallied team 0 ips m h open_match t))
]

-- The duels of a match in order: the winning team (2 for a draw), the turns and the connections.
pub play : Match → List (ℕ × ℕ × List PlayerConnection) → Match
play m [] = m
play m ((winner, turns, ips) ∷ duels) = play (duel_winner winner turns ips m) duels

-- Every duel is played while the match is still open, and is won by a team or drawn.
abbrev pub IsPlayable : Match → List (ℕ × ℕ × List PlayerConnection) → Type 0
IsPlayable m [] = Unit
IsPlayable m ((winner, turns, ips) ∷ duels) =
    (winner ≤ 2) × (is_finished m ≡ false) × IsPlayable (duel_winner winner turns ips m) duels

play-AllTallied :
    (m : Match) (duels : List (ℕ × ℕ × List PlayerConnection))
    → IsPlayable m duels
    → AllTallied m
    → AllTallied (play m duels)
unfolding play
play-AllTallied m [] h t = t
play-AllTallied m ((winner, turns, ips) ∷ duels) (w, e, h) t =
    play-AllTallied (duel_winner winner turns ips m) duels h
      (duel_winner-AllTallied winner turns ips m w e t)

empty_histories-AllTallied : (ps : List Player) → All (IsTallied 0 0) (map empty_history ps)
empty_histories-AllTallied [] = tt
empty_histories-AllTallied (p ∷ ps) = (ground arith, empty_histories-AllTallied ps)

-- Play any duels of a new match between its players, each while the match is open, and then let
-- either side forfeit: every player's recorded wins and losses are the two final scores, also
-- those that the forfeit awarded.
pub forfeit-AllTallied :
    (best_of : ℕ) (ps : List Player) (duels : List (ℕ × ℕ × List PlayerConnection)) (team : ℕ)
    (ips : List PlayerConnection)
    → IsPlayable (initialize_historical_data (new_match best_of) ps) duels
    → team ≤ 2
    → let m = play (initialize_historical_data (new_match best_of) ps) duels in
      AllTallied m × AllTallied (forfeit team ips m).0
unfolding forfeit initialize_historical_data new_match
forfeit-AllTallied best_of ps duels team ips h w =
    let m = play (initialize_historical_data (new_match best_of) ps) duels in
    let t =
      play-AllTallied (initialize_historical_data (new_match best_of) ps) duels h
        (empty_histories-AllTallied ps) in
    (t, award-AllTallied m.best_of team ips m 0 w t)

-- The flag and the score that `playersHistory` gives a player.
abbrev pub IsShown : Match → PlayerData → Type 0
IsShown m d = d.winner ≡ leb m.need_wins d.score

module _ (m : Match) (v : IsValid m) (h : 0 < m.need_wins) (e : is_finished m ≡ true) where
  player_data-IsShown : (p : PlayerHistory) → p.team < 2 → IsShown m (player_data m p)
  unfolding player_data winner_team is_finished
  player_data-IsShown p t = ground (arith, v, h, e)

  player_datas-IsShown :
      (ps : List PlayerHistory)
      → All (λ p. p.team < 2) ps
      → All (IsShown m) (map (player_data m) ps)
  player_datas-IsShown [] ts = tt
  player_datas-IsShown (p ∷ ps) (t, ts) = (player_data-IsShown p t, player_datas-IsShown ps ts)

-- In a finished valid match of at least one game, all of whose players are of team 0 or 1,
-- `playersHistory` marks a player as winner exactly if the score it shows for the player has
-- reached the wins needed.
pub players_history-IsShown :
    (m : Match)
    → IsValid m
    → 0 < m.need_wins
    → is_finished m ≡ true
    → All (λ p. p.team < 2) m.players
    → All (IsShown m) (players_history m)
unfolding players_history
players_history-IsShown m v h e t = player_datas-IsShown m v h e m.players t
