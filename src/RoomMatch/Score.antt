-- ===== src/RoomMatch/Score.antt =====
-- Match.ts: what the score of a best-of match can be, after any calls of its methods.
use edopro_server_ts.Prelude.{
  ℕ, zero, suc, ◌+◌, ◌*◌, ◌≤◌, ◌<◌, ◌≡◌, refl, ap, ◌∙◌, ◌⊎◌, List, [], ◌∷◌, arith,
}
use edopro_server_ts.RoomMatch.{
  Match, Player, PlayerConnection, half_up, new_match, initialize_historical_data, is_finished,
  count_duel, duel_winner, award, forfeit,
}

-- No side passes the wins it needs, and both never have them.
pub record IsValid (m : Match) : Type 0 where
  pub needed : m.need_wins ≡ half_up m.best_of
  pub player_within : m.player_score ≤ m.need_wins
  pub opponent_within : m.opponent_score ≤ m.need_wins
  pub one_winner : (m.need_wins ≡ 0) ⊎ (m.player_score + m.opponent_score < 2 * m.need_wins)

pub new_match-IsValid : (best_of : ℕ) → IsValid (new_match best_of)
unfolding new_match
new_match-IsValid best_of = ground arith

pub duel_winner-IsValid :
    (winner turns : ℕ) (ips : List PlayerConnection) (m : Match)
    → IsValid m
    → IsValid (duel_winner winner turns ips m)
unfolding duel_winner count_duel is_finished
duel_winner-IsValid winner turns ips m v = ground arith

pub award-IsValid :
    (left team : ℕ) (ips : List PlayerConnection) (m : Match) (awarded : ℕ)
    → IsValid m
    → IsValid (award left team ips m awarded).0
unfolding award
award-IsValid zero team ips m awarded v = v
award-IsValid (suc left) team ips m awarded v = ground (
  arith,
  award-IsValid left team ips (duel_winner team 0 ips m) (awarded + 1),
  duel_winner-IsValid team 0 ips m,
)

-- The calls that a room makes on its match.
pub data Call : Type 0 where
  initializes : List Player → Call
  duels : ℕ → ℕ → List PlayerConnection → Call
  forfeits : ℕ → List PlayerConnection → Call

pub step : Match → Call → Match
step m (initializes ps) = initialize_historical_data m ps
step m (duels winner turns ips) = duel_winner winner turns ips m
step m (forfeits team ips) = (forfeit team ips m).0

pub run : Match → List Call → Match
run m [] = m
run m (c ∷ cs) = run (step m c) cs

pub step-IsValid : (m : Match) (c : Call) → IsValid m → IsValid (step m c)
unfolding step initialize_historical_data forfeit
step-IsValid m (initializes ps) v = ground arith
step-IsValid m (duels winner turns ips) v = duel_winner-IsValid winner turns ips m v
step-IsValid m (forfeits team ips) v = award-IsValid m.best_of team ips m 0 v

pub run-IsValid : (m : Match) (cs : List Call) → IsValid m → IsValid (run m cs)
unfolding run
run-IsValid m [] v = v
run-IsValid m (c ∷ cs) v = run-IsValid (step m c) cs (step-IsValid m c v)

best_of-award :
    (left team : ℕ) (ips : List PlayerConnection) (m : Match) (awarded : ℕ)
    → (award left team ips m awarded).0.best_of ≡ m.best_of
unfolding award duel_winner count_duel
best_of-award zero team ips m awarded = refl
best_of-award (suc left) team ips m awarded =
    ground (arith, best_of-award left team ips (duel_winner team 0 ips m) (awarded + 1))

best_of-step : (m : Match) (c : Call) → (step m c).best_of ≡ m.best_of
unfolding step initialize_historical_data duel_winner count_duel forfeit
best_of-step m (initializes ps) = refl
best_of-step m (duels winner turns ips) = ground arith
best_of-step m (forfeits team ips) = best_of-award m.best_of team ips m 0

best_of-run : (m : Match) (cs : List Call) → (run m cs).best_of ≡ m.best_of
unfolding run
best_of-run m [] = refl
best_of-run m (c ∷ cs) = best_of-run (step m c) cs ∙ best_of-step m c

best_of-new_match : (best_of : ℕ) → (new_match best_of).best_of ≡ best_of
unfolding new_match
best_of-new_match best_of = refl

-- Whatever calls are made on a new match of at least one game, neither score passes half of
-- bestOf rounded up, and the two scores never both reach it.
pub run-new_match-bounds :
    (best_of : ℕ) (cs : List Call)
    → 0 < best_of
    → let m = run (new_match best_of) cs in
      (m.player_score ≤ half_up best_of)
      × (m.opponent_score ≤ half_up best_of)
      × (m.player_score + m.opponent_score < 2 * half_up best_of)
run-new_match-bounds best_of cs h =
    let v = run-IsValid (new_match best_of) cs (new_match-IsValid best_of) in
    let e = best_of-run (new_match best_of) cs ∙ best_of-new_match best_of in
    let n = v.needed ∙ ap half_up e in omega (arith, v, e, n)
