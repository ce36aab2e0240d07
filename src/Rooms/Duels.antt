-- ===== src/Rooms/Duels.antt =====
-- shared/room/Duel.ts: the turn and the life points of a duel. The engine's values are not negative,
-- so that the life points, which stop at 0, are naturals.
use edopro_server_ts.Prelude.{ℕ, ◌+◌, ◌-◌, Bool, true, false, if◌then◌else◌, nat_eqb}

pub record Duel : Type 0 where
  pub turn : ℕ
  pub lp0 : ℕ
  pub lp1 : ℕ
  pub is_finished : Bool

abbrev pub new_duel : ℕ → ℕ → ℕ → Duel
new_duel turn lp0 lp1 = record { turn = turn; lp0 = lp0; lp1 = lp1; is_finished = false }

abbrev pub increase_turn : Duel → Duel
increase_turn duel = record duel { turn = duel.turn + 1 }

-- The life points of a team other than the two stay as they are.
unfoldable pub decrease_lps : ℕ → ℕ → Duel → Duel
decrease_lps team value duel =
    if nat_eqb team 0
    then record duel { lp0 = duel.lp0 - value }
    else (if nat_eqb team 1 then record duel { lp1 = duel.lp1 - value } else duel)

unfoldable pub increase_lps : ℕ → ℕ → Duel → Duel
increase_lps team value duel =
    if nat_eqb team 0
    then record duel { lp0 = duel.lp0 + value }
    else (if nat_eqb team 1 then record duel { lp1 = duel.lp1 + value } else duel)

abbrev pub finished : Duel → Duel
finished duel = record duel { is_finished = true }
