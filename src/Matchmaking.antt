-- ===== src/Matchmaking.antt =====
-- src/ygopro/matchmaking/domain: who waits for a match, and what a match is. Times and delays are
-- naturals, in milliseconds. A participant's channel is not a field here: what the pool sends
-- through it is an event, and whether it is alive is an argument of the calls that ask.
pub mod Policies
pub mod Store
pub mod Pending
pub mod Pool
pub mod Protocol
mod Tests
use edopro_server_ts.Prelude.{
  ℕ, ◌+◌, ◌≡◌, ◌↔◌, String, Option, Bool, true, false, ◌&&◌, List, [], ◌∷◌, ◌++◌, arith, ltb,
  if◌then◌else◌,
}
use edopro_server_ts.Prelude.Eq.{Eq, ◌==◌, string_eq}

-- QueueEntry.ts
abbrev pub queue_ttl_ms : ℕ
queue_ttl_ms = 8000

abbrev pub bot_fallback_min_ms : ℕ
bot_fallback_min_ms = 30000

abbrev pub bot_fallback_max_ms : ℕ
bot_fallback_max_ms = 1200000

abbrev pub match_accept_timeout_ms : ℕ
match_accept_timeout_ms = 20000

abbrev pub least : ℕ → ℕ → ℕ
least a b = if ltb b a then b else a

abbrev pub greatest : ℕ → ℕ → ℕ
greatest a b = if ltb a b then b else a

pub clamp_bot_fallback_delay : ℕ → ℕ
clamp_bot_fallback_delay requested_ms =
    least bot_fallback_max_ms (greatest bot_fallback_min_ms requested_ms)

pub data Format : Type 0 where
  tcg jtp edison : Format

pub data Mode : Type 0 where
  ranked : Mode

abbrev pub formats : List Format
formats = tcg ∷ jtp ∷ edison ∷ []

abbrev pub modes : List Mode
modes = ranked ∷ []

pub data Presence : Type 0 where
  socket poll : Presence

pub data OpponentType : Type 0 where
  human bot : OpponentType

pub record Participant : Type 0 where
  pub id : String
  pub user_id : String
  pub format : Format
  pub mode : Mode
  pub display_name : Option String
  pub enqueued_at : ℕ
  pub bot_fallback_after_ms : Option ℕ
  pub supports_accept_step : Bool
  pub presence : Presence

pub record Match : Type 0 where
  pub id : String
  pub format : Format
  pub mode : Mode
  pub rated : Bool
  pub opponent_kind : OpponentType
  pub participants : List Participant

-- `matches.flatMap((match) => match.participants)`
abbrev pub participants_of : List Match → List Participant
participants_of [] = []
participants_of (m ∷ ms) = m.participants ++ participants_of ms

abbrev pub ids_of : List Participant → List String
ids_of [] = []
ids_of (p ∷ ps) = p.id ∷ ids_of ps
