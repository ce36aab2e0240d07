-- ===== src/Matchmaking/Policies.antt =====
-- FifoPairingPolicy.ts, BotFallbackPolicy.ts and CompositePairingPolicy.ts. `randomUUID` is a
-- parameter: the id that it returns on its n-th call. A policy is given the number of ids drawn
-- before it, and draws one for each match it forms.
pub mod Fifo
pub mod Composite
use edopro_server_ts.Prelude.{
  ℕ, ◌+◌, ◌≤◌, String, Option, none, some, Bool, true, false, not, List, [], ◌∷◌, ◌++◌, length,
  filter, leb, if◌then◌else◌,
}
use edopro_server_ts.Prelude.Eq.{contains, string_eq}
use edopro_server_ts.Matchmaking.{
  Participant, Match, human, bot, participants_of, ids_of, clamp_bot_fallback_delay,
}

abbrev pub PairingPolicy : Type 0
PairingPolicy = ℕ → List Participant → ℕ → List Match

-- `[...candidates].sort((a, b) => a.enqueuedAt - b.enqueuedAt)`, a stable sort.
unfoldable pub place : Participant → List Participant → List Participant
place p [] = p ∷ []
place p (q ∷ qs) = if leb p.enqueued_at q.enqueued_at then p ∷ q ∷ qs else q ∷ place p qs

unfoldable pub sort_by_time : List Participant → List Participant
unfolding place
sort_by_time [] = []
sort_by_time (p ∷ ps) = place p (sort_by_time ps)

-- `botFallbackAfterMs` is set and the wait is longer than the clamped delay.
pub has_waited_out : ℕ → Participant → Bool
unfolding clamp_bot_fallback_delay
has_waited_out now p = elim p.bot_fallback_after_ms [
  | none ↦ false
  | some delay ↦ not (leb now (p.enqueued_at + clamp_bot_fallback_delay delay))
]

module _ (new_match_id : ℕ → String) where
  abbrev pub human_match : ℕ → Participant → Participant → Match
  human_match n first second = record {
    id = new_match_id n;
    format = first.format;
    mode = first.mode;
    rated = true;
    opponent_kind = human;
    participants = first ∷ second ∷ [];
  }

  abbrev pub bot_match : ℕ → Participant → Match
  bot_match n p = record {
    id = new_match_id n;
    format = p.format;
    mode = p.mode;
    rated = false;
    opponent_kind = bot;
    participants = p ∷ [];
  }

  -- The loop of `FifoPairingPolicy.pair`, two at a time.
  pub pair_up : ℕ → List Participant → List Match
  pair_up n [] = []
  pair_up n (p ∷ []) = []
  pair_up n (p ∷ q ∷ rest) = human_match n p q ∷ pair_up (n + 1) rest

  pub fifo_pairing : PairingPolicy
  unfolding sort_by_time pair_up
  fifo_pairing n candidates now = pair_up n (sort_by_time candidates)

  -- The loop of `BotFallbackPolicy.pair`.
  pub bot_matches : ℕ → List Participant → ℕ → List Match
  unfolding has_waited_out
  bot_matches n [] now = []
  bot_matches n (p ∷ ps) now = elim (has_waited_out now p) [
    | false ↦ bot_matches n ps now
    | true ↦ bot_match n p ∷ bot_matches (n + 1) ps now
  ]

  pub bot_fallback : Bool → PairingPolicy
  unfolding bot_matches
  bot_fallback bot_available n candidates now =
      if not bot_available then [] else bot_matches n candidates now

-- The candidates whose id is in none of the matches.
abbrev pub unmatched : List Match → List Participant → List Participant
unmatched ms = filter (λ (p : Participant). not (contains p.id (ids_of (participants_of ms))))

-- `CompositePairingPolicy.pair`
pub composite_pairing : List PairingPolicy → PairingPolicy
composite_pairing [] n remaining now = []
composite_pairing (policy ∷ policies) n remaining now = elim (policy n remaining now) [
  | [] ↦ composite_pairing policies n remaining now
  | m ∷ ms ↦
      (m ∷ ms)
      ++ composite_pairing policies (n + length (m ∷ ms)) (unmatched (m ∷ ms) remaining) now
]
