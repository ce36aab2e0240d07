-- ===== src/Matchmaking/Pending.antt =====
-- PendingMatches.ts: the matches that wait for their participants to accept.
use edopro_server_ts.Prelude.{
  ℕ, String, Option, none, some, Bool, not, List, [], ◌∷◌, filter, find?,
}
use edopro_server_ts.Prelude.Eq.{◌==◌, string_eq}
use edopro_server_ts.Prelude.Dict.{insert}
use edopro_server_ts.Matchmaking.{Participant, Match, ids_of}

pub record PendingMatch : Type 0 where
  pub pairing : Match
  pub deadline : ℕ
  pub accepted : List String

pub record PendingParticipant : Type 0 where
  pub pending : PendingMatch
  pub participant : Participant

-- `byMatchId`
abbrev pub PendingMatches : Type 0
PendingMatches = List (String × PendingMatch)

abbrev pub pend : Match → ℕ → PendingMatch
pend m deadline = record {
  pairing = m;
  deadline = deadline;
  accepted = ids_of (filter (λ (p : Participant). not p.supports_accept_step) m.participants);
}

unfoldable pub add : Match → ℕ → PendingMatches → PendingMatches
unfolding insert
add m deadline book = insert m.id (pend m deadline) book

-- `[...values()]`
abbrev pub all : PendingMatches → List PendingMatch
all [] = []
all ((id, pending) ∷ book) = pending ∷ all book

-- `find`, by a test of the participants.
unfoldable pub find : (Participant → Bool) → PendingMatches → Option PendingParticipant
find test [] = none
find test ((id, pending) ∷ book) = elim (find? test pending.pairing.participants) [
  | none ↦ find test book
  | some p ↦ some (record { pending = pending; participant = p })
]

abbrev pub find_by_participant_id : String → PendingMatches → Option PendingParticipant
find_by_participant_id id = find (λ (p : Participant). p.id == id)

abbrev pub find_by_user_id : String → PendingMatches → Option PendingParticipant
find_by_user_id user_id = find (λ (p : Participant). p.user_id == user_id)
