-- ===== src/Matchmaking/Pool/Answers.antt =====
-- MatchmakingPool.ts: `remove`, `dequeueBySocketId`, `isQueued`, and the answers to a proposed match.
use edopro_server_ts.Prelude.{
  ℕ, String, Option, none, some, Bool, true, false, not, ◌&&◌, ◌||◌, [], ◌∷◌, all, any, find?, ltb,
  if◌then◌else◌,
}
use edopro_server_ts.Prelude.Eq.{◌==◌, string_eq, contains}
use edopro_server_ts.Prelude.Dict.{get, insert, delete}
use edopro_server_ts.Matchmaking.{Participant, Match}
use edopro_server_ts.Matchmaking.Store
use edopro_server_ts.Matchmaking.Store.{set_add, set_delete}
use edopro_server_ts.Matchmaking.Pending
use edopro_server_ts.Matchmaking.Pending.{PendingMatch, PendingParticipant}
use edopro_server_ts.Matchmaking.Pool.{
  MatchmakingPool, Result, done, and_then, QueueExitOutcome, cancelled, dequeued, matched_human,
  declined, report, log_exits, handled, closed, match_declined, remove_by_id_and_log, abandon,
}

pub data MatchResponseOutcome : Type 0 where
  answer_accepted answer_declined answer_requeued unknown_match : MatchResponseOutcome

-- `leavePending`
unfoldable pub leave_pending : ℕ → String → QueueExitOutcome → MatchmakingPool → Result Bool
unfolding Pending.find abandon
leave_pending now id outcome s = elim (Pending.find_by_participant_id id s.pending) [
  | none ↦ done false s
  | some found ↦
      and_then (abandon now found.pending (found.participant ∷ []) outcome s) (λ _ t. done true t)
]

unfoldable pub remove : ℕ → String → MatchmakingPool → Result Unit
unfolding remove_by_id_and_log leave_pending
remove now id s =
    let (removed, t) = remove_by_id_and_log now id cancelled s in
    if removed then done tt t else and_then (leave_pending now id cancelled t) (λ _ u. done tt u)

unfoldable pub dequeue_by_socket_id : ℕ → String → MatchmakingPool → Result Bool
unfolding remove_by_id_and_log leave_pending
dequeue_by_socket_id now id s =
    let (removed, t) = remove_by_id_and_log now id dequeued s in
    if removed then done true t else leave_pending now id declined t

abbrev pub is_present : {A : Type 0} → Option A → Bool
is_present none = false
is_present (some _) = true

unfoldable pub is_queued : String → MatchmakingPool → Bool
unfolding Store.lookup Pending.find
is_queued id s =
    is_present (Store.lookup id s.store) || is_present (Pending.find_by_participant_id id s.pending)

abbrev pub is_in : String → Match → Bool
is_in id m = any (λ (p : Participant). p.id == id) m.participants

-- `findLivePending`
unfoldable pub find_live_pending : ℕ → String → String → MatchmakingPool → Option PendingMatch
unfolding get
find_live_pending now match_id participant_id s = elim (get match_id s.pending) [
  | none ↦ none
  | some pending ↦
      if not (ltb now pending.deadline)
      then none
      else if is_in participant_id pending.pairing
      then some pending
      else none
]

-- `wasRequeuedFrom`
unfoldable pub was_requeued_from : ℕ → String → String → MatchmakingPool → Bool
unfolding get
was_requeued_from now match_id participant_id s = elim (get match_id s.requeued_by_match_id) [
  | none ↦ false
  | some r ↦ ltb now r.until && contains participant_id r.ids
]

abbrev pub dispatch : ℕ → Match → MatchmakingPool → MatchmakingPool
dispatch now m s = report (handled m) (log_exits now m.participants matched_human s)

abbrev pub accepted_by : String → PendingMatch → PendingMatch
accepted_by id pending = record pending { accepted = set_add id pending.accepted }

abbrev pub all_accepted : PendingMatch → Bool
all_accepted pending =
    all (λ (p : Participant). contains p.id pending.accepted) pending.pairing.participants

unfoldable pub accept :
    ℕ → String → String → MatchmakingPool → MatchResponseOutcome × MatchmakingPool
unfolding find_live_pending was_requeued_from insert delete
accept now match_id participant_id s = elim (find_live_pending now match_id participant_id s) [
  | none ↦ (
    if was_requeued_from now match_id participant_id s then answer_requeued else unknown_match,
    s,
  )
  | some found ↦
      let pending = accepted_by participant_id found in
      let noted = record s { pending = insert match_id pending s.pending } in
      (
        answer_accepted,
        if all_accepted pending
            then dispatch now pending.pairing
                (record noted { pending = delete match_id noted.pending })
            else noted,
      )
]

-- The queued participant with the id, or else the one in a pending match.
abbrev pub queued_or_pending : Option Participant → Option PendingParticipant → Option Participant
queued_or_pending (some p) found = some p
queued_or_pending none none = none
queued_or_pending none (some found) = some found.participant

-- `record.ids.delete(participantId)`
abbrev pub answered : String → String → MatchmakingPool → MatchmakingPool
answered match_id participant_id s = elim (get match_id s.requeued_by_match_id) [
  | none ↦ s
  | some r ↦ record s {
    requeued_by_match_id =
        insert match_id (record r { ids = set_delete participant_id r.ids }) s.requeued_by_match_id;
  }
]

unfoldable pub decline_after_requeue :
    ℕ → String → String → MatchmakingPool → Result MatchResponseOutcome
unfolding was_requeued_from remove_by_id_and_log leave_pending Store.lookup Pending.find
decline_after_requeue now match_id participant_id s =
    if not (was_requeued_from now match_id participant_id s)
    then done unknown_match s
    else let t = answered match_id participant_id s in
      elim (queued_or_pending (Store.lookup participant_id t.store)
        (Pending.find_by_participant_id participant_id t.pending)) [
          | none ↦ done unknown_match t
          | some p ↦
              let (removed, u) = remove_by_id_and_log now participant_id declined t in
              and_then
                (if removed then done true u else leave_pending now participant_id declined u)
                (λ _ v. done answer_declined (report (closed p.id match_declined) v))
        ]

unfoldable pub decline : ℕ → String → String → MatchmakingPool → Result MatchResponseOutcome
unfolding find_live_pending decline_after_requeue abandon
decline now match_id participant_id s = elim (find_live_pending now match_id participant_id s) [
  | none ↦ decline_after_requeue now match_id participant_id s
  | some pending ↦
      elim (find? (λ (p : Participant). p.id == participant_id) pending.pairing.participants) [
        | none ↦ done answer_declined s
        | some decliner ↦
            and_then (abandon now pending (decliner ∷ []) declined s)
              (λ _ t. done answer_declined (report (closed decliner.id match_declined) t))
      ]
]
