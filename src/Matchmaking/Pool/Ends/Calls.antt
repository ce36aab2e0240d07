-- ===== src/Matchmaking/Pool/Ends/Calls.antt =====
-- The calls that participants make of the pool: leaving it, and answering a proposed match.
use edopro_server_ts.Prelude.{
  ℕ, ◌≡◌, refl, sym, ap, subst, ◌∙◌, String, some, true, [], ◌∷◌, arith, length, find?, ltb,
  if◌then◌else◌, Bool-cases, Option-cases, inl, inr,
}
use edopro_server_ts.Prelude.Eq.{◌==◌, string_eq}
use edopro_server_ts.Prelude.Dict.{get}
use edopro_server_ts.Matchmaking.{Participant}
use edopro_server_ts.Matchmaking.Store
use edopro_server_ts.Matchmaking.Pending
use edopro_server_ts.Matchmaking.Pending.{PendingMatch, PendingMatches, PendingParticipant, pend}
use edopro_server_ts.Matchmaking.Pool.{
  MatchmakingPool, done, QueueExitOutcome, cancelled, dequeued, declined, matched_human,
  remove_by_id_and_log, add,
}
use edopro_server_ts.Matchmaking.Pool.Fuel.{IsKeyed, add_ends, delete-IsKeyed, log_exits-pending}
use edopro_server_ts.Matchmaking.Pool.Answers.{
  leave_pending, remove, dequeue_by_socket_id, accept, decline, decline_after_requeue, answered,
  accepted_by, all_accepted, find_live_pending, was_requeued_from, queued_or_pending, is_in,
}
use edopro_server_ts.Matchmaking.Pool.Ends.{
  Ends, and_then-Ends, insert-IsKeyed, get-IsKeyed, abandon-Ends, leave_pending-Ends, leave-Ends,
  Ends-of_within, remove_by_id_and_log-pending,
}

remove-Ends :
    (now : ℕ) (id : String) (s : MatchmakingPool) → IsKeyed s.pending → Ends (remove now id s)
unfolding remove
remove-Ends now id s k =
    leave-Ends now id cancelled cancelled s (λ t. done tt t) (λ _ t. done tt t) (λ _ k'. k')
      (λ _ _ k'. k') k

pub find_live-get :
    (now : ℕ) (match_id participant_id : String) (s : MatchmakingPool) (pending : PendingMatch)
    → find_live_pending now match_id participant_id s ≡ some pending
    → (get match_id s.pending ≡ some pending)
      × (ltb now pending.deadline ≡ true)
      × (is_in participant_id pending.pairing ≡ true)
unfolding find_live_pending
find_live-get now match_id participant_id s pending e =
    elim (Option-cases (get match_id s.pending)) [
      | inl absent ↦ absurd (ground (arith, absent, e))
      | inr (found, here) ↦
          let same : found ≡ pending = ground (arith, here, e) in
          (
            here ∙ ap some same,
            subst (λ q. ltb now q.deadline ≡ true) same (ground (arith, here, e)),
            subst (λ q. is_in participant_id q.pairing ≡ true) same (ground (arith, here, e)),
          )
    ]

accept_keeps :
    (now : ℕ) (match_id participant_id : String) (s : MatchmakingPool)
    → IsKeyed s.pending
    → IsKeyed (accept now match_id participant_id s).1.pending
unfolding accept
accept_keeps now match_id participant_id s k =
    elim (Option-cases (find_live_pending now match_id participant_id s)) [
      | inl absent ↦ rw (absent, accept) k
      | inr (found, here) ↦
          let own =
            get-IsKeyed match_id found s.pending k
              (find_live-get now match_id participant_id s found here).0 in
          let noted = insert-IsKeyed match_id (accepted_by participant_id found) s.pending own k in
          elim (Bool-cases (all_accepted (accepted_by participant_id found))) [
            | inl everyone ↦
                rw (here, everyone, accept)
                  (subst IsKeyed
                    (sym (log_exits-pending now found.pairing.participants matched_human _))
                    (delete-IsKeyed match_id _ noted).1)
            | inr waits ↦ rw (here, waits, accept) noted
          ]
    ]

answered-pending :
    (match_id id : String) (s : MatchmakingPool) → (answered match_id id s).pending ≡ s.pending
answered-pending match_id id s = elim (Option-cases (get match_id s.requeued_by_match_id)) [
  | inl absent ↦ rw (absent, answered) refl
  | inr (r, found) ↦ rw (found, answered) refl
]

leave_either-Ends :
    (now : ℕ) (id : String) (outcome : QueueExitOutcome) (s : MatchmakingPool)
    → IsKeyed s.pending
    → let (removed, t) = remove_by_id_and_log now id outcome s in
      Ends (if removed then done true t else leave_pending now id declined t)
leave_either-Ends now id outcome s k =
    let t = (remove_by_id_and_log now id outcome s).1 in
    let kt = subst IsKeyed (sym (remove_by_id_and_log-pending now id outcome s)) k in
    elim (Bool-cases (remove_by_id_and_log now id outcome s).0) [
      | inl removed ↦ rw removed kt
      | inr absent ↦ rw absent (leave_pending-Ends now id declined t kt)
    ]

dequeue-Ends :
    (now : ℕ) (id : String) (s : MatchmakingPool)
    → IsKeyed s.pending
    → Ends (dequeue_by_socket_id now id s)
unfolding dequeue_by_socket_id
dequeue-Ends now id s k = leave_either-Ends now id dequeued s k

decline_after_requeue-Ends :
    (now : ℕ) (match_id id : String) (s : MatchmakingPool)
    → IsKeyed s.pending
    → Ends (decline_after_requeue now match_id id s)
unfolding decline_after_requeue
decline_after_requeue-Ends now match_id id s k =
    let t = answered match_id id s in
    let kt = subst IsKeyed (sym (answered-pending match_id id s)) k in
    elim (Bool-cases (was_requeued_from now match_id id s)) [
      | inr never ↦ rw (never, decline_after_requeue) k
      | inl requeued ↦
          elim (Option-cases (
            queued_or_pending (Store.lookup id t.store)
              (Pending.find_by_participant_id id t.pending))) [
                | inl absent ↦ rw (requeued, absent, decline_after_requeue) kt
                | inr (p, found) ↦
                    rw (requeued, found, decline_after_requeue)
                      (and_then-Ends _ _ (leave_either-Ends now id declined t kt) (λ _ _ k'. k'))
              ]
    ]

decline-Ends :
    (now : ℕ) (match_id id : String) (s : MatchmakingPool)
    → IsKeyed s.pending
    → Ends (decline now match_id id s)
unfolding decline
decline-Ends now match_id id s k = elim (Option-cases (find_live_pending now match_id id s)) [
  | inl absent ↦ rw (absent, decline) (decline_after_requeue-Ends now match_id id s k)
  | inr (pending, live) ↦
      elim (Option-cases (find? (λ (p : Participant). p.id == id) pending.pairing.participants)) [
        | inl nobody ↦ rw (live, nobody, decline) k
        | inr (decliner, found) ↦
            rw (live, found, decline)
              (and_then-Ends _ _ (abandon-Ends now pending (decliner ∷ []) declined s k)
                (λ _ _ k'. k'))
      ]
]

-- From a pool whose pending matches stand under their own ids, every call that a participant causes
-- ends, by returning or by throwing, and never for want of fuel: an arrival, leaving by id, leaving
-- by socket, and the two answers to a match. Each keeps the pending matches under their ids.
pub calls_end :
    (now : ℕ) (p : Participant) (match_id id : String) (s : MatchmakingPool)
    → IsKeyed s.pending
    → Ends (add now p s)
      × Ends (remove now id s)
      × Ends (dequeue_by_socket_id now id s)
      × Ends (decline now match_id id s)
      × IsKeyed (accept now match_id id s).1.pending
calls_end now p match_id id s k = (
  Ends-of_within (length s.pending) _ (add_ends now p s k),
  remove-Ends now id s k,
  dequeue-Ends now id s k,
  decline-Ends now match_id id s k,
  accept_keeps now match_id id s k,
)
