-- ===== src/Matchmaking/Pool/Ends.antt =====
-- The end of the calls of the pool, and the ids its pending matches stand under.
pub mod Calls
pub mod Ticks
use edopro_server_ts.Prelude.{
  ℕ, ◌+◌, ◌≤◌, ◌≡◌, ◌⊎◌, refl, sym, ap, subst, ◌∙◌, String, Option, none, some, Bool, true, false,
  not, List, [], ◌∷◌, All, arith, length, filter, find?, ltb, if◌then◌else◌, Bool-cases,
  Option-cases, inl, inr,
}
use edopro_server_ts.Prelude.Eq.{◌==◌, ==_iff, string_eq}
use edopro_server_ts.Prelude.Dict.{get, insert, delete}
use edopro_server_ts.Matchmaking.{Participant, Match, Format, Mode, match_accept_timeout_ms}
use edopro_server_ts.Matchmaking.Policies.{PairingPolicy}
use edopro_server_ts.Matchmaking.Store
use edopro_server_ts.Matchmaking.Pending
use edopro_server_ts.Matchmaking.Pending.{PendingMatch, PendingMatches, PendingParticipant, pend}
use edopro_server_ts.Matchmaking.Pool.{
  MatchmakingPool, Result, done, duplicate_queue_entry, out_of_fuel, and_then, QueueExitOutcome,
  cancelled, dequeued, declined, matched_human, log_exits, remove_and_log, remove_by_id_and_log,
  add, abandon, report,
}
use edopro_server_ts.Matchmaking.Pool.Fuel.{
  IsKeyed, EndsWithin, add_ends, abandon_ends, remove_and_log-pending, delete-IsKeyed,
  log_exits-pending,
}
use edopro_server_ts.Matchmaking.Pool.Answers.{
  leave_pending, remove, dequeue_by_socket_id, accept, decline, decline_after_requeue, answered,
  accepted_by, all_accepted, find_live_pending, was_requeued_from, dispatch, queued_or_pending,
  is_in,
}
use edopro_server_ts.Matchmaking.Pool.Tick

-- The call ends, by returning or by throwing, with each pending match under its own id.
abbrev pub Ends : {A : Type 0} → Result A → Type 0
Ends (done a s) = IsKeyed s.pending
Ends (duplicate_queue_entry user_id s) = IsKeyed s.pending
Ends out_of_fuel = 1 ≤ 0

pub Ends-of_within : {A : Type 0} (n : ℕ) (r : Result A) → EndsWithin n r → Ends r
Ends-of_within n (done a s) (_, k) = k
Ends-of_within n (duplicate_queue_entry user_id s) (_, k) = k
Ends-of_within n out_of_fuel h = h

pub and_then-Ends :
    {A B : Type 0} (r : Result A) (next : A → MatchmakingPool → Result B)
    → Ends r
    → ((a : A) (s : MatchmakingPool) → IsKeyed s.pending → Ends (next a s))
    → Ends (and_then r next)
and_then-Ends (done a s) next k h = h a s k
and_then-Ends (duplicate_queue_entry user_id s) next k h = k
and_then-Ends out_of_fuel next k h = k

pub insert-IsKeyed :
    (id : String) (pending : PendingMatch) (book : PendingMatches)
    → pending.pairing.id ≡ id
    → IsKeyed book
    → IsKeyed (insert id pending book)
unfolding insert
insert-IsKeyed id pending [] e h = (e, tt)
insert-IsKeyed id pending ((j, other) ∷ book) e (k, ks) = elim (Bool-cases (j == id)) [
  | inl same ↦ rw same (e ∙ sym ((==_iff j id).0 same), ks)
  | inr another ↦ rw another (k, insert-IsKeyed id pending book e ks)
]

pub get-IsKeyed :
    (id : String) (pending : PendingMatch) (book : PendingMatches)
    → IsKeyed book
    → get id book ≡ some pending
    → pending.pairing.id ≡ id
unfolding get
get-IsKeyed id pending [] h e = absurd (ground (arith, e))
get-IsKeyed id pending ((j, other) ∷ book) (k, ks) e = elim (Bool-cases (j == id)) [
  | inl same ↦
      let here : other ≡ pending = ground (arith, same, e) in
      ap (λ (x : PendingMatch). x.pairing.id) (sym here) ∙ k ∙ (==_iff j id).0 same
  | inr another ↦ get-IsKeyed id pending book ks (ground (arith, another, e))
]

pub remove_by_id_and_log-pending :
    (now : ℕ) (id : String) (outcome : QueueExitOutcome) (s : MatchmakingPool)
    → (remove_by_id_and_log now id outcome s).1.pending ≡ s.pending
unfolding remove_by_id_and_log
remove_by_id_and_log-pending now id outcome s = elim (Option-cases (Store.lookup id s.store)) [
  | inl absent ↦ rw (absent, remove_by_id_and_log) refl
  | inr (p, found) ↦ rw (found, remove_by_id_and_log) (remove_and_log-pending now p outcome s)
]

pub abandon-Ends :
    (now : ℕ) (pending : PendingMatch) (leaving : List Participant) (outcome : QueueExitOutcome)
    (s : MatchmakingPool)
    → IsKeyed s.pending
    → Ends (abandon now pending leaving outcome s)
abandon-Ends now pending leaving outcome s k =
    Ends-of_within (length s.pending) _ (abandon_ends now pending leaving outcome s k)

pub leave_pending-Ends :
    (now : ℕ) (id : String) (outcome : QueueExitOutcome) (s : MatchmakingPool)
    → IsKeyed s.pending
    → Ends (leave_pending now id outcome s)
unfolding leave_pending
leave_pending-Ends now id outcome s k =
    elim (Option-cases (Pending.find_by_participant_id id s.pending)) [
      | inl absent ↦ rw (absent, leave_pending) k
      | inr (found, here) ↦
          rw (here, leave_pending)
            (and_then-Ends _ _ (abandon-Ends now found.pending (found.participant ∷ []) outcome s k)
              (λ _ t k'. k'))
    ]

-- Leaving the pool, or else a pending match.
pub leave-Ends :
    {A : Type 0} (now : ℕ) (id : String) (outcome other : QueueExitOutcome) (s : MatchmakingPool)
    (gone : MatchmakingPool → Result A) (waiting : Bool → MatchmakingPool → Result A)
    → ((t : MatchmakingPool) → IsKeyed t.pending → Ends (gone t))
    → ((b : Bool) (t : MatchmakingPool) → IsKeyed t.pending → Ends (waiting b t))
    → IsKeyed s.pending
    → let (removed, t) = remove_by_id_and_log now id outcome s in
      Ends (if removed then gone t else and_then (leave_pending now id other t) waiting)
leave-Ends now id outcome other s gone waiting hg hw k =
    let t = (remove_by_id_and_log now id outcome s).1 in
    let kt = subst IsKeyed (sym (remove_by_id_and_log-pending now id outcome s)) k in
    elim (Bool-cases (remove_by_id_and_log now id outcome s).0) [
      | inl removed ↦ rw removed (hg t kt)
      | inr absent ↦ rw absent (and_then-Ends _ waiting (leave_pending-Ends now id other t kt) hw)
    ]
