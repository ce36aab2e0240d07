-- ===== src/Matchmaking/Pool.antt =====
-- MatchmakingPool.ts: the pool of participants, the matches they are asked to accept, and those put
-- back by a match that was abandoned. What the pool sends through a channel, hands to the match
-- handler or logs as an exit is an effect, kept in order; its other log lines are left out. A call
-- reads the clock once. Participants, compared as objects in the source, are compared by id.
pub mod Answers
pub mod Tick
pub mod Fuel
pub mod Ends
pub mod Accepts
use edopro_server_ts.Prelude.{
  ℕ, zero, suc, ◌+◌, String, Option, none, some, Bool, true, false, not, ◌&&◌, List, [], ◌∷◌, ◌++◌,
  map, length, filter, any, find?, ltb, if◌then◌else◌,
}
use edopro_server_ts.Prelude.Eq.{◌==◌, string_eq, contains}
use edopro_server_ts.Prelude.Int.{ℤ, sub_ℕ}
use edopro_server_ts.Prelude.Dict.{get, insert, delete}
use edopro_server_ts.Matchmaking.{
  Participant, Match, Presence, socket, poll, OpponentType, human, bot, ids_of,
}
use edopro_server_ts.Matchmaking.Store
use edopro_server_ts.Matchmaking.Store.{InMemoryPoolStore, set_delete}
use edopro_server_ts.Matchmaking.Pending
use edopro_server_ts.Matchmaking.Pending.{PendingMatch, PendingMatches, PendingParticipant}

pub data QueueExitOutcome : Type 0 where
  matched_human matched_bot cancelled dequeued expired replaced declined accept_timeout :
      QueueExitOutcome

-- The reasons with which the pool closes a channel.
pub data CloseReason : Type 0 where
  replaced_by_new_connection match_declined accept_timed_out : CloseReason

pub data Effect : Type 0 where
  exit : String → QueueExitOutcome → ℤ → Effect
  status_searching : String → ℤ → Effect
  proposed : String → String → Effect
  closed : String → CloseReason → Effect
  handled : Match → Effect

pub record Requeue : Type 0 where
  pub ids : List String
  pub until : ℕ

pub record MatchmakingPool : Type 0 where
  pub store : InMemoryPoolStore
  pub pending : PendingMatches
  pub requeued_by_match_id : List (String × Requeue)
  pub effects : List Effect
  pub drawn_ids : ℕ

-- How a call ends: with a value, with `DuplicateQueueEntryError`, or without fuel.
pub data Result (A : Type 0) : Type 0 where
  done : A → MatchmakingPool → Result A
  duplicate_queue_entry : String → MatchmakingPool → Result A
  out_of_fuel : Result A

abbrev pub and_then : {A B : Type 0} → Result A → (A → MatchmakingPool → Result B) → Result B
and_then (done a s) next = next a s
and_then (duplicate_queue_entry user_id s) next = duplicate_queue_entry user_id s
and_then out_of_fuel next = out_of_fuel

abbrev pub report : Effect → MatchmakingPool → MatchmakingPool
report e s = record s { effects = s.effects ++ e ∷ [] }

abbrev pub log_exit : ℕ → Participant → QueueExitOutcome → MatchmakingPool → MatchmakingPool
log_exit now p outcome = report (exit p.id outcome (sub_ℕ now p.enqueued_at))

abbrev pub log_exits : ℕ → List Participant → QueueExitOutcome → MatchmakingPool → MatchmakingPool
log_exits now [] outcome s = s
log_exits now (p ∷ ps) outcome s = log_exits now ps outcome (log_exit now p outcome s)

unfoldable pub remove_and_log :
    ℕ → Participant → QueueExitOutcome → MatchmakingPool → Bool × MatchmakingPool
unfolding Store.remove
remove_and_log now p outcome s =
    let (removed, store) = Store.remove p.id s.store in
    let t = record s { store = store } in (removed, if removed then log_exit now p outcome t else t)

unfoldable pub remove_by_id_and_log :
    ℕ → String → QueueExitOutcome → MatchmakingPool → Bool × MatchmakingPool
unfolding remove_and_log Store.lookup
remove_by_id_and_log now id outcome s = elim (Store.lookup id s.store) [
  | none ↦ (false, s)
  | some p ↦ remove_and_log now p outcome s
]

-- The loop of `abandon` over the requeued participants.
pub requeue :
    ℕ
    → (Participant → MatchmakingPool → Result Bool)
    → List Participant
    → MatchmakingPool
    → Result Unit
requeue now add_back [] s = done tt s
requeue now add_back (p ∷ ps) s =
    and_then (add_back p s)
      (λ _ t. requeue now add_back ps (report (status_searching p.id (sub_ℕ now p.enqueued_at)) t))

abbrev pub note_requeued : PendingMatch → List Participant → MatchmakingPool → MatchmakingPool
note_requeued pending [] s = s
note_requeued pending (p ∷ ps) s = record s {
  requeued_by_match_id =
      insert pending.pairing.id (record { ids = ids_of (p ∷ ps); until = pending.deadline })
        s.requeued_by_match_id;
}

abbrev pub staying : PendingMatch → List Participant → List Participant
staying pending leaving =
    filter (λ (p : Participant). not (contains p.id (ids_of leaving))) pending.pairing.participants

-- `abandon`, given how to put a participant back.
unfoldable pub abandon_with :
    ℕ
    → (Participant → MatchmakingPool → Result Bool)
    → PendingMatch
    → List Participant
    → QueueExitOutcome
    → MatchmakingPool
    → Result Unit
unfolding requeue delete
abandon_with now add_back pending leaving outcome s =
    let dropped = record s { pending = delete pending.pairing.id s.pending } in
    let logged = log_exits now leaving outcome dropped in
    let stay = staying pending leaving in
    requeue now add_back stay (note_requeued pending stay logged)

abbrev pub put : Participant → Bool → MatchmakingPool → Result Bool
put p replaced_one s = done replaced_one (record s { store = Store.add p s.store })

-- The body of `add`, given how to abandon the pending match of the user.
unfoldable pub arrive :
    (PendingMatch → List Participant → QueueExitOutcome → MatchmakingPool → Result Unit)
    → ℕ
    → Participant
    → MatchmakingPool
    → Result Bool
unfolding remove_and_log Store.find_by_user_id
arrive abandon_it now p s = elim (Store.find_by_user_id p.user_id s.store) [
  | some queued ↦ elim p.presence [
    | poll ↦ duplicate_queue_entry p.user_id s
    | socket ↦
        let (_, t) = remove_and_log now queued replaced s in
        put p true (report (closed queued.id replaced_by_new_connection) t)
  ]
  | none ↦ elim (Pending.find_by_user_id p.user_id s.pending) [
    | none ↦ put p false s
    | some found ↦ elim p.presence [
      | poll ↦ duplicate_queue_entry p.user_id s
      | socket ↦
          and_then (abandon_it found.pending (found.participant ∷ []) replaced s)
            (λ _ t. put p true (report (closed found.participant.id replaced_by_new_connection) t))
    ]
  ]
]

-- `add` and `abandon` call each other: a call on fuel may abandon as many matches one inside another.
unfoldable pub add_on_fuel : ℕ → ℕ → Participant → MatchmakingPool → Result Bool
unfolding arrive abandon_with
add_on_fuel zero now p s = arrive (λ _ _ _ _. out_of_fuel) now p s
add_on_fuel (suc fuel) now p s = arrive (abandon_with now (add_on_fuel fuel now)) now p s

unfoldable pub add : ℕ → Participant → MatchmakingPool → Result Bool
unfolding add_on_fuel
add now p s = add_on_fuel (length s.pending) now p s

unfoldable pub abandon :
    ℕ → PendingMatch → List Participant → QueueExitOutcome → MatchmakingPool → Result Unit
unfolding abandon_with add_on_fuel
abandon now pending leaving outcome s =
    abandon_with now (add_on_fuel (length s.pending) now) pending leaving outcome s
