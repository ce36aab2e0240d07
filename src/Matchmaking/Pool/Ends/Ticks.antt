-- ===== src/Matchmaking/Pool/Ends/Ticks.antt =====
-- The ticks of the pool.
use edopro_server_ts.Prelude.{
  ℕ, ◌+◌, ◌≡◌, refl, sym, subst, ◌∙◌, String, Bool, List, [], ◌∷◌, length, filter, ltb, Bool-cases,
  inl, inr,
}
use edopro_server_ts.Prelude.Eq.{string_eq}
use edopro_server_ts.Matchmaking.{Participant, Match, Format, Mode, match_accept_timeout_ms}
use edopro_server_ts.Matchmaking.Policies.{PairingPolicy}
use edopro_server_ts.Matchmaking.Store
use edopro_server_ts.Matchmaking.Pending
use edopro_server_ts.Matchmaking.Pending.{PendingMatch, PendingMatches, PendingParticipant, pend}
use edopro_server_ts.Matchmaking.Pool.{MatchmakingPool, done, QueueExitOutcome, expired}
use edopro_server_ts.Matchmaking.Pool.Fuel.{IsKeyed, remove_and_log-pending}
use edopro_server_ts.Matchmaking.Pool.Tick.{
  remove_all, sweep_dead, is_dead, propose, settle, settle_all, requires_accept_step,
  notify_proposed, pair_pool, pair_and_dispatch, resolve_one, resolve_pending, late_in, close_all,
  publish_to, publish_status, tick, pool_keys, forget_closed_requeues,
}
use edopro_server_ts.Matchmaking.Pool.Ends.{Ends, and_then-Ends, insert-IsKeyed, abandon-Ends}

remove_all-pending :
    (now : ℕ) (outcome : QueueExitOutcome) (ps : List Participant) (s : MatchmakingPool)
    → (remove_all now outcome ps s).pending ≡ s.pending
unfolding remove_all
remove_all-pending now outcome [] s = refl
remove_all-pending now outcome (p ∷ ps) s =
    remove_all-pending now outcome ps _ ∙ remove_and_log-pending now p outcome s

sweep_dead-pending :
    (is_alive : String → Bool) (now : ℕ) (keys : List (Format × Mode)) (s : MatchmakingPool)
    → (sweep_dead is_alive now keys s).pending ≡ s.pending
unfolding sweep_dead
sweep_dead-pending is_alive now [] s = refl
sweep_dead-pending is_alive now ((format, mode) ∷ keys) s =
    let dead = filter (is_dead is_alive) (Store.all format mode s.store) in
    sweep_dead-pending is_alive now keys (remove_all now expired dead s)
    ∙ remove_all-pending now expired dead s

notify_proposed-pending :
    (match_id : String) (ps : List Participant) (s : MatchmakingPool)
    → (notify_proposed match_id ps s).pending ≡ s.pending
notify_proposed-pending match_id [] s = refl
notify_proposed-pending match_id (p ∷ ps) s = elim (Bool-cases p.supports_accept_step) [
  | inl supports ↦ rw (supports, notify_proposed) (notify_proposed-pending match_id ps _)
  | inr silent ↦ rw (silent, notify_proposed) (notify_proposed-pending match_id ps s)
]

settle-IsKeyed :
    (now : ℕ) (m : Match) (s : MatchmakingPool)
    → IsKeyed s.pending
    → IsKeyed (settle now m s).pending
unfolding settle propose Pending.add
settle-IsKeyed now m s k = elim (Bool-cases (requires_accept_step m)) [
  | inl waits ↦
      rw (waits, settle)
        (subst IsKeyed (sym (notify_proposed-pending m.id m.participants _))
          (insert-IsKeyed m.id (pend m (now + match_accept_timeout_ms)) s.pending refl k))
  | inr straight ↦
      rw (straight, settle) (subst IsKeyed (sym (remove_all-pending now _ m.participants s)) k)
]

settle_all-IsKeyed :
    (now : ℕ) (ms : List Match) (s : MatchmakingPool)
    → IsKeyed s.pending
    → IsKeyed (settle_all now ms s).pending
settle_all-IsKeyed now [] s k = k
settle_all-IsKeyed now (m ∷ ms) s k =
    settle_all-IsKeyed now ms (settle now m s) (settle-IsKeyed now m s k)

pair_pool-IsKeyed :
    (policy : PairingPolicy) (now : ℕ) (ps : List Participant) (s : MatchmakingPool)
    → IsKeyed s.pending
    → IsKeyed (pair_pool policy now ps s).pending
pair_pool-IsKeyed policy now [] s k = k
pair_pool-IsKeyed policy now (p ∷ ps) s k =
    let ms = policy s.drawn_ids (p ∷ ps) now in
    settle_all-IsKeyed now ms (record s { drawn_ids = s.drawn_ids + length ms }) k

pair_and_dispatch-IsKeyed :
    (policy : PairingPolicy) (now : ℕ) (keys : List (Format × Mode)) (s : MatchmakingPool)
    → IsKeyed s.pending
    → IsKeyed (pair_and_dispatch policy now keys s).pending
unfolding pair_and_dispatch
pair_and_dispatch-IsKeyed policy now [] s k = k
pair_and_dispatch-IsKeyed policy now ((format, mode) ∷ keys) s k =
    pair_and_dispatch-IsKeyed policy now keys _ (pair_pool-IsKeyed policy now _ s k)

close_all-pending :
    (ps : List Participant) (s : MatchmakingPool) → (close_all ps s).pending ≡ s.pending
close_all-pending [] s = refl
close_all-pending (p ∷ ps) s = close_all-pending ps _

resolve_one-Ends :
    (now : ℕ) (pending : PendingMatch) (dead : List Participant) (s : MatchmakingPool)
    → IsKeyed s.pending
    → Ends (resolve_one now pending dead s)
resolve_one-Ends now pending (p ∷ ps) s k = abandon-Ends now pending (p ∷ ps) _ s k
resolve_one-Ends now pending [] s k = elim (Bool-cases (ltb now pending.deadline)) [
  | inl early ↦ rw (early, resolve_one) k
  | inr over ↦
      rw (over, resolve_one)
        (and_then-Ends _ _ (abandon-Ends now pending (late_in pending) _ s k)
          (λ _ t k'. subst IsKeyed (sym (close_all-pending (late_in pending) t)) k'))
]

resolve_pending-Ends :
    (is_alive : String → Bool) (now : ℕ) (waiting : List PendingMatch) (s : MatchmakingPool)
    → IsKeyed s.pending
    → Ends (resolve_pending is_alive now waiting s)
unfolding resolve_pending
resolve_pending-Ends is_alive now [] s k = k
resolve_pending-Ends is_alive now (pending ∷ rest) s k =
    and_then-Ends _ _ (resolve_one-Ends now pending _ s k)
      (λ _ t k'. resolve_pending-Ends is_alive now rest t k')

publish_to-pending :
    (now : ℕ) (ps : List Participant) (s : MatchmakingPool)
    → (publish_to now ps s).pending ≡ s.pending
publish_to-pending now [] s = refl
publish_to-pending now (p ∷ ps) s = publish_to-pending now ps _

publish_status-pending :
    (now : ℕ) (keys : List (Format × Mode)) (s : MatchmakingPool)
    → (publish_status now keys s).pending ≡ s.pending
unfolding publish_status
publish_status-pending now [] s = refl
publish_status-pending now ((format, mode) ∷ keys) s =
    let listed = Store.all format mode s.store in
    publish_status-pending now keys (publish_to now listed s) ∙ publish_to-pending now listed s

-- From a pool whose pending matches stand under their own ids, a tick ends, whatever the policy pairs
-- and whoever is alive, never for want of fuel, and keeps the pending matches under their ids.
pub tick-Ends :
    (is_alive : String → Bool) (policy : PairingPolicy) (now : ℕ) (s : MatchmakingPool)
    → IsKeyed s.pending
    → Ends (tick is_alive policy now s)
unfolding tick
tick-Ends is_alive policy now s k =
    let swept = sweep_dead is_alive now pool_keys s in
    let waiting = Pending.all swept.pending in
    let kept = subst IsKeyed (sym (sweep_dead-pending is_alive now pool_keys s)) k in
    and_then-Ends (resolve_pending is_alive now waiting swept)
      (λ _ t. done tt (
        publish_status now pool_keys
          (pair_and_dispatch policy now pool_keys (forget_closed_requeues now t))))
      (resolve_pending-Ends is_alive now waiting swept kept)
      (λ _ t k'.
        let fresh = forget_closed_requeues now t in
        subst IsKeyed
          (sym
            (publish_status-pending now pool_keys (pair_and_dispatch policy now pool_keys fresh)))
          (pair_and_dispatch-IsKeyed policy now pool_keys fresh k'))
