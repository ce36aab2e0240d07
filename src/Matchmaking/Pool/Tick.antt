-- ===== src/Matchmaking/Pool/Tick.antt =====
-- MatchmakingPool.ts: `tick`, in its five phases, and `depthByFormat`. The pairing policy is a
-- parameter, and so is whether a participant's channel is alive, by the participant's id; a tick
-- that asks about a channel more than once gets the same answer.
use edopro_server_ts.Prelude.{
  ℕ, ◌+◌, String, Bool, true, false, not, ◌&&◌, List, [], ◌∷◌, any, filter, ltb, length, map,
  if◌then◌else◌,
}
use edopro_server_ts.Prelude.Eq.{contains, string_eq}
use edopro_server_ts.Prelude.Int.{sub_ℕ}
use edopro_server_ts.Matchmaking.{
  Participant, Match, Format, tcg, jtp, edison, Mode, ranked, OpponentType, human, bot,
  match_accept_timeout_ms,
}
use edopro_server_ts.Matchmaking.Policies.{PairingPolicy}
use edopro_server_ts.Matchmaking.Store
use edopro_server_ts.Matchmaking.Pending
use edopro_server_ts.Matchmaking.Pending.{PendingMatch}
use edopro_server_ts.Matchmaking.Pool.{
  MatchmakingPool, Requeue, Result, done, and_then, QueueExitOutcome, matched_bot, matched_human,
  expired, accept_timeout, report, proposed, status_searching, closed, accept_timed_out, handled,
  remove_and_log, abandon,
}

-- `poolKeys()`
abbrev pub pool_keys : List (Format × Mode)
pool_keys = (tcg, ranked) ∷ (jtp, ranked) ∷ (edison, ranked) ∷ []

-- `requiresAcceptStep`
abbrev pub is_human : OpponentType → Bool
is_human human = true
is_human bot = false

unfoldable pub requires_accept_step : Match → Bool
requires_accept_step m =
    is_human m.opponent_kind && any (λ (p : Participant). p.supports_accept_step) m.participants

-- `removeAndLog` of each of the participants.
unfoldable pub remove_all :
    ℕ → QueueExitOutcome → List Participant → MatchmakingPool → MatchmakingPool
unfolding remove_and_log
remove_all now outcome [] s = s
remove_all now outcome (p ∷ ps) s = remove_all now outcome ps (remove_and_log now p outcome s).1

module _ (is_alive : String → Bool) where
  abbrev pub is_dead : Participant → Bool
  is_dead p = not (is_alive p.id)

  -- The body of the loop of `sweepDead` over the pools.
  unfoldable pub sweep_dead : ℕ → List (Format × Mode) → MatchmakingPool → MatchmakingPool
  unfolding remove_all Store.all
  sweep_dead now [] s = s
  sweep_dead now ((format, mode) ∷ keys) s =
      sweep_dead now keys
        (remove_all now expired (filter is_dead (Store.all format mode s.store)) s)

abbrev pub notify_proposed : String → List Participant → MatchmakingPool → MatchmakingPool
notify_proposed match_id [] s = s
notify_proposed match_id (p ∷ ps) s =
    let rest = notify_proposed match_id ps in
    if not p.supports_accept_step then rest s else rest (report (proposed p.id match_id) s)

abbrev pub take_out : List Participant → Store.InMemoryPoolStore → Store.InMemoryPoolStore
take_out [] store = store
take_out (p ∷ ps) store = take_out ps (Store.remove p.id store).1

unfoldable pub propose : ℕ → Match → MatchmakingPool → MatchmakingPool
unfolding Store.remove Pending.add
propose now m s = notify_proposed m.id m.participants (record s {
  store = take_out m.participants s.store;
  pending = Pending.add m (now + match_accept_timeout_ms) s.pending;
})

abbrev pub exit_outcome : OpponentType → QueueExitOutcome
exit_outcome bot = matched_bot
exit_outcome human = matched_human

unfoldable pub settle : ℕ → Match → MatchmakingPool → MatchmakingPool
unfolding requires_accept_step propose remove_all
settle now m s =
    if requires_accept_step m
    then propose now m s
    else report (handled m) (remove_all now (exit_outcome m.opponent_kind) m.participants s)

abbrev pub settle_all : ℕ → List Match → MatchmakingPool → MatchmakingPool
settle_all now [] s = s
settle_all now (m ∷ ms) s = settle_all now ms (settle now m s)

abbrev pub pair_pool : PairingPolicy → ℕ → List Participant → MatchmakingPool → MatchmakingPool
pair_pool policy now [] s = s
pair_pool policy now (p ∷ ps) s =
    let ms = policy s.drawn_ids (p ∷ ps) now in
    settle_all now ms (record s { drawn_ids = s.drawn_ids + length ms })

unfoldable pub pair_and_dispatch :
    PairingPolicy → ℕ → List (Format × Mode) → MatchmakingPool → MatchmakingPool
unfolding Store.all settle
pair_and_dispatch policy now [] s = s
pair_and_dispatch policy now ((format, mode) ∷ keys) s =
    pair_and_dispatch policy now keys (pair_pool policy now (Store.all format mode s.store) s)

abbrev pub close_all : List Participant → MatchmakingPool → MatchmakingPool
close_all [] s = s
close_all (p ∷ ps) s = close_all ps (report (closed p.id accept_timed_out) s)

abbrev pub late_in : PendingMatch → List Participant
late_in pending =
    filter (λ (p : Participant). not (contains p.id pending.accepted)) pending.pairing.participants

-- The body of the loop of `resolvePending`, given the dead participants of the match.
abbrev pub resolve_one : ℕ → PendingMatch → List Participant → MatchmakingPool → Result Unit
resolve_one now pending (p ∷ ps) s = abandon now pending (p ∷ ps) expired s
resolve_one now pending [] s =
    if ltb now pending.deadline
    then done tt s
    else and_then (abandon now pending (late_in pending) accept_timeout s)
        (λ _ t. done tt (close_all (late_in pending) t))

unfoldable pub resolve_pending :
    (String → Bool) → ℕ → List PendingMatch → MatchmakingPool → Result Unit
unfolding abandon
resolve_pending is_alive now [] s = done tt s
resolve_pending is_alive now (pending ∷ rest) s =
    and_then (resolve_one now pending (filter (is_dead is_alive) pending.pairing.participants) s)
      (λ _ t. resolve_pending is_alive now rest t)

abbrev pub forget_closed_requeues : ℕ → MatchmakingPool → MatchmakingPool
forget_closed_requeues now s = record s {
  requeued_by_match_id =
      filter (λ (r : String × Requeue). ltb now r.1.until) s.requeued_by_match_id;
}

abbrev pub publish_to : ℕ → List Participant → MatchmakingPool → MatchmakingPool
publish_to now [] s = s
publish_to now (p ∷ ps) s =
    publish_to now ps (report (status_searching p.id (sub_ℕ now p.enqueued_at)) s)

unfoldable pub publish_status : ℕ → List (Format × Mode) → MatchmakingPool → MatchmakingPool
unfolding Store.all
publish_status now [] s = s
publish_status now ((format, mode) ∷ keys) s =
    publish_status now keys (publish_to now (Store.all format mode s.store) s)

unfoldable pub tick : (String → Bool) → PairingPolicy → ℕ → MatchmakingPool → Result Unit
unfolding sweep_dead resolve_pending pair_and_dispatch publish_status
tick is_alive policy now s =
    let swept = sweep_dead is_alive now pool_keys s in
    and_then (resolve_pending is_alive now (Pending.all swept.pending) swept) (λ _ t. done tt (
      publish_status now pool_keys
        (pair_and_dispatch policy now pool_keys (forget_closed_requeues now t))))

-- `depthByFormat`
unfoldable pub depth_by_format : MatchmakingPool → List (Format × ℕ)
unfolding Store.depth
depth_by_format s =
    map (λ (key : Format × Mode). (key.0, Store.depth key.0 key.1 s.store)) pool_keys
