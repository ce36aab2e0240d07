-- ===== src/Matchmaking/Tests.antt =====
-- The pairing policies on three participants, two of whom accept a bot.
use mathlib.Core.List.{Perm}
use edopro_server_ts.Prelude.{
  ℕ, ◌≤◌, ◌≡◌, refl, String, Option, none, some, true, List, [], ◌∷◌, ◌++◌, All, arith, length,
  if◌then◌else◌, subst, inl, inr, Bool-cases,
}
use edopro_server_ts.Prelude.Eq.{string_eq, ◌==◌, ==_iff, contains}
use edopro_server_ts.Matchmaking.{
  Participant, tcg, ranked, socket, participants_of, clamp_bot_fallback_delay,
}
use edopro_server_ts.Matchmaking.Policies.{
  sort_by_time, fifo_pairing, bot_fallback, composite_pairing, place,
}
use edopro_server_ts.Matchmaking.Policies.Fifo.{
  IsByTime, IsPair, IsBotMatch, IsDue, Picks, fifo_pairing_order, bot_fallback_takes,
}
use edopro_server_ts.Matchmaking.Policies.Composite.{
  HasDistinctIds, amount, fifo_pairing-IsPairing, bot_fallback-IsPairing, composite_pairing_deals,
}
use edopro_server_ts.Prelude.Dict.{get, insert}
use edopro_server_ts.Matchmaking.{human, ids_of, Match}
use edopro_server_ts.Prelude.{not, ◌↔◌, ◌⊎◌}
use edopro_server_ts.Matchmaking.Policies.{PairingPolicy}
use edopro_server_ts.Matchmaking.Store
use edopro_server_ts.Matchmaking.Store.{InMemoryPoolStore, new_store, key_of, pool_key}
use edopro_server_ts.Matchmaking.Store.Index.{IsConsistent, new_store-IsConsistent, key_in}
use edopro_server_ts.Matchmaking.Store.Refines.{
  is_some, add_refines, remove_refines, find_by_user_id_iff, all_lists,
}
use edopro_server_ts.Matchmaking.Pending.{pend, PendingMatch}
use edopro_server_ts.Matchmaking.Pool
use edopro_server_ts.Matchmaking.Pool.{MatchmakingPool}
use edopro_server_ts.Matchmaking.Pool.Answers.{remove, dequeue_by_socket_id, decline, accept}
use edopro_server_ts.Matchmaking.Pool.Tick.{tick}
use edopro_server_ts.Matchmaking.Pool.Fuel.{IsKeyed}
use edopro_server_ts.Matchmaking.Pool.Answers.{answer_accepted}
use edopro_server_ts.Matchmaking.Pool.Accepts.{handed, accept_hands, EveryoneAccepts, IsMarked}
use edopro_server_ts.Matchmaking.Pool.Ends.{Ends}
use edopro_server_ts.Matchmaking.Pool.Ends.Calls.{calls_end}
use edopro_server_ts.Matchmaking.Pool.Ends.Ticks.{tick-Ends}

abbrev waiting : String → ℕ → Option ℕ → Participant
waiting name since delay = record {
  id = name;
  user_id = name;
  format = tcg;
  mode = ranked;
  display_name = none;
  enqueued_at = since;
  bot_fallback_after_ms = delay;
  supports_accept_step = true;
  presence = socket;
}

abbrev syrus : Participant
syrus = waiting "syrus" 50 (some 1)

abbrev alexis : Participant
alexis = waiting "alexis" 20 none

abbrev bastion : Participant
bastion = waiting "bastion" 70 (some 40000)

abbrev queue : List Participant
queue = syrus ∷ alexis ∷ bastion ∷ []

abbrev match_ids : ℕ → String
match_ids n = "match"

sort_by_time-queue : sort_by_time queue ≡ alexis ∷ syrus ∷ bastion ∷ []
unfolding sort_by_time place
sort_by_time-queue = refl

clamp-short : clamp_bot_fallback_delay 1 ≡ 30000
unfolding clamp_bot_fallback_delay
clamp-short = refl

fifo_pairing_order_example :
    let ms = fifo_pairing match_ids 0 queue 100 in
    (rest : List Participant) × (length rest ≤ 1)
    × Perm (participants_of ms ++ rest) queue
    × IsByTime (participants_of ms ++ rest)
    × All IsPair ms
fifo_pairing_order_example = fifo_pairing_order match_ids 0 queue 100

bot_fallback_takes_example :
    let ms = bot_fallback match_ids true 0 queue 31000 in
    All IsBotMatch ms × Picks (λ p. (true ≡ true) × IsDue 31000 p) queue (participants_of ms)
bot_fallback_takes_example = bot_fallback_takes match_ids true 0 queue 31000

queue-HasDistinctIds : HasDistinctIds queue
queue-HasDistinctIds k = elim (Bool-cases ("syrus" == k)) [
  | inl same ↦ subst (λ i. amount i queue ≤ 1) ((==_iff "syrus" k).0 same) (omega arith)
  | inr not_syrus ↦ elim (Bool-cases ("alexis" == k)) [
    | inl same ↦ subst (λ i. amount i queue ≤ 1) ((==_iff "alexis" k).0 same) (omega arith)
    | inr not_alexis ↦ rw (not_syrus, not_alexis) (ground arith)
  ]
]

composite_pairing_deals_example :
    let ms =
      composite_pairing (fifo_pairing match_ids ∷ bot_fallback match_ids true ∷ []) 0 queue 40000 in
    ((rest : List Participant) × Perm queue (participants_of ms ++ rest))
    × HasDistinctIds (participants_of ms)
composite_pairing_deals_example =
    composite_pairing_deals (fifo_pairing match_ids ∷ bot_fallback match_ids true ∷ [])
      (fifo_pairing-IsPairing match_ids, (bot_fallback-IsPairing match_ids true, tt)) 0 queue 40000
      queue-HasDistinctIds

abbrev lobby : InMemoryPoolStore
lobby = Store.add alexis (Store.add syrus new_store)

syrus-new :
    (Store.lookup "syrus" new_store ≡ none) × (Store.find_by_user_id "syrus" new_store ≡ none)
unfolding Store.lookup Store.find_by_user_id get
syrus-new = (refl, refl)

alexis-new :
    let store = Store.add syrus new_store in
    (Store.lookup "alexis" store ≡ none) × (Store.find_by_user_id "alexis" store ≡ none)
unfolding Store.add Store.lookup Store.find_by_user_id get insert
alexis-new = (refl, refl)

bastion-new : (Store.lookup "bastion" lobby ≡ none) × (Store.find_by_user_id "bastion" lobby ≡ none)
unfolding Store.add Store.lookup Store.find_by_user_id get insert
bastion-new = (refl, refl)

lobby-IsConsistent : IsConsistent lobby
lobby-IsConsistent =
    let first = add_refines syrus new_store new_store-IsConsistent syrus-new.0 syrus-new.1 in
    (add_refines alexis (Store.add syrus new_store) first.0 alexis-new.0 alexis-new.1).0

add_refines_example :
    IsConsistent (Store.add bastion lobby)
    × ((id : String)
        → Store.lookup id (Store.add bastion lobby)
          ≡ (if "bastion" == id then some bastion else Store.lookup id lobby))
add_refines_example = add_refines bastion lobby lobby-IsConsistent bastion-new.0 bastion-new.1

remove_refines_example :
    let (removed, t) = Store.remove "syrus" lobby in
    IsConsistent t
    × (removed ≡ is_some (Store.lookup "syrus" lobby))
    × ((j : String) → Store.lookup j t ≡ (if "syrus" == j then none else Store.lookup j lobby))
remove_refines_example = remove_refines "syrus" lobby lobby-IsConsistent

syrus_is_found :
    (Store.find_by_user_id "syrus" lobby ≡ some syrus)
    ↔ ((Store.lookup "syrus" lobby ≡ some syrus) × (syrus.user_id ≡ "syrus"))
syrus_is_found = find_by_user_id_iff "syrus" syrus lobby lobby-IsConsistent

lobby_is_listed :
    let listed = Store.all tcg ranked lobby in
    ((id : String)
      → (contains id (ids_of listed) ≡ true)
        ↔ (key_in (Store.lookup id lobby) ≡ some (pool_key tcg ranked)))
    × All (λ p. (Store.lookup p.id lobby ≡ some p) × (key_of p ≡ pool_key tcg ranked)) listed
    × (Store.depth tcg ranked lobby ≡ length listed)
lobby_is_listed = all_lists tcg ranked lobby lobby-IsConsistent

abbrev paired : Match
paired = record {
  id = "m1";
  format = tcg;
  mode = ranked;
  rated = true;
  opponent_kind = human;
  participants = alexis ∷ syrus ∷ [];
}

abbrev proposing : MatchmakingPool
proposing = record {
  store = Store.add bastion new_store;
  pending = ("m1", pend paired 20100) ∷ [];
  requeued_by_match_id = [];
  effects = [];
  drawn_ids = 1;
}

calls_end_example :
    Ends (Pool.add 200 (waiting "syrus" 200 none) proposing)
    × Ends (remove 200 "syrus" proposing)
    × Ends (dequeue_by_socket_id 200 "syrus" proposing)
    × Ends (decline 200 "m1" "syrus" proposing)
    × IsKeyed (accept 200 "m1" "syrus" proposing).1.pending
calls_end_example = calls_end 200 (waiting "syrus" 200 none) "m1" "syrus" proposing (refl, tt)

abbrev policy : PairingPolicy
policy = composite_pairing (fifo_pairing match_ids ∷ bot_fallback match_ids true ∷ [])

tick-Ends_example : Ends (tick (λ id. not (id == "syrus")) policy 300 proposing)
tick-Ends_example = tick-Ends (λ id. not (id == "syrus")) policy 300 proposing (refl, tt)

proposing-m1 : get "m1" proposing.pending ≡ some (pend paired 20100)
unfolding get
proposing-m1 = refl

accept_hands_example :
    let (outcome, t) = accept 200 "m1" "syrus" proposing in
    let found = pend paired 20100 in
    (outcome ≡ answer_accepted)
    × (t.store ≡ proposing.store)
    × ((id : String)
        → get id t.pending ≡ (if "m1" == id then get "m1" t.pending else get id proposing.pending))
    × ((EveryoneAccepts "syrus" found
          × (handed t.effects ≡ handed proposing.effects ++ paired ∷ [])
          × (get "m1" t.pending ≡ none))
        ⊎ (¬ EveryoneAccepts "syrus" found
            × (handed t.effects ≡ handed proposing.effects)
            × ((marked : PendingMatch) × (get "m1" t.pending ≡ some marked)
                × IsMarked "syrus" found marked)))
accept_hands_example =
    accept_hands 200 "m1" "syrus" proposing (pend paired 20100) proposing-m1 refl refl
