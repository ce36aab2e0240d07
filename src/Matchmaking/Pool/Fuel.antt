-- ===== src/Matchmaking/Pool/Fuel.antt =====
-- How far the calls of `add` and `abandon` one inside another go: each abandons a pending match.
use edopro_server_ts.Prelude.{
  ℕ, zero, suc, ◌≤◌, ◌<◌, ◌≡◌, ◌⊎◌, refl, sym, ap, subst, ◌∙◌, String, some, Bool, true, List, [],
  ◌∷◌, All, arith, length, find?, Bool-cases, Option-cases, inl, inr,
}
use edopro_server_ts.Prelude.Eq.{◌==◌, ==_iff, string_eq}
use edopro_server_ts.Prelude.Dict.{delete}
use edopro_server_ts.Matchmaking.{Participant, Presence, socket, poll}
use edopro_server_ts.Matchmaking.Store
use edopro_server_ts.Matchmaking.Pending
use edopro_server_ts.Matchmaking.Pending.{PendingMatch, PendingMatches, PendingParticipant}
use edopro_server_ts.Matchmaking.Pool.{
  MatchmakingPool, Result, done, duplicate_queue_entry, out_of_fuel, and_then, QueueExitOutcome,
  log_exits, note_requeued, remove_and_log, requeue, abandon_with, arrive, add_on_fuel, add,
  abandon, staying,
}

-- Every pending match stands under its own id.
abbrev pub IsKeyed : PendingMatches → Type 0
IsKeyed = All (λ entry. entry.1.pairing.id ≡ entry.0)

-- The call ends, and leaves at most so many matches pending, each under its own id.
abbrev pub EndsWithin : {A : Type 0} → ℕ → Result A → Type 0
EndsWithin n (done a s) = (length s.pending ≤ n) × IsKeyed s.pending
EndsWithin n (duplicate_queue_entry user_id s) = (length s.pending ≤ n) × IsKeyed s.pending
EndsWithin n out_of_fuel = 1 ≤ 0

pub delete-IsKeyed :
    (id : String) (book : PendingMatches)
    → IsKeyed book
    → (length (delete id book) ≤ length book) × IsKeyed (delete id book)
unfolding delete
delete-IsKeyed id [] h = (omega arith, tt)
delete-IsKeyed id ((j, pending) ∷ book) (k, ks) =
    let (short, keyed) = delete-IsKeyed id book ks in
    elim (Bool-cases (j == id)) [
      | inl same ↦ rw same (omega (arith, short), keyed)
      | inr other ↦ rw other (omega (arith, short), (k, keyed))
    ]

-- Deleting the match that a search finds makes the book shorter.
length-delete_found :
    (test : Participant → Bool) (book : PendingMatches) (found : PendingParticipant)
    → IsKeyed book
    → Pending.find test book ≡ some found
    → length (delete found.pending.pairing.id book) < length book
unfolding delete Pending.find
length-delete_found test [] found h e = absurd (ground (arith, e))
length-delete_found test ((j, pending) ∷ book) found (k, ks) e =
    elim (Option-cases (find? test pending.pairing.participants)) [
      | inl absent ↦
          let later : Pending.find test book ≡ some found = ground (arith, absent, e) in
          let shorter = length-delete_found test book found ks later in
          elim (Bool-cases (j == found.pending.pairing.id)) [
            | inl same ↦ rw same (omega (arith, shorter))
            | inr other ↦ rw other (omega (arith, shorter))
          ]
      | inr (p, here) ↦
          let same : pending ≡ found.pending = ground (arith, here, e) in
          let this : (j == found.pending.pairing.id) ≡ true =
            (==_iff j found.pending.pairing.id).1
              (sym k ∙ ap (λ (x : PendingMatch). x.pairing.id) same) in
          rw this (omega (arith, (delete-IsKeyed found.pending.pairing.id book ks).0))
    ]

and_then-EndsWithin :
    {A B : Type 0} (n : ℕ) (r : Result A) (next : A → MatchmakingPool → Result B)
    → EndsWithin n r
    → ((a : A) (s : MatchmakingPool)
        → length s.pending ≤ n
        → IsKeyed s.pending
        → EndsWithin n (next a s))
    → EndsWithin n (and_then r next)
and_then-EndsWithin n (done a s) next (l, k) h = h a s l k
and_then-EndsWithin n (duplicate_queue_entry user_id s) next w h = w
and_then-EndsWithin n out_of_fuel next w h = w

pub log_exits-pending :
    (now : ℕ) (ps : List Participant) (outcome : QueueExitOutcome) (s : MatchmakingPool)
    → (log_exits now ps outcome s).pending ≡ s.pending
log_exits-pending now [] outcome s = refl
log_exits-pending now (p ∷ ps) outcome s = log_exits-pending now ps outcome _

note_requeued-pending :
    (pending : PendingMatch) (ps : List Participant) (s : MatchmakingPool)
    → (note_requeued pending ps s).pending ≡ s.pending
note_requeued-pending pending [] s = refl
note_requeued-pending pending (p ∷ ps) s = refl

pub remove_and_log-pending :
    (now : ℕ) (p : Participant) (outcome : QueueExitOutcome) (s : MatchmakingPool)
    → (remove_and_log now p outcome s).1.pending ≡ s.pending
unfolding remove_and_log
remove_and_log-pending now p outcome s = elim (Bool-cases (Store.remove p.id s.store).0) [
  | inl removed ↦ rw removed refl
  | inr absent ↦ rw absent refl
]

-- What putting a participant back does, when it leaves no more matches pending.
abbrev AddsWithin : ℕ → (Participant → MatchmakingPool → Result Bool) → Type 0
AddsWithin n add_back =
    (p : Participant) (s : MatchmakingPool)
    → length s.pending ≤ n
    → IsKeyed s.pending
    → EndsWithin n (add_back p s)

requeue-EndsWithin :
    (n now : ℕ) (add_back : Participant → MatchmakingPool → Result Bool)
    → AddsWithin n add_back
    → (ps : List Participant) (s : MatchmakingPool) → length s.pending ≤ n
    → IsKeyed s.pending
    → EndsWithin n (requeue now add_back ps s)
unfolding requeue
requeue-EndsWithin n now add_back h [] s l k = (l, k)
requeue-EndsWithin n now add_back h (p ∷ ps) s l k =
    and_then-EndsWithin n (add_back p s) _ (h p s l k)
      (λ _ t l' k'. requeue-EndsWithin n now add_back h ps _ l' k')

abandon_with-EndsWithin :
    (n now : ℕ) (add_back : Participant → MatchmakingPool → Result Bool)
    → AddsWithin n add_back
    → (pending : PendingMatch) (leaving : List Participant) (outcome : QueueExitOutcome)
      (s : MatchmakingPool)
    → length (delete pending.pairing.id s.pending) ≤ n
    → IsKeyed s.pending
    → EndsWithin n (abandon_with now add_back pending leaving outcome s)
unfolding abandon_with
abandon_with-EndsWithin n now add_back h pending leaving outcome s l k =
    let dropped = record s { pending = delete pending.pairing.id s.pending } in
    let logged = log_exits now leaving outcome dropped in
    let stay = staying pending leaving in
    let same : (note_requeued pending stay logged).pending ≡ delete pending.pairing.id s.pending =
      note_requeued-pending pending stay logged ∙ log_exits-pending now leaving outcome dropped in
    requeue-EndsWithin n now add_back h stay (note_requeued pending stay logged)
      (subst (λ b. length b ≤ n) (sym same) l)
      (subst IsKeyed (sym same) (delete-IsKeyed pending.pairing.id s.pending k).1)

arrive-EndsWithin :
    (n now : ℕ)
    (abandon_it : PendingMatch
      → List Participant
      → QueueExitOutcome
      → MatchmakingPool
      → Result Unit)
    (p : Participant) (s : MatchmakingPool)
    → length s.pending ≤ n
    → IsKeyed s.pending
    → ((found : PendingParticipant) (leaving : List Participant) (outcome : QueueExitOutcome)
        → Pending.find_by_user_id p.user_id s.pending ≡ some found
        → EndsWithin n (abandon_it found.pending leaving outcome s))
    → EndsWithin n (arrive abandon_it now p s)
unfolding arrive
arrive-EndsWithin n now abandon_it p s l k h =
    elim (Option-cases (Store.find_by_user_id p.user_id s.store)) [
      | inr (queued, found) ↦ elim (Presence-cases p.presence) [
        | inl polls ↦ rw (found, polls, arrive) (l, k)
        | inr is_socket ↦
            rw (found, is_socket, arrive)
              (let same = remove_and_log-pending now queued _ s in
                (subst (λ b. length b ≤ n) (sym same) l, subst IsKeyed (sym same) k))
      ]
      | inl absent ↦ elim (Option-cases (Pending.find_by_user_id p.user_id s.pending)) [
        | inl nowhere ↦ rw (absent, nowhere, arrive) (l, k)
        | inr (found, waiting) ↦ elim (Presence-cases p.presence) [
          | inl polls ↦ rw (absent, waiting, polls, arrive) (l, k)
          | inr is_socket ↦
              rw (absent, waiting, is_socket, arrive)
                (and_then-EndsWithin n _ _ (h found _ _ waiting) (λ _ t l' k'. (l', k')))
        ]
      ]
    ]
  where
    Presence-cases : (presence : Presence) → (presence ≡ poll) ⊎ (presence ≡ socket)
    Presence-cases poll = inl refl
    Presence-cases socket = inr refl

add_on_fuel-EndsWithin :
    (fuel now : ℕ) (p : Participant) (s : MatchmakingPool)
    → length s.pending ≤ fuel
    → IsKeyed s.pending
    → EndsWithin fuel (add_on_fuel fuel now p s)
unfolding add_on_fuel
add_on_fuel-EndsWithin zero now p s l k =
    arrive-EndsWithin zero now (λ _ _ _ _. out_of_fuel) p s l k
      (λ found _ _ e. omega (
        arith,
        l,
        length-delete_found (λ (q : Participant). q.user_id == p.user_id) s.pending found k e,
      ))
add_on_fuel-EndsWithin (suc fuel) now p s l k =
    arrive-EndsWithin (suc fuel) now (abandon_with now (add_on_fuel fuel now)) p s l k
      (λ found leaving outcome e. EndsWithin-weaken fuel _ (
        abandon_with-EndsWithin fuel now (add_on_fuel fuel now) (add_on_fuel-EndsWithin fuel now)
          found.pending leaving outcome s
          (omega (
            arith,
            l,
            length-delete_found (λ (q : Participant). q.user_id == p.user_id) s.pending found k e,
          ))
          k))
  where
    EndsWithin-weaken : {A : Type 0} (n : ℕ) (r : Result A) → EndsWithin n r → EndsWithin (suc n) r
    EndsWithin-weaken n (done a s) (l, k) = (omega (arith, l), k)
    EndsWithin-weaken n (duplicate_queue_entry user_id s) (l, k) = (omega (arith, l), k)
    EndsWithin-weaken n out_of_fuel h = h

-- While every pending match stands under its own id, an arrival ends, whichever matches it and the
-- arrivals it causes abandon: it leaves no more matches pending, each still under its id.
pub add_ends :
    (now : ℕ) (p : Participant) (s : MatchmakingPool)
    → IsKeyed s.pending
    → EndsWithin (length s.pending) (add now p s)
unfolding add
add_ends now p s k = add_on_fuel-EndsWithin (length s.pending) now p s (omega arith) k

-- So does abandoning a match.
pub abandon_ends :
    (now : ℕ) (pending : PendingMatch) (leaving : List Participant) (outcome : QueueExitOutcome)
    (s : MatchmakingPool)
    → IsKeyed s.pending
    → EndsWithin (length s.pending) (abandon now pending leaving outcome s)
unfolding abandon
abandon_ends now pending leaving outcome s k =
    abandon_with-EndsWithin (length s.pending) now (add_on_fuel (length s.pending) now)
      (add_on_fuel-EndsWithin (length s.pending) now) pending leaving outcome s
      (delete-IsKeyed pending.pairing.id s.pending k).0 k
