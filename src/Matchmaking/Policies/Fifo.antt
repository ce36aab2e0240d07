-- ===== src/Matchmaking/Policies/Fifo.antt =====
-- Who the FIFO policy pairs, and whom the bot policy takes.
use mathlib.Core.List.{Perm}
use mathlib.Core.List.Perm
use edopro_server_ts.Prelude.{
  ℕ, ◌+◌, ◌≤◌, ◌<◌, ◌≡◌, refl, sym, subst, ap, inl, inr, String, Bool, true, false, List, [], ◌∷◌,
  ◌++◌, All, All-map, length, filter, arith, leb, Bool-cases, Option-cases, some, ◌⊎◌,
}
use edopro_server_ts.Matchmaking.{
  Participant, Match, human, bot, participants_of, clamp_bot_fallback_delay,
}
use edopro_server_ts.Matchmaking.Policies.{
  place, sort_by_time, pair_up, fifo_pairing, has_waited_out, bot_matches, bot_fallback,
}

-- Everyone in the list waits at least as long as those after them.
abbrev pub IsByTime : List Participant → Type 0
IsByTime [] = Unit
IsByTime (p ∷ ps) = All (λ q. p.enqueued_at ≤ q.enqueued_at) ps × IsByTime ps

place-perm : (p : Participant) (ps : List Participant) → Perm (place p ps) (p ∷ ps)
unfolding place
place-perm p [] = Perm.rfl
place-perm p (q ∷ qs) = elim (Bool-cases (leb p.enqueued_at q.enqueued_at)) [
  | inl first ↦ rw first Perm.rfl
  | inr later ↦ rw later (Perm.trans (Perm.cons q (place-perm p qs)) (Perm.swap p q qs))
]

place-All :
    (P : Participant → Type 0) (p : Participant) (ps : List Participant)
    → P p
    → All P ps
    → All P (place p ps)
unfolding place
place-All P p [] h hs = (h, tt)
place-All P p (q ∷ qs) h (k, ks) = elim (Bool-cases (leb p.enqueued_at q.enqueued_at)) [
  | inl first ↦ rw first (h, (k, ks))
  | inr later ↦ rw later (k, place-All P p qs h ks)
]

place-IsByTime : (p : Participant) (ps : List Participant) → IsByTime ps → IsByTime (place p ps)
unfolding place
place-IsByTime p [] h = (tt, tt)
place-IsByTime p (q ∷ qs) (k, ks) = elim (Bool-cases (leb p.enqueued_at q.enqueued_at)) [
  | inl first ↦
      let le : p.enqueued_at ≤ q.enqueued_at = ground (arith, first) in
      rw first ((le, All-map _ _ (λ r h. omega (arith, le, h)) qs k), (k, ks))
  | inr later ↦ rw later (
    place-All (λ r. q.enqueued_at ≤ r.enqueued_at) p qs (ground (arith, later)) k,
    place-IsByTime p qs ks,
  )
]

pub sort_by_time-perm : (ps : List Participant) → Perm (sort_by_time ps) ps
unfolding sort_by_time
sort_by_time-perm [] = Perm.nil
sort_by_time-perm (p ∷ ps) =
    Perm.trans (place-perm p (sort_by_time ps)) (Perm.cons p (sort_by_time-perm ps))

sort_by_time-IsByTime : (ps : List Participant) → IsByTime (sort_by_time ps)
unfolding sort_by_time
sort_by_time-IsByTime [] = tt
sort_by_time-IsByTime (p ∷ ps) = place-IsByTime p (sort_by_time ps) (sort_by_time-IsByTime ps)

abbrev pub IsPair : Match → Type 0
IsPair m = (length m.participants ≡ 2) × (m.opponent_kind ≡ human) × (m.rated ≡ true)

abbrev pub IsBotMatch : Match → Type 0
IsBotMatch m = (length m.participants ≡ 1) × (m.opponent_kind ≡ bot) × (m.rated ≡ false)

-- A participant who asked for a bot after some delay, and has waited longer than 30 seconds and longer
-- than that delay, or else longer than 20 minutes, which count for any longer delay.
abbrev pub IsDue : ℕ → Participant → Type 0
IsDue now p =
    (delay : ℕ) × (p.bot_fallback_after_ms ≡ some delay)
    × (p.enqueued_at + 30000 < now)
    × ((p.enqueued_at + delay < now) ⊎ (p.enqueued_at + 1200000 < now))

-- The second list is what is left of the first when exactly the elements without `P` are dropped.
pub data Picks (P : Participant → Type 0) : List Participant → List Participant → Type 0 where
  stop : Picks P [] []
  take_it :
      {p : Participant} {ps qs : List Participant} → P p → Picks P ps qs → Picks P (p ∷ ps) (p ∷ qs)
  leave_it :
      {p : Participant} {ps qs : List Participant} → (P p → ⊥) → Picks P ps qs → Picks P (p ∷ ps) qs

has_waited_out-IsDue : (now : ℕ) (p : Participant) → has_waited_out now p ≡ true → IsDue now p
unfolding has_waited_out clamp_bot_fallback_delay
has_waited_out-IsDue now p h = elim (Option-cases p.bot_fallback_after_ms) [
  | inl never ↦ absurd (ground (arith, h, never))
  | inr (delay, asked) ↦ (delay, asked, ground (arith, h, asked), ground (arith, h, asked))
]

IsDue-has_waited_out : (now : ℕ) (p : Participant) → IsDue now p → has_waited_out now p ≡ true
unfolding has_waited_out clamp_bot_fallback_delay
IsDue-has_waited_out now p (delay, asked, long, longer) = ground (arith, asked, long, longer)

nothing_picked :
    (P : Participant → Type 0) (ps : List Participant) → Picks (λ p. (false ≡ true) × P p) ps []
nothing_picked P [] = stop
nothing_picked P (p ∷ ps) = leave_it (λ (clash, _). cc) (nothing_picked P ps)

module _ (new_match_id : ℕ → String) where
  -- The matches split the list in order; at most its last element is left over.
  pub pair_up-split :
      (n : ℕ) (ps : List Participant)
      → (rest : List Participant) × (participants_of (pair_up new_match_id n ps) ++ rest ≡ ps)
        × (length rest ≤ 1)
  unfolding pair_up
  pair_up-split n [] = ([], refl, omega arith)
  pair_up-split n (p ∷ []) = (p ∷ [], refl, omega arith)
  pair_up-split n (p ∷ q ∷ ps) =
      let (rest, same, short) = pair_up-split (n + 1) ps in
      (rest, ap (λ xs. p ∷ q ∷ xs) same, short)

  pair_up-IsPair : (n : ℕ) (ps : List Participant) → All IsPair (pair_up new_match_id n ps)
  unfolding pair_up
  pair_up-IsPair n [] = tt
  pair_up-IsPair n (p ∷ []) = tt
  pair_up-IsPair n (p ∷ q ∷ ps) = ((refl, refl, refl), pair_up-IsPair (n + 1) ps)

  -- The FIFO policy forms rated human matches of two, and pairs all candidates, longest wait
  -- first, but at most one, who has not waited longer than anyone paired: its participants in
  -- order and then the one left over are the candidates, sorted by their time of entry.
  pub fifo_pairing_order :
      (n : ℕ) (candidates : List Participant) (now : ℕ)
      → let ms = fifo_pairing new_match_id n candidates now in
        (rest : List Participant) × (length rest ≤ 1)
        × Perm (participants_of ms ++ rest) candidates
        × IsByTime (participants_of ms ++ rest)
        × All IsPair ms
  unfolding fifo_pairing
  fifo_pairing_order n candidates now =
      let ordered = sort_by_time candidates in
      let (rest, same, short) = pair_up-split n ordered in
      (
        rest,
        short,
        subst (λ xs. Perm xs candidates) (sym same) (sort_by_time-perm candidates),
        subst IsByTime (sym same) (sort_by_time-IsByTime candidates),
        pair_up-IsPair n ordered,
      )

  pub bot_matches-filter :
      (n : ℕ) (ps : List Participant) (now : ℕ)
      → (participants_of (bot_matches new_match_id n ps now) ≡ filter (has_waited_out now) ps)
        × All IsBotMatch (bot_matches new_match_id n ps now)
  unfolding bot_matches
  bot_matches-filter n [] now = (refl, tt)
  bot_matches-filter n (p ∷ ps) now = elim (Bool-cases (has_waited_out now p)) [
    | inl out ↦
        let (same, bots) = bot_matches-filter (n + 1) ps now in
        rw (out, bot_matches) (ap (λ xs. p ∷ xs) same, ((refl, refl, refl), bots))
    | inr waits ↦
        let (same, bots) = bot_matches-filter n ps now in rw (waits, bot_matches) (same, bots)
  ]

  filter-Picks :
      (now : ℕ) (ps : List Participant)
      → Picks (λ p. (true ≡ true) × IsDue now p) ps (filter (has_waited_out now) ps)
  filter-Picks now [] = stop
  filter-Picks now (p ∷ ps) = elim (Bool-cases (has_waited_out now p)) [
    | inl out ↦ rw out (take_it (refl, has_waited_out-IsDue now p out) (filter-Picks now ps))
    | inr waits ↦
        rw waits (leave_it (λ (_, due). cc (IsDue-has_waited_out now p due)) (filter-Picks now ps))
  ]

  -- The fallback policy forms unrated bot matches of one, in order for exactly these candidates: with no
  -- bot available none, and otherwise those who asked for a bot after a delay and have waited longer
  -- than thirty seconds, and longer than the delay or than twenty minutes.
  pub bot_fallback_takes :
      (available : Bool) (n : ℕ) (candidates : List Participant) (now : ℕ)
      → let ms = bot_fallback new_match_id available n candidates now in
        All IsBotMatch ms
        × Picks (λ p. (available ≡ true) × IsDue now p) candidates (participants_of ms)
  unfolding bot_fallback
  bot_fallback_takes false n candidates now = (tt, nothing_picked (IsDue now) candidates)
  bot_fallback_takes true n candidates now =
      let (same, bots) = bot_matches-filter n candidates now in
      (
        bots,
        subst (Picks (λ p. (true ≡ true) × IsDue now p) candidates) (sym same)
            (filter-Picks now candidates),
      )
