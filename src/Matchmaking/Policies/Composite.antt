-- ===== src/Matchmaking/Policies/Composite.antt =====
-- CompositePairingPolicy.ts: candidates dealt out to matches by policies that are composed.
use mathlib.Core.List.{Perm, Permᴰ, perm_middle, append_assoc}
use mathlib.Core.List.Perm
use mathlib.Core.List.Permᴰ
use mathlib.Core.Logic.{∥∥₁_map, ∥∥₁_elim}
use native.Mathlib.Nat.{ℕ_set}
use edopro_server_ts.Prelude.{
  ℕ, ◌+◌, ◌≡◌, refl, sym, ap, subst, All-map, ◌∙◌, ◌⊎◌, inl, inr, String, Bool, true, false, not,
  ◌<◌, ◌≤◌, leb, count_if, count_if-append, List, [], ◌∷◌, ◌++◌, All, length, filter, arith,
  if◌then◌else◌, Bool-cases,
}
use edopro_server_ts.Prelude.Eq.{contains, string_eq, ==_iff, ==_refl, ◌==◌}
use edopro_server_ts.Matchmaking.{Participant, Match, participants_of, ids_of}
use edopro_server_ts.Matchmaking.Policies.{
  PairingPolicy, unmatched, composite_pairing, fifo_pairing, bot_fallback, has_waited_out,
  sort_by_time,
}
use edopro_server_ts.Matchmaking.Policies.Fifo.{
  sort_by_time-perm, pair_up-split, bot_matches-filter,
}

-- How many of the participants have the id.
abbrev pub amount : String → List Participant → ℕ
amount k = count_if (λ (p : Participant). p.id == k)

-- No id stands in the list twice.
abbrev pub HasDistinctIds : List Participant → Type 0
HasDistinctIds ps = (k : String) → amount k ps ≤ 1

-- What a policy promises: it deals the candidates out to matches, and repeats or invents nobody.
pub record IsPairing (policy : PairingPolicy) : Type 0 where
  pub deals :
      (n : ℕ) (candidates : List Participant) (now : ℕ)
      → (rest : List Participant) × Perm candidates
          (participants_of (policy n candidates now) ++ rest)

module _ (keep : Participant → Bool) where
  filter-cons :
      (a : Participant) (xs ys : List Participant)
      → Permᴰ (filter keep xs) (filter keep ys)
      → Permᴰ (filter keep (a ∷ xs)) (filter keep (a ∷ ys))
  filter-cons a xs ys d = elim (Bool-cases (keep a)) [
    | inl k ↦ rw k (Permᴰ.cons refl d)
    | inr k ↦ rw k d
  ]

  filter-swap :
      (a b : Participant) (l : List Participant)
      → Permᴰ (filter keep (a ∷ b ∷ l)) (filter keep (b ∷ a ∷ l))
  filter-swap a b l = elim (Bool-cases (keep a)) [
    | inl k ↦ elim (Bool-cases (keep b)) [
      | inl k' ↦ rw (k, k') (Permᴰ.swap refl refl)
      | inr k' ↦ rw (k, k') (Permᴰ.refl _)
    ]
    | inr k ↦ elim (Bool-cases (keep b)) [
      | inl k' ↦ rw (k, k') (Permᴰ.refl _)
      | inr k' ↦ rw (k, k') (Permᴰ.refl _)
    ]
  ]

  filter-permᴰ : {xs ys : List Participant} → Permᴰ xs ys → Permᴰ (filter keep xs) (filter keep ys)
  filter-permᴰ Permᴰ.nil = Permᴰ.nil
  filter-permᴰ (Permᴰ.cons {a} {b} {l₁ = xs} {l₂ = ys} e d) =
      subst (λ c. Permᴰ (filter keep (a ∷ xs)) (filter keep (c ∷ ys))) e
        (filter-cons a xs ys (filter-permᴰ d))
  filter-permᴰ (Permᴰ.swap {a} {b} {a'} {b'} {l} e f) =
      subst (λ c. Permᴰ (filter keep (a ∷ b ∷ l)) (filter keep (a' ∷ c ∷ l))) e
        (subst (λ c. Permᴰ (filter keep (a ∷ b ∷ l)) (filter keep (c ∷ a ∷ l))) f
          (filter-swap a b l))
  filter-permᴰ (Permᴰ.trans d d') = Permᴰ.trans (filter-permᴰ d) (filter-permᴰ d')

  filter-perm : {xs ys : List Participant} → Perm xs ys → Perm (filter keep xs) (filter keep ys)
  filter-perm p = ∥∥₁_map p filter-permᴰ

  filter_split :
      (dropped kept : List Participant)
      → All (λ p. keep p ≡ false) dropped
      → All (λ p. keep p ≡ true) kept
      → filter keep (dropped ++ kept) ≡ kept
  filter_split [] [] d k = refl
  filter_split [] (p ∷ ps) d (k, ks) = rw k (ap (λ xs. p ∷ xs) (filter_split [] ps tt ks))
  filter_split (p ∷ ps) kept (d, ds) ks = rw d (filter_split ps kept ds ks)

amount-permᴰ : (k : String) {xs ys : List Participant} → Permᴰ xs ys → amount k xs ≡ amount k ys
amount-permᴰ k Permᴰ.nil = refl
amount-permᴰ k (Permᴰ.cons {a} {b} {l₁ = xs} {l₂ = ys} e d) =
    ap (λ c. amount k (c ∷ xs)) e ∙ ground (arith, amount-permᴰ k d)
amount-permᴰ k (Permᴰ.swap {a} {b} {a'} {b'} {l} e f) =
    ground (arith, ap (λ (c : Participant). c.id) e, ap (λ (c : Participant). c.id) f)
amount-permᴰ k (Permᴰ.trans d d') = amount-permᴰ k d ∙ amount-permᴰ k d'

amount-perm : (k : String) {xs ys : List Participant} → Perm xs ys → amount k xs ≡ amount k ys
amount-perm k p = ∥∥₁_elim p (ℕ_set _ _) (amount-permᴰ k)

contains-amount :
    (k : String) (ps : List Participant)
    → contains k (ids_of ps) ≡ (if leb (amount k ps) 0 then false else true)
contains-amount k [] = refl
contains-amount k (p ∷ ps) = ground (arith, contains-amount k ps, ==_iff p.id k, ==_iff k p.id)

own_amounts :
    (ps qs : List Participant)
    → ((k : String) → amount k ps ≤ amount k qs)
    → All (λ p. 0 < amount p.id qs) ps
own_amounts [] qs h = tt
own_amounts (p ∷ ps) qs h =
    (ground (arith, h p.id, ==_refl p.id), own_amounts ps qs (λ k. ground (arith, h k)))

other_amounts :
    (ps qs : List Participant)
    → ((k : String) → amount k ps + amount k qs ≤ 1)
    → All (λ p. amount p.id qs ≡ 0) ps
other_amounts [] qs h = tt
other_amounts (p ∷ ps) qs h =
    (ground (arith, h p.id, ==_refl p.id), other_amounts ps qs (λ k. ground (arith, h k)))

-- Who is left after a deal are those it did not take.
unmatched-rest :
    (ms : List Match) (candidates rest : List Participant)
    → HasDistinctIds candidates
    → Perm candidates (participants_of ms ++ rest)
    → Perm (unmatched ms candidates) rest
unmatched-rest ms candidates rest distinct p =
    subst (Perm (unmatched ms candidates))
      (filter_split keep taken rest
        (All-map (λ q. 0 < amount q.id taken) (λ q. keep q ≡ false)
          (λ q h. ground (arith, h, contains-amount q.id taken)) taken
          (own_amounts taken taken (λ k. omega arith)))
        (All-map (λ q. amount q.id taken ≡ 0) (λ q. keep q ≡ true)
          (λ q h. ground (arith, h, contains-amount q.id taken)) rest
          (other_amounts rest taken (λ k. omega (
            arith,
            distinct k,
            amount-perm k p,
            count_if-append (λ (q : Participant). q.id == k) taken rest,
          )))))
      (filter-perm keep p)
  where
    taken : List Participant
    taken = participants_of ms

    keep : Participant → Bool
    keep q = not (contains q.id (ids_of taken))

unmatched-HasDistinctIds :
    (ms : List Match) (candidates rest : List Participant)
    → HasDistinctIds candidates
    → Perm candidates (participants_of ms ++ rest)
    → HasDistinctIds (unmatched ms candidates)
unmatched-HasDistinctIds ms candidates rest distinct p k = omega (
  arith,
  distinct k,
  amount-perm k p,
  amount-perm k (unmatched-rest ms candidates rest distinct p),
  count_if-append (λ (q : Participant). q.id == k) (participants_of ms) rest,
)

no_match_or_some : (ms : List Match) → (ms ≡ []) ⊎ ((m : Match) × (ns : List Match) × (ms ≡ m ∷ ns))
no_match_or_some [] = inl refl
no_match_or_some (m ∷ ns) = inr (m, ns, refl)

participants_of-append :
    (ms ns : List Match) → participants_of (ms ++ ns) ≡ participants_of ms ++ participants_of ns
participants_of-append [] ns = refl
participants_of-append (m ∷ ms) ns =
    ap (λ ps. m.participants ++ ps) (participants_of-append ms ns)
    ∙ sym (append_assoc m.participants (participants_of ms) (participants_of ns))

-- A deal of the candidates, and a deal of those it left, make one deal.
deal_again :
    (ms ns : List Match) (candidates rest rest' : List Participant)
    → HasDistinctIds candidates
    → Perm candidates (participants_of ms ++ rest)
    → Perm (unmatched ms candidates) (participants_of ns ++ rest')
    → Perm candidates (participants_of (ms ++ ns) ++ rest')
deal_again ms ns candidates rest rest' distinct first second =
    subst (Perm candidates)
      (sym (
        ap (λ ps. ps ++ rest') (participants_of-append ms ns)
        ∙ append_assoc (participants_of ms) (participants_of ns) rest'))
      (Perm.trans first (
        Perm.append Perm.rfl
          (Perm.trans (Perm.symm (unmatched-rest ms candidates rest distinct first)) second)))

-- Policies that each deal the candidates out deal them out when composed.
composite_pairing-deals :
    (policies : List PairingPolicy)
    → All IsPairing policies
    → (n : ℕ) (candidates : List Participant) (now : ℕ) → HasDistinctIds candidates
    → (rest : List Participant) × Perm candidates
        (participants_of (composite_pairing policies n candidates now) ++ rest)
unfolding composite_pairing
composite_pairing-deals [] h n candidates now distinct = (candidates, Perm.rfl)
composite_pairing-deals (policy ∷ policies) (h, hs) n candidates now distinct =
    let (rest, first) = h.deals n candidates now in
    elim (no_match_or_some (policy n candidates now)) [
      | inl none_formed ↦
          rw none_formed (composite_pairing-deals policies hs n candidates now distinct)
      | inr (m, ns, formed) ↦
          let ms = m ∷ ns in
          let dealt = subst (λ xs. Perm candidates (participants_of xs ++ rest)) formed first in
          let (rest', second) =
            composite_pairing-deals policies hs (n + length ms) (unmatched ms candidates) now
              (unmatched-HasDistinctIds ms candidates rest distinct dealt) in
          rw formed (rest', deal_again ms _ candidates rest rest' distinct dealt second)
    ]

module _ (new_match_id : ℕ → String) where
  pub fifo_pairing-IsPairing : IsPairing (fifo_pairing new_match_id)
  unfolding fifo_pairing
  fifo_pairing-IsPairing = record {
    deals = λ n candidates now.
        let (rest, same, _) = pair_up-split new_match_id n (sort_by_time candidates) in
        (rest, subst (Perm candidates) (sym same) (Perm.symm (sort_by_time-perm candidates)));
  }

  filter-deals :
      (keep : Participant → Bool) (ps : List Participant)
      → Perm ps (filter keep ps ++ filter (λ p. not (keep p)) ps)
  filter-deals keep [] = Perm.nil
  filter-deals keep (p ∷ ps) = elim (Bool-cases (keep p)) [
    | inl kept ↦ rw kept (Perm.cons p (filter-deals keep ps))
    | inr dropped ↦ rw dropped (
        Perm.trans (Perm.cons p (filter-deals keep ps))
          (Perm.symm (perm_middle (filter keep ps) (filter (λ q. not (keep q)) ps))))
  ]

  pub bot_fallback-IsPairing : (available : Bool) → IsPairing (bot_fallback new_match_id available)
  unfolding bot_fallback
  bot_fallback-IsPairing false = record { deals = λ n candidates now. (candidates, Perm.rfl) }
  bot_fallback-IsPairing true = record {
    deals = λ n candidates now. (
      filter (λ p. not (has_waited_out now p)) candidates,
      subst (λ ps. Perm candidates (ps ++ filter (λ p. not (has_waited_out now p)) candidates))
          (sym (bot_matches-filter new_match_id n candidates now).0)
          (filter-deals (has_waited_out now) candidates),
    );
  }

-- Candidates with distinct ids that policies which only deal them out are composed for are dealt
-- out to the matches formed: the participants of all the matches, and some that are left, are the
-- candidates, so nobody is assigned twice and nobody is invented.
pub composite_pairing_deals :
    (policies : List PairingPolicy)
    → All IsPairing policies
    → (n : ℕ) (candidates : List Participant) (now : ℕ) → HasDistinctIds candidates
    → let ms = composite_pairing policies n candidates now in
      ((rest : List Participant) × Perm candidates (participants_of ms ++ rest))
      × HasDistinctIds (participants_of ms)
composite_pairing_deals policies h n candidates now distinct =
    let (rest, dealt) = composite_pairing-deals policies h n candidates now distinct in
    (
      (rest, dealt),
      λ k. omega (
        arith,
        distinct k,
        amount-perm k dealt,
        count_if-append (λ (q : Participant). q.id == k)
            (participants_of (composite_pairing policies n candidates now)) rest,
      ),
    )
