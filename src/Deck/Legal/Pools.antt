-- ===== src/Deck/Legal/Pools.antt =====
-- Whitelists, and the card pool of a YGOPro room.
use Prim.Native.Nat.{bit_and}
use mathlib.Core.List.{Memᴰ}
use edopro_server_ts.Prelude.{
  ℕ, ◌≡◌, ◌≢◌, refl, sym, ◌↔◌, ◌⊎◌, inl, inr, none, true, false, List, [], ◌∷◌, All, All-iff, arith,
  Bool-cases,
}
use edopro_server_ts.Prelude.Eq.{◌==◌, nat_eq, ==_iff, contains}
use edopro_server_ts.BanList.{BanList}
use edopro_server_ts.Deck.{Card, Deck, all_cards_of}
use edopro_server_ts.Deck.Handlers.{Handler}
use edopro_server_ts.Deck.Handlers.Availability.{
  available_cards, is_available, available_error, available_card, YgoproRule, avail_flag_for,
  check_avail, card_availability, avail_custom,
}
use edopro_server_ts.Deck.Tallies.{first_error-eq-none_iff}
use edopro_server_ts.Deck.Handlers.{pass}
use edopro_server_ts.Deck.Legal.Rules.{each_card}

List-cases {ℓ} : {A : Type ℓ} (xs : List A) → (xs ≡ []) ⊎ ((y : A) × (ys : List A) × (xs ≡ y ∷ ys))
List-cases [] = inl refl
List-cases (x ∷ xs) = inr (x, xs, refl)

abbrev pub IsWhitelisted : BanList → Card → Type 0
IsWhitelisted b card =
    Memᴰ card.code (available_cards b) ⊎ ((card.alias ≢ 0) × Memᴰ card.alias (available_cards b))

contains_iff : (a : ℕ) (xs : List ℕ) → (contains a xs ≡ true) ↔ Memᴰ a xs
contains_iff a xs = (there a xs, back a xs)
  where
    there : (a : ℕ) (xs : List ℕ) → contains a xs ≡ true → Memᴰ a xs
    there a [] h = cc
    there a (x ∷ xs) h = elim (Bool-cases (x == a)) [
      | inl same ↦ Memᴰ.head (sym ((==_iff x a).0 same))
      | inr other ↦ Memᴰ.tail (there a xs (ground (arith, h, other)))
    ]

    back : (a : ℕ) (xs : List ℕ) → Memᴰ a xs → contains a xs ≡ true
    back a [] m = elim m [ ]
    back a (x ∷ xs) (Memᴰ.head e) = ground (arith, e, ==_iff x a)
    back a (x ∷ xs) (Memᴰ.tail m) = ground (arith, back a xs m)

available_error-eq-none_iff :
    (b : BanList) (card : Card)
    → (available_error (available_cards b) card ≡ none) ↔ IsWhitelisted b card
unfolding is_available
available_error-eq-none_iff b card =
    let (sound, complete) = contains_iff card.code (available_cards b) in
    let (sound', complete') = contains_iff card.alias (available_cards b) in
    (
      λ h. elim (Bool-cases (contains card.code (available_cards b))) [
        | inl e ↦ inl (sound e)
        | inr e ↦ inr (ground (arith, h, e), sound' (ground (arith, h, e)))
      ],
      elim [ inl m ↦ ground (arith, complete m) | inr (n, m) ↦ ground (arith, n, complete' m) ],
    )

-- A whitelist with no entry at all is not enforced.
abbrev pub HasWhitelistedCards : BanList → Deck → Type 0
HasWhitelistedCards b deck =
    (b.whitelisted ≡ false) ⊎ (available_cards b ≡ []) ⊎ All (IsWhitelisted b) (all_cards_of deck)

pub available_card-eq-none_iff :
    (b : BanList) (deck : Deck) → (available_card b pass deck ≡ none) ↔ HasWhitelistedCards b deck
unfolding available_card
available_card-eq-none_iff b deck = elim (Bool-cases b.whitelisted) [
  | inr e ↦ (λ _. inl e, λ _. ground (arith, e))
  | inl e ↦ elim (List-cases (available_cards b)) [
    | inl n ↦ (λ _. inr (inl n), λ _. ground (arith, e, n))
    | inr (x, xs, c) ↦
        let check = available_error (available_cards b) in
        let (there, back) = first_error-eq-none_iff check (all_cards_of deck) in
        let (sound, complete) = All-iff _ _ (available_error-eq-none_iff b) (all_cards_of deck) in
        (
          λ h. inr (inr (sound (there (ground (arith, h, e, c))))),
          elim [
            | inl f ↦ cc
            | inr (inl n) ↦ cc
            | inr (inr h) ↦ ground (arith, back (complete h), e, c)
          ],
        )
  ]
]

-- Custom cards are in every pool; any other card needs all the bits that the rule asks for.
abbrev pub IsInPool : YgoproRule → Card → Type 0
IsInPool rule card =
    (bit_and card.variant avail_custom ≢ 0)
    ⊎ (bit_and card.variant (avail_flag_for rule) ≡ avail_flag_for rule)

abbrev pub HasPoolCards : YgoproRule → Deck → Type 0
HasPoolCards rule deck = (avail_flag_for rule ≡ 0) ⊎ All (IsInPool rule) (all_cards_of deck)

check_avail-eq-none_iff :
    (rule : YgoproRule) (card : Card)
    → (check_avail (avail_flag_for rule) card ≡ none) ↔ IsInPool rule card
unfolding check_avail
check_avail-eq-none_iff rule card = ground arith

pub card_availability-eq-none_iff :
    (rule : YgoproRule) (next : Handler) (deck : Deck)
    → (card_availability rule next deck ≡ none) ↔ (HasPoolCards rule deck × (next deck ≡ none))
unfolding card_availability
card_availability-eq-none_iff rule next deck = elim (Bool-cases (avail_flag_for rule == 0)) [
  | inl e ↦ (λ h. (inl (ground (arith, e)), ground (arith, h, e)), λ (h, n). ground (arith, n, e))
  | inr e ↦
      let (there, back) =
        each_card (check_avail (avail_flag_for rule)) (IsInPool rule) next deck
          (check_avail-eq-none_iff rule) in
      (
        λ h. let (p, n) = there (ground (arith, h, e)) in (inr p, n),
        λ (h, n). elim h [
          | inl z ↦ absurd (ground (arith, z, e))
          | inr p ↦ ground (arith, back (p, n), e)
        ],
      )
]
