-- ===== src/Deck/Legal/Points.antt =====
-- Credit limits, the three-copies rule and the points of a Genesys deck.
use Prim.Native.Nat.{bit_and}
use edopro_server_ts.Prelude.{
  ℕ, ◌+◌, ◌≤◌, ◌≡◌, ◌≢◌, ◌↔◌, inl, inr, String, none, List, [], ◌∷◌, map, ltb, All, All-iff, arith,
  Bool-cases, Option-cases,
}
use edopro_server_ts.Prelude.Eq.{nat_eq}
use edopro_server_ts.Prelude.Dict.{get}
use edopro_server_ts.BanList.{BanList, CreditLimit}
use edopro_server_ts.Deck.{Card, Deck, all_cards_of, type_pendulum_or_link}
use edopro_server_ts.Deck.Handlers.{Handler, first_error}
use edopro_server_ts.Deck.Handlers.Genesys.{kind_error, card_points, total_points, genesys_rules}
use edopro_server_ts.Deck.Handlers.Credit.{spend, credit_error, credit_limit}
use edopro_server_ts.Deck.Tallies.{first_error-eq-none_iff, or_next-eq-none_iff}
use edopro_server_ts.Prelude.Counts.{value_or_zero, count, tally, get-tally}
use edopro_server_ts.Deck.Handlers.Genesys.{canonical_id, copies_error, max_copies}
use edopro_server_ts.Prelude.Counts.Agree.{entries_iff, tally-HasDistinctKeys}

-- What the cards of a deck spend of one allowance.
pub credits : CreditLimit → List Card → ℕ
credits limit [] = 0
credits limit (card ∷ cards) = value_or_zero (get card.code limit.cards) + credits limit cards

spend-eq-none_iff :
    (limit : CreditLimit) (spent : ℕ) (cards : List Card)
    → spent ≤ limit.cap
    → (spend limit spent cards ≡ none) ↔ (spent + credits limit cards ≤ limit.cap)
unfolding spend credits
spend-eq-none_iff limit spent [] h = ground (arith, h)
spend-eq-none_iff limit spent (card ∷ cards) h = elim (Option-cases (get card.code limit.cards)) [
  | inl free ↦
      let (there, back) = spend-eq-none_iff limit spent cards h in
      (
        λ e. ground (arith, free, there (ground (arith, e, free))),
        λ k. ground (arith, free, back (ground (arith, k, free))),
      )
  | inr (credit, costs) ↦ elim (Bool-cases (ltb limit.cap (spent + credit))) [
    | inl over ↦ (λ e. ground (arith, e, costs, over), λ k. ground (arith, k, costs, over))
    | inr within ↦
        let (there, back) =
          spend-eq-none_iff limit (spent + credit) cards (ground (arith, within)) in
        (
          λ e. ground (arith, costs, there (ground (arith, e, costs, within))),
          λ k. ground (arith, costs, within, back (ground (arith, k, costs))),
        )
  ]
]

abbrev pub IsWithinCredit : List Card → String × CreditLimit → Type 0
IsWithinCredit cards (identifier, limit) = credits limit cards ≤ limit.cap

credit_error-eq-none_iff :
    (cards : List Card) (entry : String × CreditLimit)
    → (credit_error cards entry ≡ none) ↔ IsWithinCredit cards entry
credit_error-eq-none_iff cards (identifier, limit) = ground (arith, spend-eq-none_iff limit 0 cards)

pub credit_limit-eq-none_iff :
    (b : BanList) (next : Handler) (deck : Deck)
    → (credit_limit b next deck ≡ none)
      ↔ (All (IsWithinCredit (all_cards_of deck)) b.credit_limits × (next deck ≡ none))
unfolding credit_limit
credit_limit-eq-none_iff b next deck =
    let check = credit_error (all_cards_of deck) in
    let (split, join) = or_next-eq-none_iff (first_error check b.credit_limits) (next deck) in
    let (there, back) = first_error-eq-none_iff check b.credit_limits in
    let (sound, complete) =
      All-iff _ _ (credit_error-eq-none_iff (all_cards_of deck)) b.credit_limits in
    (λ h. (sound (there (split h).0), (split h).1), λ (h, rest). join (back (complete h), rest))

-- No card, its alternate artworks counted with it, stands in the deck more than three times.
abbrev pub HasFewCopies : Deck → Type 0
HasFewCopies deck = (id : ℕ) → count id (map canonical_id (all_cards_of deck)) ≤ 3

pub max_copies-eq-none_iff :
    (next : Handler) (deck : Deck)
    → (max_copies next deck ≡ none) ↔ (HasFewCopies deck × (next deck ≡ none))
unfolding max_copies
max_copies-eq-none_iff next deck =
    let ids = map canonical_id (all_cards_of deck) in
    let (split, join) = or_next-eq-none_iff (first_error copies_error (tally ids)) (next deck) in
    let (there, back) = first_error-eq-none_iff copies_error (tally ids) in
    let (entry, entries) =
      entries_iff (λ x. copies_error x ≡ none) (tally ids) (tally-HasDistinctKeys ids) in
    (
      λ h. (
        λ id. ground (arith, get-tally id ids, entry (there (split h).0) id (count id ids)),
        (split h).1,
      ),
      λ (few, rest).
          join (back (entries (λ id n f. ground (arith, few id, f, get-tally id ids))), rest),
    )

pub points_of : List (ℕ × ℕ) → List Card → ℕ
points_of points [] = 0
points_of points (card ∷ cards) = card_points points card + points_of points cards

total_points-eq-add :
    (points : List (ℕ × ℕ)) (sum : ℕ) (cards : List Card)
    → total_points points sum cards ≡ sum + points_of points cards
unfolding total_points points_of
total_points-eq-add points sum [] = omega arith
total_points-eq-add points sum (card ∷ cards) =
    omega (arith, total_points-eq-add points (sum + card_points points card) cards)

-- Neither a pendulum nor a link, and not of the scope that only value 8 names.
abbrev pub IsGenesysCard : Card → Type 0
IsGenesysCard card = (bit_and card.card_type type_pendulum_or_link ≡ 0) × (card.variant ≢ 8)

abbrev pub IsGenesysDeck : ℕ → List (ℕ × ℕ) → Deck → Type 0
IsGenesysDeck max_deck_points points deck =
    All IsGenesysCard (all_cards_of deck) × (points_of points (all_cards_of deck) ≤ max_deck_points)

kind_error-eq-none_iff : (card : Card) → (kind_error card ≡ none) ↔ IsGenesysCard card
unfolding kind_error
kind_error-eq-none_iff card = ground arith

pub genesys_rules-eq-none_iff :
    (max_deck_points : ℕ) (points : List (ℕ × ℕ)) (deck : Deck)
    → (genesys_rules max_deck_points points deck ≡ none) ↔ IsGenesysDeck max_deck_points points deck
unfolding genesys_rules
genesys_rules-eq-none_iff max_deck_points points deck =
    let cards = all_cards_of deck in
    let total = total_points-eq-add points 0 cards in
    let (there, back) = first_error-eq-none_iff kind_error cards in
    let (sound, complete) = All-iff _ _ kind_error-eq-none_iff cards in
    (
      λ h. (sound (there (ground (arith, h))), ground (arith, h, total)),
      λ (h, k). ground (arith, back (complete h), k, total),
    )
