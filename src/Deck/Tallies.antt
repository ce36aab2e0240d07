-- ===== src/Deck/Tallies.antt =====
-- The `cards` map that four handlers fill holds, under each id, the number of cards of the deck
-- that are that card or an alternate artwork of it.
use edopro_server_ts.Prelude.{
  ℕ, ◌+◌, ◌≤◌, ◌≡◌, refl, ◌↔◌, Option, none, Bool, ◌&&◌, ◌||◌, not, List, [], ◌∷◌, if◌then◌else◌,
  count_if, All, All-iff, arith,
}
use edopro_server_ts.Prelude.Eq.{◌==◌, nat_eq}
use edopro_server_ts.Prelude.Dict.{get, insert, get-insert}
use edopro_server_ts.Prelude.Counts.{value_or_zero}
use edopro_server_ts.Deck.{Card, Deck, all_cards_of}
use edopro_server_ts.Deck.Errors.{DeckError}
use edopro_server_ts.Deck.Handlers.{
  Handler, first_error, or_next, count_card, count_cards, over_cap, capped,
}

-- The card has the id, or is an alternate artwork of the card with the id.
abbrev pub is_copy : ℕ → Card → Bool
is_copy id card = card.code == id || (not (card.alias == 0) && card.alias == id)

abbrev pub copies : ℕ → List Card → ℕ
copies id cards = count_if (is_copy id) cards

get-count_card :
    (j : ℕ) (card : Card) (m : List (ℕ × ℕ))
    → value_or_zero (get j (count_card card m))
      ≡ value_or_zero (get j m) + (if is_copy j card then 1 else 0)
unfolding count_card
get-count_card j card m =
    let n = value_or_zero (get card.alias m) + 1 in
    let m' = insert card.alias n m in
    let c = value_or_zero (get card.code m) + 1 in
    ground
      (arith, get-insert card.code j c m, get-insert card.code j c m', get-insert card.alias j n m)

get-count_cards :
    (j : ℕ) (m : List (ℕ × ℕ)) (cards : List Card)
    → value_or_zero (get j (count_cards m cards)) ≡ value_or_zero (get j m) + copies j cards
unfolding count_cards
get-count_cards j m [] = omega arith
get-count_cards j m (card ∷ cards) =
    omega (arith, get-count_cards j (count_card card m) cards, get-count_card j card m)

pub first_error-eq-none_iff {ℓ} :
    {A : Type ℓ} (f : A → Option DeckError) (xs : List A)
    → (first_error f xs ≡ none) ↔ All (λ x. f x ≡ none) xs
first_error-eq-none_iff f [] = (λ _. tt, λ _. refl)
first_error-eq-none_iff f (x ∷ xs) =
    let (there, back) = first_error-eq-none_iff f xs in
    (λ h. (ground (arith, h), there (ground (arith, h))), λ (h, hs). ground (arith, h, back hs))

pub or_next-eq-none_iff :
    (o rest : Option DeckError) → (or_next o rest ≡ none) ↔ ((o ≡ none) × (rest ≡ none))
or_next-eq-none_iff o rest = ground arith

over_cap-eq-none_iff :
    (error : ℕ → DeckError) (cap : ℕ) (cards : List Card) (id : ℕ)
    → (over_cap error cap (count_cards [] cards) id ≡ none) ↔ (copies id cards ≤ cap)
unfolding over_cap get
over_cap-eq-none_iff error cap cards id =
    let counted = get-count_cards id [] cards in
    (λ h. ground (arith, h, counted), λ h. ground (arith, h, counted))

-- A capped list lets a deck through exactly if the deck holds at most that many copies of each id.
pub capped-eq-none_iff :
    (error : ℕ → DeckError) (cap : ℕ) (listed : List ℕ) (next : Handler) (deck : Deck)
    → (capped error cap listed next deck ≡ none)
      ↔ (All (λ id. copies id (all_cards_of deck) ≤ cap) listed × (next deck ≡ none))
capped-eq-none_iff error cap listed next deck =
    let cards = all_cards_of deck in
    let check = over_cap error cap (count_cards [] cards) in
    let (split, join) = or_next-eq-none_iff (first_error check listed) (next deck) in
    let (there, back) = first_error-eq-none_iff check listed in
    let (sound, complete) = All-iff _ _ (over_cap-eq-none_iff error cap cards) listed in
    (λ h. (sound (there (split h).0), (split h).1), λ (h, rest). join (back (complete h), rest))
