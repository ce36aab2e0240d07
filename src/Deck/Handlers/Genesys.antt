-- ===== src/Deck/Handlers/Genesys.antt =====
-- MaxCopiesValidationHandler.ts and GenesysRulesValidationHandler.ts.
use Prim.Native.Nat.{bit_and}
use edopro_server_ts.Prelude.{
  ℕ, ◌+◌, Option, none, some, not, List, [], ◌∷◌, map, ltb, if◌then◌else◌,
}
use edopro_server_ts.Prelude.Eq.{◌==◌, nat_eq}
use edopro_server_ts.Prelude.Dict.{get}
use edopro_server_ts.Prelude.Counts.{tally}
use edopro_server_ts.Deck.{Card, all_cards_of, type_pendulum_or_link}
use edopro_server_ts.Deck.Errors.{
  DeckError, ban_list_error, card_more_than_3_error, main_deck_limit_error,
}
use edopro_server_ts.Deck.Handlers.{Handler, first_error, or_next}

abbrev pub max_copies_allowed : ℕ
max_copies_allowed = 3

-- `Number(card.alias) || Number(card.code)`
abbrev pub canonical_id : Card → ℕ
canonical_id card = if card.alias == 0 then card.code else card.alias

abbrev pub copies_error : ℕ × ℕ → Option DeckError
copies_error (id, count) =
    if ltb max_copies_allowed count then some (card_more_than_3_error id) else none

unfoldable pub max_copies : Handler → Handler
unfolding tally
max_copies next deck =
    or_next (first_error copies_error (tally (map canonical_id (all_cards_of deck)))) (next deck)

-- A pendulum, a link, or a card of scope 8.
unfoldable pub kind_error : Card → Option DeckError
kind_error card =
    if not (bit_and card.card_type type_pendulum_or_link == 0)
    then some (ban_list_error card.code)
    else if card.variant == 8
    then some (ban_list_error card.code)
    else none

abbrev pub or_else : Option ℕ → Option ℕ → Option ℕ
or_else none o = o
or_else (some n) o = some n

abbrev pub or_zero : Option ℕ → ℕ
or_zero none = 0
or_zero (some n) = n

-- The points of a card: those of its code, else those of its alias, else none.
unfoldable pub card_points : List (ℕ × ℕ) → Card → ℕ
unfolding get
card_points points card = or_zero (or_else (get card.code points) (get card.alias points))

unfoldable pub total_points : List (ℕ × ℕ) → ℕ → List Card → ℕ
unfolding card_points
total_points points sum [] = sum
total_points points sum (card ∷ cards) = total_points points (sum + card_points points card) cards

-- The last handler of its chain: its `setNextHandler` throws.
unfoldable pub genesys_rules : ℕ → List (ℕ × ℕ) → Handler
unfolding kind_error total_points
genesys_rules max_deck_points points deck = or_next (first_error kind_error (all_cards_of deck)) (
    let total = total_points points 0 (all_cards_of deck) in
    if ltb max_deck_points total
    then some (main_deck_limit_error total 0 max_deck_points)
    else none)
