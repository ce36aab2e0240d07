-- ===== src/Deck/Handlers/Credit.antt =====
-- CreditLimitValidationHandler.ts: an allowance that a group of cards shares.
use edopro_server_ts.Prelude.{ℕ, ◌+◌, String, Option, none, some, List, [], ◌∷◌, ltb, if◌then◌else◌}
use edopro_server_ts.Prelude.Eq.{nat_eq}
use edopro_server_ts.Prelude.Dict.{get}
use edopro_server_ts.BanList.{BanList, CreditLimit}
use edopro_server_ts.Deck.{Card, all_cards_of}
use edopro_server_ts.Deck.Errors.{DeckError, credit_limit_deck_error}
use edopro_server_ts.Deck.Handlers.{Handler, first_error, or_next}

-- The loop over the cards: it stops at the card that takes `spent` past the cap.
unfoldable pub spend : CreditLimit → ℕ → List Card → Option DeckError
unfolding get
spend limit spent [] = none
spend limit spent (card ∷ cards) = elim (get card.code limit.cards) [
  | none ↦ spend limit spent cards
  | some credit ↦
      let rest = spend limit (spent + credit) cards in
      if ltb limit.cap (spent + credit)
      then some (credit_limit_deck_error card.code (spent + credit) limit.cap)
      else rest
]

abbrev pub credit_error : List Card → String × CreditLimit → Option DeckError
credit_error cards (identifier, limit) = spend limit 0 cards

unfoldable pub credit_limit : BanList → Handler → Handler
unfolding spend
credit_limit b next deck =
    or_next (first_error (credit_error (all_cards_of deck)) b.credit_limits) (next deck)
