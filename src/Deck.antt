-- ===== src/Deck.antt =====
-- shared/deck/domain/Deck.ts, shared/card/domain/Card.ts, shared/deck/domain/errors and
-- shared/deck/domain/validators: decks and the chain of handlers that checks them.
-- The texts `code` and `alias` of a card are decimal, and the code reads them through `Number`:
-- the model keeps the numbers. A handler is a function of the deck and of the next handler.
pub mod Errors
pub mod Handlers
pub mod Validate
pub mod Tallies
pub mod Legal
pub mod Side
mod Tests
use edopro_server_ts.Prelude.{ℕ, List, [], ◌++◌}

-- `ScopeCode`
abbrev pub scope_ocg : ℕ
scope_ocg = 0x1

abbrev pub scope_tcg : ℕ
scope_tcg = 0x2

abbrev pub scope_ocg_tcg : ℕ
scope_ocg_tcg = 0x3

abbrev pub scope_official : ℕ
scope_official = 0x103

-- `CardTypes.TYPE_PENDULUM | CardTypes.TYPE_LINK`
abbrev pub type_pendulum_or_link : ℕ
type_pendulum_or_link = 0x5000000

pub record Card : Type 0 where
  pub code : ℕ
  pub alias : ℕ
  pub card_type : ℕ
  pub category : ℕ
  pub variant : ℕ

pub data Rule : Type 0 where
  only_ocg only_tcg ocg_tcg pre_release all_cards : Rule

pub record DeckRules : Type 0 where
  pub main_min : ℕ
  pub main_max : ℕ
  pub extra_min : ℕ
  pub extra_max : ℕ
  pub side_min : ℕ
  pub side_max : ℕ
  pub rule : Rule
  pub max_deck_points : ℕ

pub record Deck : Type 0 where
  pub main : List Card
  pub side : List Card
  pub extra : List Card

abbrev pub all_cards_of : Deck → List Card
all_cards_of deck = deck.main ++ (deck.side ++ deck.extra)
