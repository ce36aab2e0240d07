-- ===== src/Deck/Handlers.antt =====
-- shared/deck/domain/validators and ygopro/deck/domain/validators: one function per handler. The
-- last argument but the deck is the next handler, `pass` where none is set.
pub mod Availability
pub mod Genesys
pub mod Credit
use Prim.Native.Nat.{bit_and}
use edopro_server_ts.Prelude.{
  ℕ, ◌+◌, ◌-◌, Option, none, some, Bool, true, false, ◌&&◌, ◌||◌, not, List, [], ◌∷◌, ◌++◌, ltb,
  if◌then◌else◌, length, find?,
}
use edopro_server_ts.Prelude.Eq.{◌==◌, nat_eq, contains}
use edopro_server_ts.Prelude.Dict.{get, insert}
use edopro_server_ts.Prelude.Counts.{value_or_zero, bump, tally}
use edopro_server_ts.BanList.{BanList, CreditLimit}
use edopro_server_ts.Deck.{
  Card, Deck, DeckRules, Rule, only_ocg, only_tcg, ocg_tcg, pre_release, all_cards, all_cards_of,
  scope_ocg, scope_tcg, scope_ocg_tcg, scope_official, type_pendulum_or_link,
}
use edopro_server_ts.Deck.Errors.{
  DeckError, ban_list_error, card_more_than_3_error, ocg_card_error, tcg_card_error,
  not_official_card_error, unknown_card_error, main_deck_limit_error, side_deck_limit_error,
  extra_deck_limit_error, credit_limit_deck_error,
}

abbrev pub Handler : Type 0
Handler = Deck → Option DeckError

abbrev pub pass : Handler
pass deck = none

-- A loop that returns the first error it meets.
abbrev pub first_error {ℓ} : {A : Type ℓ} → (A → Option DeckError) → List A → Option DeckError
first_error f [] = none
first_error f (x ∷ xs) = elim (f x) [ none ↦ first_error f xs | some error ↦ some error ]

-- `if (error) return error; return next.validate(deck)`
abbrev pub or_next : Option DeckError → Option DeckError → Option DeckError
or_next none rest = rest
or_next (some error) rest = some error

abbrev pub outside : ℕ → ℕ → ℕ → Bool
outside n low high = ltb high n || ltb n low

unfoldable pub deck_limits : DeckRules → Handler → Handler
deck_limits r next deck =
    if outside (length deck.main) r.main_min r.main_max
    then some (main_deck_limit_error (length deck.main) r.main_min r.main_max)
    else if outside (length deck.side) r.side_min r.side_max
    then some (side_deck_limit_error (length deck.side) r.side_min r.side_max)
    else if outside (length deck.extra) r.extra_min r.extra_max
    then some (extra_deck_limit_error (length deck.extra) r.extra_min r.extra_max)
    else next deck

-- The body of the loop that fills `cards`: the count under the code is read before the one under
-- the alias is written.
unfoldable pub count_card : Card → List (ℕ × ℕ) → List (ℕ × ℕ)
unfolding get insert
count_card card cards =
    let count = value_or_zero (get card.code cards) in
    let cards' =
      if card.alias == 0
      then cards
      else insert card.alias (value_or_zero (get card.alias cards) + 1) cards in
    insert card.code (count + 1) cards'

unfoldable pub count_cards : List (ℕ × ℕ) → List Card → List (ℕ × ℕ)
unfolding count_card
count_cards cards [] = cards
count_cards cards (card ∷ rest) = count_cards (count_card card cards) rest

-- The second loop of the four handlers that cap the copies of listed cards.
unfoldable pub over_cap : (ℕ → DeckError) → ℕ → List (ℕ × ℕ) → ℕ → Option DeckError
unfolding get
over_cap error cap cards listed =
    if ltb cap (value_or_zero (get listed cards)) then some (error listed) else none

abbrev pub capped : (ℕ → DeckError) → ℕ → List ℕ → Handler → Handler
capped error cap listed next deck =
    or_next (first_error (over_cap error cap (count_cards [] (all_cards_of deck))) listed)
      (next deck)

unfoldable pub forbidden_card : BanList → Handler → Handler
unfolding count_cards over_cap
forbidden_card b = capped ban_list_error 0 b.forbidden

unfoldable pub limited_card : BanList → Handler → Handler
unfolding count_cards over_cap
limited_card b = capped ban_list_error 1 b.limited

unfoldable pub semi_limited_card : BanList → Handler → Handler
unfolding count_cards over_cap
semi_limited_card b = capped ban_list_error 2 b.semi_limited

unfoldable pub no_limited_card : BanList → Handler → Handler
unfolding count_cards over_cap
no_limited_card b = capped card_more_than_3_error 3 b.all

-- `isValidOCG`, `isValidTCG` and the body of the loop of `DeckRuleValidationHandler`.
unfoldable pub rule_error : Rule → Card → Option DeckError
rule_error only_ocg card =
    if bit_and card.variant scope_ocg == 0 then some (tcg_card_error card.code) else none
rule_error only_tcg card =
    if bit_and card.variant scope_tcg == 0 then some (ocg_card_error card.code) else none
rule_error _ card = none

unfoldable pub deck_rule : DeckRules → Handler → Handler
unfolding rule_error
deck_rule r next deck = or_next (first_error (rule_error r.rule) (all_cards_of deck)) (next deck)

-- `isAllowed` of `OfficialCardValidationHandler`; `~OFFICIAL` on 32 bits.
unfoldable pub is_official : Rule → Card → Bool
is_official pre_release card = bit_and card.variant (0xffffffff - scope_official) == 0
is_official all_cards card = true
is_official _ card = not (ltb scope_ocg_tcg card.variant)

-- `isAllowed` of `PrereleaseValidationHandler`.
unfoldable pub is_prerelease : Rule → Card → Bool
is_prerelease pre_release card = not (bit_and card.variant scope_official == 0)
is_prerelease _ card = true

abbrev pub allowed_error : (Card → Bool) → Card → Option DeckError
allowed_error allowed card = if allowed card then none else some (not_official_card_error card.code)

unfoldable pub official_card : DeckRules → Handler → Handler
unfolding is_official
official_card r next deck =
    or_next (first_error (allowed_error (is_official r.rule)) (all_cards_of deck)) (next deck)

unfoldable pub prerelease : DeckRules → Handler → Handler
unfolding is_prerelease
prerelease r next deck =
    or_next (first_error (allowed_error (is_prerelease r.rule)) (all_cards_of deck)) (next deck)
