-- ===== src/Deck/Legal/Rules.antt =====
-- Each handler lets a deck through exactly if the deck meets the rule that the handler stands for
-- and passes the rest of the chain.
use Prim.Native.Nat.{bit_and}
use edopro_server_ts.Prelude.{
  ℕ, ◌-◌, ◌≤◌, ◌≡◌, ◌≢◌, ◌↔◌, Option, none, All, All-iff, All-product_iff, length, arith,
}
use edopro_server_ts.Prelude.Eq.{nat_eq}
use edopro_server_ts.Deck.{
  Card, Deck, DeckRules, Rule, only_ocg, only_tcg, ocg_tcg, pre_release, all_cards, all_cards_of,
  scope_ocg, scope_tcg, scope_ocg_tcg, scope_official,
}
use edopro_server_ts.Deck.Errors.{DeckError}
use edopro_server_ts.Deck.Handlers.{
  Handler, first_error, or_next, deck_limits, rule_error, deck_rule, is_official, is_prerelease,
  allowed_error, official_card, prerelease,
}
use edopro_server_ts.Deck.Tallies.{first_error-eq-none_iff, or_next-eq-none_iff}

abbrev pub IsWithin : ℕ → ℕ → ℕ → Type 0
IsWithin n low high = (low ≤ n) × (n ≤ high)

abbrev pub HasLegalSizes : DeckRules → Deck → Type 0
HasLegalSizes r deck =
    IsWithin (length deck.main) r.main_min r.main_max
    × IsWithin (length deck.side) r.side_min r.side_max
    × IsWithin (length deck.extra) r.extra_min r.extra_max

pub deck_limits-eq-none_iff :
    (r : DeckRules) (next : Handler) (deck : Deck)
    → (deck_limits r next deck ≡ none) ↔ (HasLegalSizes r deck × (next deck ≡ none))
unfolding deck_limits
deck_limits-eq-none_iff r next deck = ground arith

-- A handler that checks the cards one by one.
pub each_card :
    (f : Card → Option DeckError) (P : Card → Type 0) (next : Handler) (deck : Deck)
    → ((card : Card) → (f card ≡ none) ↔ P card)
    → (or_next (first_error f (all_cards_of deck)) (next deck) ≡ none)
      ↔ (All P (all_cards_of deck) × (next deck ≡ none))
each_card f P next deck h =
    let (split, join) = or_next-eq-none_iff (first_error f (all_cards_of deck)) (next deck) in
    let (there, back) = first_error-eq-none_iff f (all_cards_of deck) in
    let (sound, complete) = All-iff _ _ h (all_cards_of deck) in
    (λ e. (sound (there (split e).0), (split e).1), λ (p, rest). join (back (complete p), rest))

-- The scopes that a rule of an EDOPro room allows a card to have.
abbrev pub HasScope : Rule → Card → Type 0
HasScope only_ocg card = (bit_and card.variant scope_ocg ≢ 0) × (card.variant ≤ scope_ocg_tcg)
HasScope only_tcg card = (bit_and card.variant scope_tcg ≢ 0) × (card.variant ≤ scope_ocg_tcg)
HasScope ocg_tcg card = card.variant ≤ scope_ocg_tcg
HasScope pre_release card =
    (bit_and card.variant (0xffffffff - scope_official) ≡ 0)
    × (bit_and card.variant scope_official ≢ 0)
HasScope all_cards card = Unit {0}

-- The three scope handlers of the EDOPro chain, as one rule.
abbrev pub scope_checks : DeckRules → Handler → Handler
scope_checks r next = deck_rule r (official_card r (prerelease r next))

scopes_iff :
    (rule : Rule) (card : Card)
    → ((rule_error rule card ≡ none)
        × ((allowed_error (is_official rule) card ≡ none)
            × (allowed_error (is_prerelease rule) card ≡ none)))
      ↔ HasScope rule card
unfolding rule_error is_official is_prerelease
scopes_iff only_ocg card = ground arith
scopes_iff only_tcg card = ground arith
scopes_iff ocg_tcg card = ground arith
scopes_iff pre_release card = ground arith
scopes_iff all_cards card = ground arith

pub scope_checks-eq-none_iff :
    (r : DeckRules) (next : Handler) (deck : Deck)
    → (scope_checks r next deck ≡ none)
      ↔ (All (HasScope r.rule) (all_cards_of deck) × (next deck ≡ none))
unfolding deck_rule official_card prerelease
scope_checks-eq-none_iff r next deck =
    let cards = all_cards_of deck in
    let IsFree = λ (f : Card → Option DeckError) (card : Card). f card ≡ none in
    let by_rule =
      each_card (rule_error r.rule) (IsFree (rule_error r.rule))
        (official_card r (prerelease r next)) deck (λ card. (λ e. e, λ e. e)) in
    let by_office =
      each_card (allowed_error (is_official r.rule)) (IsFree (allowed_error (is_official r.rule)))
        (prerelease r next) deck (λ card. (λ e. e, λ e. e)) in
    let by_release =
      each_card (allowed_error (is_prerelease r.rule))
        (IsFree (allowed_error (is_prerelease r.rule))) next deck (λ card. (λ e. e, λ e. e)) in
    let later =
      All-product_iff (IsFree (allowed_error (is_official r.rule)))
        (IsFree (allowed_error (is_prerelease r.rule))) cards in
    let every =
      All-product_iff (IsFree (rule_error r.rule))
        (λ card.
          IsFree (allowed_error (is_official r.rule)) card
          × IsFree (allowed_error (is_prerelease r.rule)) card)
        cards in
    let (sound, complete) = All-iff _ _ (scopes_iff r.rule) cards in
    (
      λ e.
          let (p, e') = by_rule.0 e in
          let (q, e'') = by_office.0 e' in
          let (s, rest) = by_release.0 e'' in (sound (every.0 (p, later.0 (q, s))), rest),
      λ (h, rest).
          let (p, qs) = every.1 (complete h) in
          let (q, s) = later.1 qs in by_rule.1 (p, by_office.1 (q, by_release.1 (s, rest))),
    )
