-- ===== src/Deck/Legal/Chain.antt =====
-- The two chains as a whole: which decks an EDOPro room and a YGOPro room accept.
use edopro_server_ts.Prelude.{
  ℕ, ◌≤◌, ◌≡◌, ◌↔◌, ◌⊎◌, inl, inr, none, true, false, List, All, Bool-cases,
}
use edopro_server_ts.BanList.{BanList, is_genesys}
use edopro_server_ts.Deck.{Deck, DeckRules, all_cards_of}
use edopro_server_ts.Deck.Errors.{ban_list_error, card_more_than_3_error}
use edopro_server_ts.Deck.Handlers.{
  Handler, pass, forbidden_card, semi_limited_card, limited_card, no_limited_card,
}
use edopro_server_ts.Deck.Handlers.Availability.{YgoproRule, available_card, card_availability}
use edopro_server_ts.Deck.Handlers.Genesys.{max_copies, genesys_rules}
use edopro_server_ts.Deck.Handlers.Credit.{credit_limit}
use edopro_server_ts.Deck.Validate.{copy_limits, validate, ygopro_validate}
use edopro_server_ts.Deck.Tallies.{copies, capped-eq-none_iff}
use edopro_server_ts.Deck.Legal.Rules.{
  HasLegalSizes, HasScope, scope_checks, deck_limits-eq-none_iff, scope_checks-eq-none_iff,
}
use edopro_server_ts.Deck.Legal.Pools.{
  HasWhitelistedCards, HasPoolCards, available_card-eq-none_iff, card_availability-eq-none_iff,
}
use edopro_server_ts.Deck.Legal.Points.{
  IsWithinCredit, HasFewCopies, IsGenesysDeck, credit_limit-eq-none_iff, max_copies-eq-none_iff,
  genesys_rules-eq-none_iff,
}

-- At most `cap` copies of each listed card, alternate artworks included.
abbrev pub IsCapped : ℕ → List ℕ → Deck → Type 0
IsCapped cap listed deck = All (λ id. copies id (all_cards_of deck) ≤ cap) listed

abbrev pub ObeysLimits : BanList → Deck → Type 0
ObeysLimits b deck =
    IsCapped 0 b.forbidden deck × IsCapped 2 b.semi_limited deck × IsCapped 1 b.limited deck

copy_limits-eq-none_iff :
    (b : BanList) (next : Handler) (deck : Deck)
    → (copy_limits b next deck ≡ none) ↔ (ObeysLimits b deck × (next deck ≡ none))
unfolding forbidden_card semi_limited_card limited_card
copy_limits-eq-none_iff b next deck =
    let third = limited_card b next in
    let second = semi_limited_card b third in
    let forbidden = capped-eq-none_iff ban_list_error 0 b.forbidden second deck in
    let semi_limited = capped-eq-none_iff ban_list_error 2 b.semi_limited third deck in
    let limited = capped-eq-none_iff ban_list_error 1 b.limited next deck in
    (
      λ h.
          let (f, h') = forbidden.0 h in
          let (s, h'') = semi_limited.0 h' in let (l, rest) = limited.0 h'' in ((f, s, l), rest),
      λ ((f, s, l), rest). forbidden.1 (f, semi_limited.1 (s, limited.1 (l, rest))),
    )

-- The last two handlers of both chains.
tail-eq-none_iff :
    (b : BanList) (deck : Deck)
    → (no_limited_card b (available_card b pass) deck ≡ none)
      ↔ (IsCapped 3 b.all deck × HasWhitelistedCards b deck)
unfolding no_limited_card
tail-eq-none_iff b deck =
    let three = capped-eq-none_iff card_more_than_3_error 3 b.all (available_card b pass) deck in
    let listed = available_card-eq-none_iff b deck in
    (λ h. let (t, rest) = three.0 h in (t, listed.0 rest), λ (t, w). three.1 (t, listed.1 w))

-- The rules of an EDOPro room, for an ordinary banlist.
abbrev pub IsLegal : BanList → DeckRules → Deck → Type 0
IsLegal b r deck =
    HasLegalSizes r deck
    × ObeysLimits b deck
    × All (HasScope r.rule) (all_cards_of deck)
    × IsCapped 3 b.all deck
    × HasWhitelistedCards b deck

-- Those of an EDOPro room with the Genesys list.
abbrev pub IsLegalGenesys : BanList → DeckRules → Deck → Type 0
IsLegalGenesys b r deck =
    HasLegalSizes r deck
    × All (HasScope r.rule) (all_cards_of deck)
    × HasFewCopies deck
    × IsGenesysDeck r.max_deck_points b.points deck

validate_ordinary :
    (b : BanList) (r : DeckRules) (deck : Deck)
    → is_genesys b ≡ false
    → (validate b r deck ≡ none) ↔ IsLegal b r deck
unfolding validate
validate_ordinary b r deck e =
    let last = no_limited_card b (available_card b pass) in
    let scopes = scope_checks r last in
    let limits = copy_limits b scopes in
    let sizes = deck_limits-eq-none_iff r limits deck in
    let listed = copy_limits-eq-none_iff b scopes deck in
    let scoped = scope_checks-eq-none_iff r last deck in
    let ends = tail-eq-none_iff b deck in
    rw e (
      λ h.
          let (n, h') = sizes.0 h in
          let (l, h'') = listed.0 h' in
          let (s, rest) = scoped.0 h'' in let (t, w) = ends.0 rest in (n, l, s, t, w),
      λ (n, l, s, t, w). sizes.1 (n, listed.1 (l, scoped.1 (s, ends.1 (t, w)))),
    )

validate_genesys :
    (b : BanList) (r : DeckRules) (deck : Deck)
    → is_genesys b ≡ true
    → (validate b r deck ≡ none) ↔ IsLegalGenesys b r deck
unfolding validate
validate_genesys b r deck e =
    let last = genesys_rules r.max_deck_points b.points in
    let sizes = deck_limits-eq-none_iff r (scope_checks r (max_copies last)) deck in
    let scoped = scope_checks-eq-none_iff r (max_copies last) deck in
    let few = max_copies-eq-none_iff last deck in
    let points = genesys_rules-eq-none_iff r.max_deck_points b.points deck in
    rw e (
      λ h.
          let (n, h') = sizes.0 h in
          let (s, h'') = scoped.0 h' in let (f, rest) = few.0 h'' in (n, s, f, points.0 rest),
      λ (n, s, f, g). sizes.1 (n, scoped.1 (s, few.1 (f, points.1 g))),
    )

-- `Deck.validate` reports no error exactly if the deck is legal: for an ordinary list, its three
-- parts have legal sizes, it holds at most 0, 1, 2 or 3 copies (alternate artworks included) of
-- each card that the list forbids, limits, semi-limits or names as free, every card has a scope
-- that the room's rule allows, and a whitelist with entries covers every card; for the Genesys
-- list, sizes and scopes are legal, no card stands more than three times, no card is a pendulum,
-- a link or of scope 8, and the points stay within the cap.
pub validate_iff :
    (b : BanList) (r : DeckRules) (deck : Deck)
    → (validate b r deck ≡ none) ↔ (
        ((is_genesys b ≡ false) × IsLegal b r deck)
        ⊎ ((is_genesys b ≡ true) × IsLegalGenesys b r deck))
validate_iff b r deck = elim (Bool-cases (is_genesys b)) [
  | inl e ↦
      let (there, back) = validate_genesys b r deck e in
      (λ h. inr (e, there h), elim [ inl (f, l) ↦ cc | inr (_, l) ↦ back l ])
  | inr e ↦
      let (there, back) = validate_ordinary b r deck e in
      (λ h. inl (e, there h), elim [ inl (_, l) ↦ back l | inr (f, l) ↦ cc ])
]

-- The rules of a YGOPro room, for an ordinary banlist and for Genesys.
abbrev pub IsLegalYgopro : BanList → DeckRules → YgoproRule → Deck → Type 0
IsLegalYgopro b r rule deck =
    HasLegalSizes r deck
    × ObeysLimits b deck
    × All (IsWithinCredit (all_cards_of deck)) b.credit_limits
    × HasPoolCards rule deck
    × IsCapped 3 b.all deck
    × HasWhitelistedCards b deck

abbrev pub IsLegalYgoproGenesys : BanList → DeckRules → Deck → Type 0
IsLegalYgoproGenesys b r deck =
    HasLegalSizes r deck × HasFewCopies deck × IsGenesysDeck r.max_deck_points b.points deck

ygopro_validate_ordinary :
    (b : BanList) (r : DeckRules) (rule : YgoproRule) (deck : Deck)
    → is_genesys b ≡ false
    → (ygopro_validate b r rule deck ≡ none) ↔ IsLegalYgopro b r rule deck
unfolding ygopro_validate
ygopro_validate_ordinary b r rule deck e =
    let last = no_limited_card b (available_card b pass) in
    let pool = card_availability rule last in
    let credit = credit_limit b pool in
    let sizes = deck_limits-eq-none_iff r (copy_limits b credit) deck in
    let listed = copy_limits-eq-none_iff b credit deck in
    let spent = credit_limit-eq-none_iff b pool deck in
    let pooled = card_availability-eq-none_iff rule last deck in
    let ends = tail-eq-none_iff b deck in
    rw e (
      λ h.
          let (n, h') = sizes.0 h in
          let (l, h'') = listed.0 h' in
          let (c, h''') = spent.0 h'' in
          let (p, rest) = pooled.0 h''' in let (t, w) = ends.0 rest in (n, l, c, p, t, w),
      λ (n, l, c, p, t, w). sizes.1 (n, listed.1 (l, spent.1 (c, pooled.1 (p, ends.1 (t, w))))),
    )

ygopro_validate_genesys :
    (b : BanList) (r : DeckRules) (rule : YgoproRule) (deck : Deck)
    → is_genesys b ≡ true
    → (ygopro_validate b r rule deck ≡ none) ↔ IsLegalYgoproGenesys b r deck
unfolding ygopro_validate
ygopro_validate_genesys b r rule deck e =
    let last = genesys_rules r.max_deck_points b.points in
    let sizes = deck_limits-eq-none_iff r (max_copies last) deck in
    let few = max_copies-eq-none_iff last deck in
    let points = genesys_rules-eq-none_iff r.max_deck_points b.points deck in
    rw e (
      λ h. let (n, h') = sizes.0 h in let (f, rest) = few.0 h' in (n, f, points.0 rest),
      λ (n, f, g). sizes.1 (n, few.1 (f, points.1 g)),
    )

-- `YGOProDeckValidator.validate` reports no error exactly if the deck is legal: as in an EDOPro
-- room, but with the credit limits of the list in place of none and the pool of the room's YGOPro
-- rule in place of the scopes; under the Genesys list neither applies.
pub ygopro_validate_iff :
    (b : BanList) (r : DeckRules) (rule : YgoproRule) (deck : Deck)
    → (ygopro_validate b r rule deck ≡ none) ↔ (
        ((is_genesys b ≡ false) × IsLegalYgopro b r rule deck)
        ⊎ ((is_genesys b ≡ true) × IsLegalYgoproGenesys b r deck))
ygopro_validate_iff b r rule deck = elim (Bool-cases (is_genesys b)) [
  | inl e ↦
      let (there, back) = ygopro_validate_genesys b r rule deck e in
      (λ h. inr (e, there h), elim [ inl (f, l) ↦ cc | inr (_, l) ↦ back l ])
  | inr e ↦
      let (there, back) = ygopro_validate_ordinary b r rule deck e in
      (λ h. inl (e, there h), elim [ inl (_, l) ↦ back l | inr (f, l) ↦ cc ])
]
