-- ===== src/Deck/Validate.antt =====
-- `Deck.validate` and `YGOProDeckValidator.validate`: the chains, in the order they are linked.
use edopro_server_ts.Prelude.{if◌then◌else◌}
use edopro_server_ts.BanList.{BanList, is_genesys}
use edopro_server_ts.Deck.{DeckRules}
use edopro_server_ts.Deck.Handlers.{
  Handler, pass, deck_limits, forbidden_card, semi_limited_card, limited_card, deck_rule,
  official_card, prerelease, no_limited_card,
}
use edopro_server_ts.Deck.Handlers.Availability.{available_card, card_availability, YgoproRule}
use edopro_server_ts.Deck.Handlers.Genesys.{max_copies, genesys_rules}
use edopro_server_ts.Deck.Handlers.Credit.{credit_limit}

-- The handlers that both chains put first on a list with copy limits.
abbrev pub copy_limits : BanList → Handler → Handler
copy_limits b next = forbidden_card b (semi_limited_card b (limited_card b next))

unfoldable pub validate : BanList → DeckRules → Handler
validate b r =
    if is_genesys b
    then deck_limits r (
        deck_rule r
          (official_card r (prerelease r (max_copies (genesys_rules r.max_deck_points b.points)))))
    else deck_limits r (
        copy_limits b (
          deck_rule r (official_card r (prerelease r (no_limited_card b (available_card b pass))))))

unfoldable pub ygopro_validate : BanList → DeckRules → YgoproRule → Handler
ygopro_validate b r rule =
    if is_genesys b
    then deck_limits r (max_copies (genesys_rules r.max_deck_points b.points))
    else deck_limits r (
        copy_limits b
          (credit_limit b (card_availability rule (no_limited_card b (available_card b pass)))))
