-- ===== src/Deck/Tests.antt =====
-- Decks, lists and rooms small enough to follow by hand.
use mathlib.Core.List.{Perm}
use edopro_server_ts.Prelude.{
  ◌≡◌, ◌↔◌, ◌⊎◌, refl, none, some, true, false, List, [], ◌∷◌, ◌++◌, All,
}
use edopro_server_ts.BanList.{empty, edopro_add, ygopro_add, is_genesys}
use edopro_server_ts.Deck.{Card, Deck, DeckRules, ocg_tcg, all_cards_of}
use edopro_server_ts.Deck.Errors.{ban_list_error}
use edopro_server_ts.Deck.Handlers.{
  deck_limits, forbidden_card, limited_card, semi_limited_card, no_limited_card, deck_rule,
  official_card, prerelease,
}
use edopro_server_ts.Deck.Handlers.Availability.{tcg, available_card, card_availability}
use edopro_server_ts.Deck.Handlers.Credit.{credit_limit}
use edopro_server_ts.Deck.Validate.{validate, ygopro_validate}
use edopro_server_ts.Deck.Side.{codes, is_side_deck_valid, is_side_deck_valid_iff}
use edopro_server_ts.Deck.Legal.Chain.{
  IsLegal, IsLegalGenesys, IsLegalYgopro, IsLegalYgoproGenesys, validate_iff, ygopro_validate_iff,
}
use edopro_server_ts.Deck.Legal.Entries.{
  Line, edopro_load, ygopro_load, ObeysEdoproLine, ObeysYgoproLine, validate-edopro_load,
  ygopro_validate-ygopro_load,
}

-- An official card, and an alternate artwork of it.
abbrev raigeki : Card
raigeki = record { code = 12580477; alias = 0; card_type = 2; category = 0; variant = 3 }

abbrev raigeki_art : Card
raigeki_art = record { code = 12580478; alias = 12580477; card_type = 2; category = 0; variant = 3 }

abbrev one_raigeki : Deck
one_raigeki = record { main = raigeki ∷ []; side = []; extra = [] }

abbrev two_raigekis : Deck
two_raigekis = record { main = raigeki ∷ []; side = raigeki_art ∷ []; extra = [] }

abbrev small_room : DeckRules
small_room = record {
  main_min = 1;
  main_max = 60;
  extra_min = 0;
  extra_max = 15;
  side_min = 0;
  side_max = 15;
  rule = ocg_tcg;
  max_deck_points = 100;
}

abbrev limited_raigeki : Line
limited_raigeki = record { card_id = 12580477; quantity = 1; points = none }

abbrev lines : List Line
lines = limited_raigeki ∷ []

-- The alternate artwork counts as a copy of the limited card.
artwork_counts :
    validate (edopro_load lines empty) small_room two_raigekis ≡ some (ban_list_error 12580477)
unfolding validate edopro_load edopro_add deck_limits forbidden_card semi_limited_card limited_card
artwork_counts = refl

validate_iff_example :
    let b = edopro_load lines empty in
    (validate b small_room one_raigeki ≡ none) ↔ (
      ((is_genesys b ≡ false) × IsLegal b small_room one_raigeki)
      ⊎ ((is_genesys b ≡ true) × IsLegalGenesys b small_room one_raigeki))
validate_iff_example = validate_iff (edopro_load lines empty) small_room one_raigeki

ygopro_validate_iff_example :
    let b = ygopro_load lines empty in
    (ygopro_validate b small_room tcg one_raigeki ≡ none) ↔ (
      ((is_genesys b ≡ false) × IsLegalYgopro b small_room tcg one_raigeki)
      ⊎ ((is_genesys b ≡ true) × IsLegalYgoproGenesys b small_room one_raigeki))
ygopro_validate_iff_example =
    ygopro_validate_iff (ygopro_load lines empty) small_room tcg one_raigeki

accepted : validate (edopro_load lines empty) small_room one_raigeki ≡ none
unfolding validate edopro_load edopro_add deck_limits forbidden_card semi_limited_card limited_card
    deck_rule official_card prerelease no_limited_card available_card
accepted = refl

ygopro_accepted : ygopro_validate (ygopro_load lines empty) small_room tcg one_raigeki ≡ none
unfolding ygopro_validate ygopro_load ygopro_add deck_limits forbidden_card semi_limited_card
    limited_card credit_limit card_availability no_limited_card available_card
ygopro_accepted = refl

validate-edopro_load_example : All (ObeysEdoproLine one_raigeki) lines
unfolding edopro_load edopro_add
validate-edopro_load_example = validate-edopro_load one_raigeki lines empty small_room refl accepted

ygopro_validate-ygopro_load_example : All (ObeysYgoproLine one_raigeki) lines
unfolding ygopro_load ygopro_add
ygopro_validate-ygopro_load_example =
    ygopro_validate-ygopro_load one_raigeki lines empty small_room tcg refl ygopro_accepted

is_side_deck_valid_iff_example :
    (is_side_deck_valid two_raigekis (12580478 ∷ 12580477 ∷ []) [] ≡ true)
    ↔ Perm (codes (all_cards_of two_raigekis)) ((12580478 ∷ 12580477 ∷ []) ++ [])
is_side_deck_valid_iff_example = is_side_deck_valid_iff two_raigekis (12580478 ∷ 12580477 ∷ []) []

siding : is_side_deck_valid two_raigekis (12580478 ∷ 12580477 ∷ []) [] ≡ true
unfolding is_side_deck_valid
siding = refl
