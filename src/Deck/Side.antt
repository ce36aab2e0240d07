-- ===== src/Deck/Side.antt =====
-- `Deck.isSideDeckValid`: between two duels cards may only move within the deck.
use mathlib.Core.List.{Perm}
use edopro_server_ts.Prelude.{
  ℕ, ◌≡◌, ◌↔◌, Bool, true, false, not, List, ◌++◌, map, length, arith, if◌then◌else◌,
}
use edopro_server_ts.Prelude.Eq.{◌==◌, nat_eq}
use edopro_server_ts.Prelude.Counts.{tally, all_agree}
use edopro_server_ts.Prelude.Counts.Agree.{tally_size-perm_iff}
use edopro_server_ts.Deck.{Card, Deck, all_cards_of}

abbrev pub codes : List Card → List ℕ
codes = map (λ (card : Card). card.code)

unfoldable pub is_side_deck_valid : Deck → List ℕ → List ℕ → Bool
unfolding tally
is_side_deck_valid deck new_main new_side =
    let old_counts = tally (codes (all_cards_of deck)) in
    let new_counts = tally (new_main ++ new_side) in
    if not (length old_counts == length new_counts)
    then false
    else if all_agree old_counts new_counts
    then true
    else false

-- A siding is accepted exactly if the new main and side decks together hold the cards of the
-- registered deck, each as often: they are a permutation of its codes.
pub is_side_deck_valid_iff :
    (deck : Deck) (new_main new_side : List ℕ)
    → (is_side_deck_valid deck new_main new_side ≡ true)
      ↔ Perm (codes (all_cards_of deck)) (new_main ++ new_side)
unfolding is_side_deck_valid
is_side_deck_valid_iff deck new_main new_side =
    let (there, back) = tally_size-perm_iff (codes (all_cards_of deck)) (new_main ++ new_side) in
    (λ h. there (ground (arith, h), ground (arith, h)), λ p. ground (arith, back p))
