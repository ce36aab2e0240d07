-- ===== src/Deck/Handlers/Availability.antt =====
-- AvailableCardValidationHandler.ts (whitelists), CardAvailabilityValidationHandler.ts and
-- YGOProRule.ts (the rule of a YGOPro room).
use Prim.Native.Nat.{bit_and}
use edopro_server_ts.Prelude.{
  ℕ, Option, none, some, Bool, ◌&&◌, ◌||◌, not, List, ◌++◌, ltb, if◌then◌else◌, length,
}
use edopro_server_ts.Prelude.Eq.{◌==◌, nat_eq, contains}
use edopro_server_ts.BanList.{BanList}
use edopro_server_ts.Deck.{Card, all_cards_of}
use edopro_server_ts.Deck.Errors.{
  DeckError, ocg_card_error, tcg_card_error, not_official_card_error, unknown_card_error,
}
use edopro_server_ts.Deck.Handlers.{Handler, first_error, or_next}

abbrev pub available_cards : BanList → List ℕ
available_cards b = b.limited ++ (b.semi_limited ++ (b.forbidden ++ b.all))

unfoldable pub is_available : List ℕ → Card → Bool
is_available ids card = contains card.code ids || (not (card.alias == 0) && contains card.alias ids)

abbrev pub available_error : List ℕ → Card → Option DeckError
available_error ids card =
    if is_available ids card then none else some (unknown_card_error card.code)

-- A list that is no whitelist ends the chain here.
unfoldable pub available_card : BanList → Handler → Handler
unfolding is_available
available_card b next deck =
    if not b.whitelisted
    then none
    else or_next
        (if ltb 0 (length (available_cards b))
          then first_error (available_error (available_cards b)) (all_cards_of deck)
          else none)
        (next deck)

pub data YgoproRule : Type 0 where
  ocg tcg sc custom no_unique all_pools : YgoproRule

-- `AvailFlag`
abbrev pub avail_ocg : ℕ
avail_ocg = 0x1

abbrev pub avail_tcg : ℕ
avail_tcg = 0x2

abbrev pub avail_custom : ℕ
avail_custom = 0x4

abbrev pub avail_sc : ℕ
avail_sc = 0x8

unfoldable pub avail_flag_for : YgoproRule → ℕ
avail_flag_for ocg = avail_ocg
avail_flag_for tcg = avail_tcg
avail_flag_for sc = avail_sc
avail_flag_for custom = avail_custom
avail_flag_for no_unique = 3
avail_flag_for all_pools = 0

abbrev pub has_bits : ℕ → ℕ → Bool
has_bits x flag = not (bit_and x flag == 0)

unfoldable pub check_avail : ℕ → Card → Option DeckError
check_avail flag card =
    if has_bits card.variant avail_custom
    then none
    else if bit_and card.variant flag == flag
    then none
    else if has_bits card.variant avail_ocg && not (flag == avail_ocg)
    then some (ocg_card_error card.code)
    else if has_bits card.variant avail_tcg && not (flag == avail_tcg)
    then some (tcg_card_error card.code)
    else some (not_official_card_error card.code)

unfoldable pub card_availability : YgoproRule → Handler → Handler
unfolding avail_flag_for check_avail
card_availability rule next deck =
    let flag = avail_flag_for rule in
    if flag == 0
    then next deck
    else or_next (first_error (check_avail flag) (all_cards_of deck)) (next deck)
