-- ===== src/Deck/Errors.antt =====
-- shared/deck/domain/errors: the value that a failed check returns.
use edopro_server_ts.Prelude.{ℕ}

-- `DeckErrorType`
pub data DeckErrorType : Type 0 where
  card_banlisted card_ocg_only card_tcg_only card_unknown card_more_than_3 : DeckErrorType
  deck_bad_main_count deck_bad_extra_count deck_bad_side_count : DeckErrorType
  card_forbidden_type card_unofficial deck_invalid_size : DeckErrorType
  deck_too_many_legends deck_too_many_skills : DeckErrorType

pub record DeckError : Type 0 where
  pub error_type : DeckErrorType
  pub code : ℕ
  pub got : ℕ
  pub min : ℕ
  pub max : ℕ

-- The errors that name a card and no count.
abbrev pub card_error : DeckErrorType → ℕ → DeckError
card_error t card_id = record { error_type = t; code = card_id; got = 0; min = 0; max = 0 }

-- The errors that name a count and its bounds.
abbrev pub count_error : DeckErrorType → ℕ → ℕ → ℕ → DeckError
count_error t got min max = record { error_type = t; code = 0; got = got; min = min; max = max }

abbrev pub ban_list_error : ℕ → DeckError
ban_list_error = card_error card_banlisted

abbrev pub card_more_than_3_error : ℕ → DeckError
card_more_than_3_error = card_error card_more_than_3

abbrev pub ocg_card_error : ℕ → DeckError
ocg_card_error = card_error card_ocg_only

abbrev pub tcg_card_error : ℕ → DeckError
tcg_card_error = card_error card_tcg_only

abbrev pub not_official_card_error : ℕ → DeckError
not_official_card_error = card_error card_unofficial

abbrev pub unknown_card_error : ℕ → DeckError
unknown_card_error = card_error card_unknown

abbrev pub main_deck_limit_error : ℕ → ℕ → ℕ → DeckError
main_deck_limit_error = count_error deck_bad_main_count

abbrev pub side_deck_limit_error : ℕ → ℕ → ℕ → DeckError
side_deck_limit_error = count_error deck_bad_side_count

abbrev pub extra_deck_limit_error : ℕ → ℕ → ℕ → DeckError
extra_deck_limit_error = count_error deck_bad_extra_count

abbrev pub credit_limit_deck_error : ℕ → ℕ → ℕ → DeckError
credit_limit_deck_error card_id spent allowed = record {
  error_type = card_banlisted;
  code = card_id;
  got = spent;
  min = 0;
  max = allowed;
}
