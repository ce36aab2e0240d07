-- ===== src/RoomRules/Texts.antt =====
-- The regular expressions of src/ygopro/room/domain/RuleMappings.ts, on lists of code units, and what a
-- rule mapping is.
use edopro_server_ts.Prelude.{
  ℕ, zero, suc, ◌+◌, String, Option, none, some, Bool, true, false, not, ◌&&◌, ◌||◌, List, [], ◌∷◌,
  all, any, if◌then◌else◌,
}
use edopro_server_ts.Prelude.Eq.{◌==◌, nat_eq}
pub use edopro_server_ts.Prelude.Texts.{Text, codes, text_eqb, is_digit, digits_value}
use edopro_server_ts.Prelude.Int.{ℤ, pos, negsuc}

-- `\d+$`
abbrev pub is_number : Text → Bool
is_number [] = false
is_number (c ∷ cs) = all is_digit (c ∷ cs)

-- `^w\d+$`
abbrev pub is_numbered : Text → Text → Bool
is_numbered [] o = is_number o
is_numbered (_ ∷ _) [] = false
is_numbered (a ∷ xs) (b ∷ bs) = (a == b) && is_numbered xs bs

abbrev pub extract_number_from_command : Text → Option ℕ
extract_number_from_command [] = none
extract_number_from_command (c ∷ cs) =
    if is_digit c then some (digits_value 0 (c ∷ cs)) else extract_number_from_command cs

-- A letter of the expression `/.../i`: the lower-case letter or the upper-case one.
abbrev pub letter_eqb : ℕ → ℕ → Bool
letter_eqb lower c = c == lower || c + 32 == lower

-- What `.` does not match.
abbrev pub is_line_terminator : ℕ → Bool
is_line_terminator c = c == 10 || (c == 13 || (c == 0x2028 || c == 0x2029))

-- `(.+)$`
abbrev pub is_rest : Text → Bool
is_rest [] = false
is_rest (c ∷ cs) = all (λ d. not (is_line_terminator d)) (c ∷ cs)

-- The group of `/^w(.+)$/i`.
abbrev pub followed : Text → Text → Option Text
followed [] o = if is_rest o then some o else none
followed (_ ∷ _) [] = none
followed (a ∷ xs) (c ∷ cs) = if letter_eqb a c then followed xs cs else none

abbrev pub or_else : Option Text → Option Text → Option Text
or_else none other = other
or_else (some t) other = some t

-- The group of `/^(?:lf|lflist)(.+)$/i`, which tries its alternatives in order.
abbrev pub lf_query : Text → Option Text
lf_query value = or_else (followed (codes "lf") value) (followed (codes "lflist") value)

-- The natural number of which a text is the shortest spelling.
abbrev pub natural_of : Text → Option ℕ
natural_of [] = none
natural_of (c ∷ cs) =
    if c == 48
    then (if text_eqb cs [] then some 0 else none)
    else if all is_digit (c ∷ cs)
    then some (digits_value 0 (c ∷ cs))
    else none

abbrev pub negated : Option ℕ → Option ℤ
negated none = none
negated (some zero) = none
negated (some (suc n)) = some (negsuc n)

-- `parseInt(query, 10)`, where `toString` of it is `query`.
abbrev pub integer_of : Text → Option ℤ
integer_of [] = none
integer_of (c ∷ cs) =
    if c == 45
    then negated (natural_of cs)
    else elim (natural_of (c ∷ cs)) [ none ↦ none | some n ↦ some (pos n) ]

-- The modes of the package ygopro-msg-encode.
pub data GameMode : Type 0 where
  single_mode match_mode tag_mode : GameMode

pub record HostInfo : Type 0 where
  pub lflist : ℤ
  pub rule : ℕ
  pub mode : GameMode
  pub duel_rule : ℕ
  pub no_check_deck : ℕ
  pub no_shuffle_deck : ℕ
  pub start_lp : ℕ
  pub start_hand : ℕ
  pub draw_count : ℕ
  pub time_limit : ℕ
  pub max_deck_points : ℕ
  pub best_of : ℕ
  pub tcg_segoc_nonpublic : ℕ
  pub goat_2005 : ℕ

-- YGOProBanListCatalog: the loaded banlists, by position; a missing alias is at -1.
pub record Catalog : Type 0 where
  pub find_index_by_alias : Text → ℤ
  pub newest_tcg_index : ℤ
  pub first_ocg_index : ℤ
  pub hash_by_index : ℤ → Option ℕ

-- What a `validate` accepts: a word, a word and a number, or `/^(lf|lflist)(.+)$/i`.
pub data Pattern : Type 0 where
  word : String → Pattern
  numbered : String → Pattern
  list_name : Pattern

abbrev pub is_some : Option Text → Bool
is_some none = false
is_some (some _) = true

abbrev pub matches : Text → Pattern → Bool
matches o (word w) = text_eqb (codes w) o
matches o (numbered w) = is_numbered (codes w) o
matches o list_name = is_some (lf_query o)

-- An entry of a table: the patterns of its `validate`, and the host info with what its `get` returns
-- spread over it. A `get` that throws is `none`.
pub record RuleMapping : Type 0 where
  pub patterns : List Pattern
  pub assign : Catalog → Text → HostInfo → Option HostInfo

abbrev pub validate : Text → RuleMapping → Bool
validate o m = any (matches o) m.patterns

-- A `get` that reads neither the option nor fails.
abbrev pub fixed : List Pattern → (Catalog → HostInfo → HostInfo) → RuleMapping
fixed patterns change = record {
  patterns = patterns;
  assign = λ catalog _ h. some (change catalog h);
}

abbrev pub is_missing : ℤ → Bool
is_missing (pos _) = false
is_missing (negsuc zero) = true
is_missing (negsuc (suc _)) = false

-- A number one less.
abbrev pub pred : ℤ → ℤ
pred (pos zero) = negsuc 0
pred (pos (suc n)) = pos n
pred (negsuc n) = negsuc (suc n)
