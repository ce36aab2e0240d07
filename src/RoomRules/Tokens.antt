-- ===== src/RoomRules/Tokens.antt =====
-- src/ygopro/room/domain/RuleMappings.ts, the recognized tokens and the card pools; isPairingJoin.ts of
-- src/ygopro/room/application/join-strategies; reservedRoomCommand.ts of src/ygopro/room/domain.
-- `toLowerCase` and `trim` are parameters.
use edopro_server_ts.Prelude.{
  ℕ, String, Option, none, some, Bool, true, false, not, ◌||◌, List, [], ◌∷◌, ◌++◌, any, all, map,
  filter, if◌then◌else◌,
}
use edopro_server_ts.Prelude.Eq.{◌==◌, nat_eq}
use edopro_server_ts.RoomRules.Texts.{Text, codes, text_eqb, validate}
use edopro_server_ts.RoomRules.Modes.{rule_mappings}
use edopro_server_ts.RoomRules.Formats.{format_rule_mappings}
use edopro_server_ts.RoomRules.Priority.{priority_rule_mappings}

abbrev pub is_recognized : Text → Bool
is_recognized normalized =
    any (validate normalized) rule_mappings
    || (any (validate normalized) format_rule_mappings
        || any (validate normalized) priority_rule_mappings)

abbrev pub is_recognized_token : (Text → Text) → Text → Bool
is_recognized_token to_lower token = is_recognized (to_lower token)

-- PoolSelection.ts: the names of the pools.
pub data CardPool : Type 0 where
  standard_pool extended_pool rush_pool : CardPool

abbrev pub format_card_pools : List (String × CardPool)
format_card_pools =
    ("pre", extended_pool)
    ∷ ("tcgpre", extended_pool)
    ∷ ("ocgpre", extended_pool)
    ∷ ("tcgart", extended_pool)
    ∷ ("ocgart", extended_pool)
    ∷ ("rushpre", extended_pool)
    ∷ ("rush", rush_pool)
    ∷ []

-- `formatCardPools.get`
abbrev pub pool_of : List (String × CardPool) → Text → Option CardPool
pool_of [] option = none
pool_of ((token, pool) ∷ pools) option =
    if text_eqb (codes token) option then some pool else pool_of pools option

abbrev pub resolve_card_pool : (Text → Text) → List Text → CardPool
resolve_card_pool to_lower [] = standard_pool
resolve_card_pool to_lower (option ∷ options) = elim (pool_of format_card_pools (to_lower option)) [
  | some pool ↦ pool
  | none ↦ resolve_card_pool to_lower options
]

-- `split` at a one-character separator: the first part, and the others.
abbrev pub split_at : ℕ → Text → Text × List Text
split_at separator [] = ([], [])
split_at separator (c ∷ cs) =
    let rest = split_at separator cs in
    if c == separator then ([], rest.0 ∷ rest.1) else (c ∷ rest.0, rest.1)

abbrev pub parts : ℕ → Text → List Text
parts separator text = let (first, others) = split_at separator text in first ∷ others

abbrev pub is_empty : Text → Bool
is_empty [] = true
is_empty (_ ∷ _) = false

abbrev pub is_casual : Text → Bool
is_casual token = text_eqb (codes "casual") token

abbrev pub no_tokens : List Text → Bool
no_tokens [] = true
no_tokens (_ ∷ _) = false

-- The tokens of a command that are not empty.
abbrev pub tokens_of : (Text → Text) → (Text → Text) → Text → List Text
tokens_of to_lower trim command =
    filter (λ token. not (is_empty token)) (map (λ token. to_lower (trim token)) (parts 44 command))

unfoldable pub is_pairing_join : (Text → Text) → (Text → Text) → Text → Text → Bool
is_pairing_join to_lower trim command password =
    if not (is_empty password)
    then false
    else if is_empty command
    then false
    else if no_tokens (tokens_of to_lower trim command)
    then false
    else all (λ token. is_recognized_token to_lower token || is_casual token)
        (tokens_of to_lower trim command)

-- The command of a reservation of a format, for a match or a single duel, behind a drawn password.
unfoldable pub reserved_room_command : Text → Bool → Text → Option Text
reserved_room_command format is_match drawn =
    if not (any (validate format) format_rule_mappings)
    then none
    else some ((if is_match then format ++ codes ",m" else format) ++ 35 ∷ drawn)
