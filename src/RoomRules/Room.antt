-- ===== src/RoomRules/Room.antt =====
-- src/ygopro/room/domain/YGOProRoom.ts, `create`: the room that a join command describes; and
-- src/shared/room/admission/domain/RoomLeague.ts.
use edopro_server_ts.Prelude.{
  ℕ, Option, none, some, Bool, true, false, List, [], ◌∷◌, any, map, filter, if◌then◌else◌,
}
use edopro_server_ts.RoomRules.Texts.{
  RuleMapping, Text, validate, HostInfo, Catalog, GameMode, single_mode, match_mode, tag_mode,
}
use edopro_server_ts.RoomRules.Modes.{rule_mappings}
use edopro_server_ts.RoomRules.Formats.{format_rule_mappings}
use edopro_server_ts.RoomRules.Priority.{priority_rule_mappings}
use edopro_server_ts.RoomRules.Tokens.{CardPool, resolve_card_pool, split_at, parts, is_casual}

abbrev pub best_of_mode : GameMode → ℕ
best_of_mode single_mode = 1
best_of_mode match_mode = 3
best_of_mode tag_mode = 1

abbrev pub rule_mapping_tiers : List (List RuleMapping)
rule_mapping_tiers = rule_mappings ∷ format_rule_mappings ∷ priority_rule_mappings ∷ []

abbrev pub initial_host_info : Catalog → HostInfo
initial_host_info catalog = record {
  lflist = catalog.newest_tcg_index;
  rule = 1;
  mode = single_mode;
  duel_rule = 5;
  no_check_deck = 0;
  no_shuffle_deck = 0;
  start_lp = 8000;
  start_hand = 5;
  draw_count = 1;
  time_limit = 450;
  max_deck_points = 100;
  best_of = best_of_mode single_mode;
  tcg_segoc_nonpublic = 0;
  goat_2005 = 0;
}

-- How `create` ends before there is a room: two mappings of a tier accept an option, or the `get` of
-- one throws.
pub data Settings : Type 0 where
  settings : HostInfo → Settings
  two_rules : Settings
  not_loaded : Settings

abbrev pub settings_of : Option HostInfo → Settings
settings_of none = not_loaded
settings_of (some h) = settings h

-- The mappings of a tier that accept the option, applied.
abbrev pub apply_items : Catalog → Text → List RuleMapping → HostInfo → Settings
apply_items catalog option [] h = settings h
apply_items catalog option (mapping ∷ []) h = settings_of (mapping.assign catalog option h)
apply_items catalog option (_ ∷ _ ∷ _) h = two_rules

abbrev pub and_set : Settings → (HostInfo → Settings) → Settings
and_set (settings h) next = next h
and_set two_rules next = two_rules
and_set not_loaded next = not_loaded

abbrev pub apply_option : Catalog → List RuleMapping → Text → HostInfo → Settings
apply_option catalog tier option h = apply_items catalog option (filter (validate option) tier) h

abbrev pub apply_tier : Catalog → List RuleMapping → List Text → HostInfo → Settings
apply_tier catalog tier [] h = settings h
apply_tier catalog tier (option ∷ options) h =
    and_set (apply_option catalog tier option h) (apply_tier catalog tier options)

abbrev pub apply_tiers : Catalog → List (List RuleMapping) → List Text → HostInfo → Settings
apply_tiers catalog [] options h = settings h
apply_tiers catalog (tier ∷ tiers) options h =
    and_set (apply_tier catalog tier options h) (apply_tiers catalog tiers options)

pub data RoomLeague : Type 0 where
  verified external casual : RoomLeague

abbrev pub determine : Bool → Option Bool → Bool → RoomLeague
determine true ranked_override has_pin = casual
determine false (some true) has_pin = verified
determine false (some false) has_pin = casual
determine false none has_pin = if has_pin then external else casual

pub record YgoproRoom : Type 0 where
  pub host_info : HostInfo
  pub name : Text
  pub password : Text
  pub team_count : ℕ
  pub league : RoomLeague
  pub ban_list_hash : ℕ
  pub card_pool : CardPool

pub data Creation : Type 0 where
  created : YgoproRoom → Creation
  thrown : Creation

abbrev pub hash_or_zero : Option ℕ → ℕ
hash_or_zero none = 0
hash_or_zero (some hash) = hash

abbrev pub team_count_of : GameMode → ℕ
team_count_of single_mode = 1
team_count_of match_mode = 1
team_count_of tag_mode = 2

abbrev pub second_or_empty : List Text → Text
second_or_empty [] = []
second_or_empty (part ∷ _) = part

module _ (to_lower trim : Text → Text) where
  abbrev pub options_of : Text → List Text
  options_of command = map trim (parts 44 (to_lower (split_at 35 command).0))

  abbrev pub room_of : Catalog → Text → Option Bool → Bool → Settings → Creation
  room_of catalog command ranked_override has_pin two_rules = thrown
  room_of catalog command ranked_override has_pin not_loaded = thrown
  room_of catalog command ranked_override has_pin (settings h) = created (record {
    host_info = h;
    name = (split_at 35 command).0;
    password = second_or_empty (split_at 35 command).1;
    team_count = team_count_of h.mode;
    league = determine (any is_casual (options_of command)) ranked_override has_pin;
    ban_list_hash = hash_or_zero (catalog.hash_by_index h.lflist);
    card_pool = resolve_card_pool to_lower (options_of command);
  })

  unfoldable pub create : Catalog → Text → Option Bool → Bool → Creation
  create catalog command ranked_override has_pin =
      room_of catalog command ranked_override has_pin
        (apply_tiers catalog rule_mapping_tiers (options_of command) (initial_host_info catalog))
