-- ===== src/RoomRules/Tests.antt =====
-- Join commands whose options set, clash or are not read.
use edopro_server_ts.Prelude.{
  ℕ, ◌≡◌, ◌≤◌, ◌<◌, ◌↔◌, refl, none, some, true, false, [], ◌∷◌, arith, any, filter, All, length,
  if◌then◌else◌,
}
use edopro_server_ts.Prelude.Int.{pos, negsuc}
use edopro_server_ts.RoomRules.{
  Text, codes, text_eqb, Catalog, match_mode, is_missing, get_lf, validate, is_recognized,
  standard_pool, is_pairing_join, reserved_room_command,
}
use edopro_server_ts.RoomRules.Room.{
  rule_mapping_tiers, apply_tiers, initial_host_info, options_of, create, thrown, YgoproRoom,
  external,
}
use edopro_server_ts.RoomRules.Keys.{one_rule_each}
use edopro_server_ts.RoomRules.Ranges.{IsInRange}
use edopro_server_ts.RoomRules.Tiers.{asks_missing}
use edopro_server_ts.RoomRules.Creation.{create_throws_iff, create-IsInRange}
use edopro_server_ts.RoomRules.ListNames.{lflist_looks_up_list, apply_tiers_skips}

-- A catalog that knows Goat alone.
abbrev goat_only : Catalog
goat_only = record {
  find_index_by_alias = λ name. if text_eqb (codes "goat") name then pos 4 else negsuc 0;
  newest_tcg_index = pos 1;
  first_ocg_index = pos 0;
  hash_by_index = λ _. some 77;
}

abbrev same : Text → Text
same t = t

one_rule_each_example :
    All (λ tier. length (filter (validate (codes "tcg")) tier) ≤ 1) rule_mapping_tiers
one_rule_each_example = one_rule_each (codes "tcg")

create_throws_iff_example :
    (create same same goat_only (codes "g50,ns") none false ≡ thrown)
    ↔ (any (asks_missing goat_only) (options_of same same (codes "g50,ns")) ≡ true)
create_throws_iff_example = create_throws_iff same same goat_only (codes "g50,ns") none false

abbrev longer : YgoproRoom
longer = record {
  host_info = record (initial_host_info goat_only) { mode = match_mode; best_of = 5; start_lp = 1 };
  name = codes "bo4,lp0";
  password = codes "key";
  team_count = 1;
  league = external;
  ban_list_hash = 77;
  card_pool = standard_pool;
}

exact_at : (k : ℕ) → k < 9007199254740992 → (n : ℕ) → some k ≡ some n → n < 9007199254740992
exact_at k small n h = let same_number : k ≡ n = cc in omega arith

create-IsInRange_example : IsInRange longer.host_info
unfolding create
create-IsInRange_example =
    create-IsInRange same same goat_only (codes "bo4,lp0#key") none true longer
      (exact_at 4 (omega arith), (exact_at 0 (omega arith), tt)) refl

lflist_looks_up_list_example : get_lf goat_only (codes "lflistgoat") ≡ (
    if is_missing (goat_only.find_index_by_alias (codes "listgoat"))
    then pos 0
    else goat_only.find_index_by_alias (codes "listgoat"))
lflist_looks_up_list_example = lflist_looks_up_list goat_only (codes "goat") refl

-- The shorter spelling finds the list.
lf_finds : get_lf goat_only (codes "lfgoat") ≡ pos 4
lf_finds = refl

unknown_options_skipped :
    apply_tiers goat_only rule_mapping_tiers
      (filter is_recognized (codes "friends" ∷ codes "mr3" ∷ []))
      (initial_host_info goat_only)
    ≡ apply_tiers goat_only rule_mapping_tiers
        (codes "friends" ∷ codes "mr3" ∷ [])
        (initial_host_info goat_only)
unknown_options_skipped =
    apply_tiers_skips goat_only (codes "friends" ∷ codes "mr3" ∷ []) (initial_host_info goat_only)

pairing_tokens : is_pairing_join same same (codes "tcg,,ns") [] ≡ true
unfolding is_pairing_join
pairing_tokens = refl

reserved_match : reserved_room_command (codes "jtp") true (codes "f00d") ≡ some (codes "jtp,m#f00d")
unfolding reserved_room_command
reserved_match = refl
