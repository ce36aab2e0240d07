-- ===== src/RankGroups.antt =====
-- src/shared/rank/domain/RankGroupResolution.ts and RankGroupConfig.ts, and RankGroupResolver.ts of
-- src/shared/rank/application: which group ranks a banlist's name feeds. A day is its three numbers, in
-- UTC.
pub mod Currency
pub mod Loaded
pub mod Agree
mod Tests
use mathlib.Core.List.{flatten}
use edopro_server_ts.Prelude.{
  ℕ, ◌+◌, ◌*◌, Option, none, some, Bool, true, false, not, ◌&&◌, ◌||◌, List, [], ◌∷◌, ◌++◌, ltb,
  leb, min, max, all, any, map, filter, if◌then◌else◌,
}
use edopro_server_ts.Prelude.Eq.{◌==◌, nat_eq, contains}
use edopro_server_ts.Prelude.Bytes.{drop}
use edopro_server_ts.Prelude.Dict.{get}
use edopro_server_ts.Prelude.Texts.{
  Text, codes, text_eqb, text_eq, is_digit, digits_value, starts_with, ends_with,
}

pub record RankGroupDefinition : Type 0 where
  pub name : Text
  pub enabled : Bool
  pub only_current : Bool
  pub members : List Text

pub record RankGroupsConfig : Type 0 where
  pub aliases : List (Text × Text)
  pub groups : List RankGroupDefinition

pub record BanListDatePrefix : Type 0 where
  pub year : ℕ
  pub month : ℕ
  pub day : ℕ

abbrev pub non_groupable_names : List Text
non_groupable_names = codes "N/A" ∷ codes "Global" ∷ []

-- `\s`
abbrev pub is_space : ℕ → Bool
is_space c =
    (leb 9 c && leb c 13)
    || (leb 8192 c && leb c 8202)
    || contains c (32 ∷ 160 ∷ 5760 ∷ 8232 ∷ 8233 ∷ 8239 ∷ 8287 ∷ 12288 ∷ 65279 ∷ [])

-- `(?=\s|$)`
abbrev pub is_boundary : Text → Bool
is_boundary [] = true
is_boundary (c ∷ _) = is_space c

-- `\.(\d{2})(?=\s|$)`
abbrev pub day_prefix : Text → Option ℕ
day_prefix (dot ∷ a ∷ b ∷ rest) =
    if dot == 46 && all is_digit (a ∷ b ∷ []) && is_boundary rest
    then some (digits_value 0 (a ∷ b ∷ []))
    else none
day_prefix _ = none

abbrev pub with_day : ℕ → ℕ → Text → Option BanListDatePrefix
with_day year month rest = elim (day_prefix rest) [
  | some day ↦ some (record { year = year; month = month; day = day })
  | none ↦ if is_boundary rest then some (record { year = year; month = month; day = 1 }) else none
]

unfoldable pub parse_ban_list_date_prefix : Text → Option BanListDatePrefix
parse_ban_list_date_prefix (a ∷ b ∷ c ∷ d ∷ dot ∷ m ∷ n ∷ rest) =
    if all is_digit (a ∷ b ∷ c ∷ d ∷ []) && dot == 46 && all is_digit (m ∷ n ∷ [])
    then with_day (digits_value 0 (a ∷ b ∷ c ∷ d ∷ [])) (digits_value 0 (m ∷ n ∷ [])) rest
    else none
parse_ban_list_date_prefix _ = none

abbrev pub resolve_alias : Text → List (Text × Text) → Text
unfolding get
resolve_alias name aliases = elim (get name aliases) [ none ↦ name | some rank ↦ rank ]

unfoldable pub member_matches : Text → Text → Bool
member_matches ban_list_name member =
    if starts_with (codes "* ") member
    then ends_with (32 ∷ drop 2 member) ban_list_name
    else text_eqb ban_list_name member

unfoldable pub date_key : BanListDatePrefix → ℕ
date_key date = date.year * 10000 + date.month * 100 + date.day

-- A clock's day; the month is counted from zero.
pub record Day : Type 0 where
  pub utc_full_year : ℕ
  pub utc_month : ℕ
  pub utc_date : ℕ

unfoldable pub today_key : Day → ℕ
today_key today = today.utc_full_year * 10000 + (today.utc_month + 1) * 100 + today.utc_date

unfoldable pub matches_group : Text → RankGroupDefinition → Bool
unfolding member_matches
matches_group name group = any (member_matches name) group.members

-- The date that a name begins with, as a number.
unfoldable pub dated_key : Text → Option ℕ
unfolding parse_ban_list_date_prefix date_key
dated_key name = elim (parse_ban_list_date_prefix name) [
  | none ↦ none
  | some date ↦ some (date_key date)
]

module _ {ℓ κ} {A : Type ℓ} {B : Type κ} where
  -- What there is of `f` in a list, without `null`.
  abbrev pub filter_map : (A → Option B) → List A → List B
  filter_map f [] = []
  filter_map f (x ∷ xs) =
      let rest = filter_map f xs in elim (f x) [ none ↦ rest | some y ↦ y ∷ rest ]

-- `Math.max(...keys)` and `Math.min(...keys)`, of no key `null`.
abbrev pub max_from : ℕ → List ℕ → ℕ
max_from m [] = m
max_from m (k ∷ ks) = max_from (max m k) ks

abbrev pub min_from : ℕ → List ℕ → ℕ
min_from m [] = m
min_from m (k ∷ ks) = min_from (min m k) ks

abbrev pub greatest : List ℕ → Option ℕ
greatest [] = none
greatest (k ∷ ks) = some (max_from k ks)

abbrev pub least : List ℕ → Option ℕ
least [] = none
least (k ∷ ks) = some (min_from k ks)

-- The dated names that match the group, not after the day.
unfoldable pub current_keys : RankGroupDefinition → ℕ → List Text → List ℕ
unfolding matches_group dated_key
current_keys group reference_key names =
    filter (λ key. leb key reference_key)
      (filter_map dated_key (filter (λ name. matches_group name group) names))

unfoldable pub max_current_dated_key : RankGroupDefinition → ℕ → List Text → Option ℕ
unfolding current_keys
max_current_dated_key group reference_key names = greatest (current_keys group reference_key names)

unfoldable pub currency_floor_key : RankGroupDefinition → List (List Text) → ℕ → Option ℕ
unfolding max_current_dated_key
currency_floor_key group loaded_name_sets reference_key =
    least (filter_map (max_current_dated_key group reference_key) loaded_name_sets)

abbrev pub is_from : Option ℕ → ℕ → Bool
is_from none key = true
is_from (some floor) key = leb floor key

unfoldable pub is_current : Option ℕ → RankGroupDefinition → List (List Text) → ℕ → Bool
unfolding currency_floor_key
is_current none group loaded_name_sets reference_key = true
is_current (some played) group loaded_name_sets reference_key =
    if ltb reference_key played
    then false
    else is_from (currency_floor_key group loaded_name_sets reference_key) played

-- The name feeds the group.
abbrev pub resolves : Text → List (List Text) → ℕ → RankGroupDefinition → Bool
unfolding matches_group is_current dated_key
resolves name loaded_name_sets reference_key group =
    group.enabled
    && (matches_group name group
        && (not group.only_current
            || is_current (dated_key name) group loaded_name_sets reference_key))

abbrev pub is_empty : Text → Bool
is_empty [] = true
is_empty (_ ∷ _) = false

unfoldable pub resolve_groups_for :
    Text → List RankGroupDefinition → List (List Text) → Day → List Text
unfolding resolves today_key
resolve_groups_for name groups loaded_name_sets today =
    if is_empty name || contains name non_groupable_names
    then []
    else map (λ g. g.name) (filter (resolves name loaded_name_sets (today_key today)) groups)

-- `[...new Set(names)]`
abbrev pub distinct_from : List Text → List Text → List Text
distinct_from seen [] = []
distinct_from seen (x ∷ xs) =
    if contains x seen then distinct_from seen xs else x ∷ distinct_from (x ∷ seen) xs

abbrev pub matched_lists : RankGroupDefinition → List (List Text) → List Text
unfolding matches_group flatten
matched_lists group loaded_name_sets =
    filter (λ name. matches_group name group) (distinct_from [] (flatten loaded_name_sets))

abbrev pub is_within : Option ℕ → ℕ → ℕ → Bool
is_within none reference_key key = false
is_within (some floor) reference_key key = leb floor key && leb key reference_key

-- The test on a dated or dateless name.
abbrev pub feeds_now : Option ℕ → ℕ → Option ℕ → Bool
feeds_now floor reference_key none = true
feeds_now floor reference_key (some key) = is_within floor reference_key key

abbrev pub current_lists_for : RankGroupDefinition → List (List Text) → Day → List Text × List Text
unfolding matched_lists currency_floor_key today_key dated_key
current_lists_for group loaded_name_sets today =
    let floor = currency_floor_key group loaded_name_sets (today_key today) in
    (
      matched_lists group loaded_name_sets,
      filter
          (λ name.
            not (contains name non_groupable_names)
            && feeds_now floor (today_key today) (dated_key name))
          (matched_lists group loaded_name_sets),
    )

-- RankGroupResolver.groupsFor
unfoldable pub groups_for : RankGroupsConfig → List (List Text) → Day → Text → List Text
unfolding resolve_groups_for resolve_alias
groups_for config name_sets now ban_list_name =
    resolve_groups_for ban_list_name config.groups
      (map (map (λ name. resolve_alias name config.aliases)) name_sets) now
