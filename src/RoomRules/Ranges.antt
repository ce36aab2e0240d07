-- ===== src/RoomRules/Ranges.antt =====
-- Every rule mapping keeps the host info within its ranges.
use edopro_server_ts.Prelude.{
  ℕ, ◌%◌, ◌≤◌, ◌≡◌, ◌⊎◌, inl, inr, Option, none, some, List, arith, All, Bool-cases,
}
use edopro_server_ts.Prelude.Eq.{nat_eq}
use edopro_server_ts.RoomRules.{
  Text, HostInfo, Catalog, RuleMapping, GameMode, match_mode, rule_mappings, format_rule_mappings,
  priority_rule_mappings, get_bo, get_lp, get_tm, get_mr, get_dr, get_st,
  extract_number_from_command, get_genesys, is_missing, codes,
}
use edopro_server_ts.RoomRules.Room.{rule_mapping_tiers}

-- The ranges of the settings; more duels than one are a match.
abbrev pub IsBetween : ℕ → ℕ → ℕ → Type 0
IsBetween low high n = (low ≤ n) × (n ≤ high)

abbrev pub IsDuels : GameMode → ℕ → Type 0
IsDuels mode n = (n % 2 ≡ 1) × ((n ≡ 1) ⊎ (mode ≡ match_mode))

abbrev pub IsInRange : HostInfo → Type 0
IsInRange h =
    IsBetween 1 99999 h.start_lp
    × IsBetween 1 40 h.start_hand
    × IsBetween 1 35 h.draw_count
    × (h.time_limit ≤ 3600)
    × IsBetween 1 5 h.duel_rule
    × (h.rule ≤ 5)
    × IsDuels h.mode h.best_of

abbrev pub InRange? : Option HostInfo → Type 0
InRange? none = Unit
InRange? (some h) = IsInRange h

-- Every mapping of the tier keeps the ranges.
abbrev pub Keeps : List RuleMapping → Type 0
Keeps tier =
    (catalog : Catalog) (value : Text) (h : HostInfo)
    → IsInRange h
    → All (λ m. InRange? (m.assign catalog value h)) tier

bo-InRange : (n : Option ℕ) (h : HostInfo) → IsInRange h → IsInRange (get_bo n h)
bo-InRange none h i = ground arith
bo-InRange (some n) h i = ground arith

lp-InRange : (n : Option ℕ) (h : HostInfo) → IsInRange h → IsInRange (get_lp n h)
lp-InRange none h i = ground arith
lp-InRange (some n) h i = ground arith

tm-InRange : (n : Option ℕ) (h : HostInfo) → IsInRange h → IsInRange (get_tm n h)
tm-InRange none h i = ground arith
tm-InRange (some n) h i = ground arith

mr-InRange : (n : Option ℕ) (h : HostInfo) → IsInRange h → IsInRange (get_mr n h)
mr-InRange none h i = i
mr-InRange (some n) h i = ground arith

dr-InRange : (n : Option ℕ) (h : HostInfo) → IsInRange h → IsInRange (get_dr n h)
dr-InRange none h i = ground arith
dr-InRange (some n) h i = ground arith

st-InRange : (n : Option ℕ) (h : HostInfo) → IsInRange h → IsInRange (get_st n h)
st-InRange none h i = ground arith
st-InRange (some n) h i = ground arith

genesys-InRange :
    (catalog : Catalog) (value : Text) (h : HostInfo)
    → IsInRange h
    → InRange? (get_genesys catalog value h)
genesys-InRange catalog value h i =
    elim (Bool-cases (is_missing (catalog.find_index_by_alias (codes "genesys")))) [
      | inl missing ↦ rw missing tt
      | inr loaded ↦ rw loaded (ground arith)
    ]

modes-Keeps : Keeps rule_mappings
modes-Keeps catalog value h i = ground arith

formats-Keeps : Keeps format_rule_mappings
formats-Keeps catalog value h i = ground (arith, genesys-InRange catalog value h i)

priority-Keeps : Keeps priority_rule_mappings
priority-Keeps catalog value h i =
    let n = extract_number_from_command value in
    ground (
      arith,
      bo-InRange n h i,
      lp-InRange n h i,
      tm-InRange n h i,
      mr-InRange n h i,
      dr-InRange n h i,
      st-InRange n h i,
    )

pub tiers-Keep : All Keeps rule_mapping_tiers
tiers-Keep = (modes-Keeps, (formats-Keeps, (priority-Keeps, tt)))
