-- ===== src/RoomRules/ListNames.antt =====
-- The options of a banlist, and the options that no rule reads.
use edopro_server_ts.Prelude.{
  inl, inr, ◌≡◌, refl, Bool, true, false, ◌||◌, List, [], ◌∷◌, ◌++◌, arith, any, filter, Bool-cases,
  if◌then◌else◌, some,
}
use edopro_server_ts.Prelude.Int.{pos}
use edopro_server_ts.RoomRules.{
  Text, codes, is_rest, Catalog, HostInfo, RuleMapping, get_lf, lf_query, is_missing, validate,
  is_recognized, rule_mappings, format_rule_mappings, priority_rule_mappings,
}
use edopro_server_ts.RoomRules.Room.{
  rule_mapping_tiers, Settings, settings, two_rules, not_loaded, and_set, apply_option, apply_tier,
  apply_tiers,
}

-- An option `lflist` and a name looks up the alias `list` and that name, and takes the first banlist
-- when there is none: the name itself is not looked up.
pub lflist_looks_up_list :
    (catalog : Catalog) (name : Text)
    → is_rest name ≡ true
    → get_lf catalog (codes "lflist" ++ name) ≡ (
        if is_missing (catalog.find_index_by_alias (codes "list" ++ name))
        then pos 0
        else catalog.find_index_by_alias (codes "list" ++ name))
lflist_looks_up_list catalog [] h = cc
lflist_looks_up_list catalog (c ∷ name) h =
    let query : lf_query (codes "lflist" ++ c ∷ name) ≡ some (codes "list" ++ c ∷ name) =
      rw (h, lf_query) refl in
    rw (query, get_lf) refl

no_items :
    (o : Text) (tier : List RuleMapping)
    → any (validate o) tier ≡ false
    → filter (validate o) tier ≡ []
no_items o [] h = refl
no_items o (m ∷ tier) h = elim (Bool-cases (validate o m)) [
  | inl accepts ↦ absurd (ground (arith, accepts, h))
  | inr refuses ↦ rw refuses (no_items o tier (ground (arith, refuses, h)))
]

and_set-path :
    (s : Settings) {f g : HostInfo → Settings}
    → ((h : HostInfo) → f h ≡ g h)
    → and_set s f ≡ and_set s g
and_set-path (settings h) e = e h
and_set-path two_rules e = refl
and_set-path not_loaded e = refl

-- What is not recognized is accepted in no tier.
unread_each :
    (o : Text)
    → is_recognized o ≡ false
    → (any (validate o) rule_mappings ≡ false)
      × (any (validate o) format_rule_mappings ≡ false)
      × (any (validate o) priority_rule_mappings ≡ false)
unread_each o h =
    none_of_three (any (validate o) rule_mappings) (any (validate o) format_rule_mappings)
      (any (validate o) priority_rule_mappings) h
  where
    none_of_three :
        (a b c : Bool) → (a || (b || c)) ≡ false → (a ≡ false) × (b ≡ false) × (c ≡ false)
    none_of_three a b c e = ground arith

module _ (catalog : Catalog) where
  tier_skips :
      (tier : List RuleMapping)
      → ((o : Text) → is_recognized o ≡ false → any (validate o) tier ≡ false)
      → (options : List Text) (h : HostInfo)
      → apply_tier catalog tier (filter is_recognized options) h ≡ apply_tier catalog tier options h
  tier_skips tier unread [] h = refl
  tier_skips tier unread (o ∷ options) h = elim (Bool-cases (is_recognized o)) [
    | inl known ↦
        rw known (and_set-path (apply_option catalog tier o h) (tier_skips tier unread options))
    | inr unknown ↦
        rw (unknown, no_items o tier (unread o unknown)) (tier_skips tier unread options h)
  ]

  -- The options that are not recognized leave the settings alone.
  pub apply_tiers_skips :
      (options : List Text) (h : HostInfo)
      → apply_tiers catalog rule_mapping_tiers (filter is_recognized options) h
        ≡ apply_tiers catalog rule_mapping_tiers options h
  apply_tiers_skips options h =
      rw (tier_skips rule_mappings (λ o u. (unread_each o u).0) options h) (
        and_set-path (apply_tier catalog rule_mappings options h) (λ h1.
          rw (tier_skips format_rule_mappings (λ o u. (unread_each o u).1) options h1) (
            and_set-path (apply_tier catalog format_rule_mappings options h1) (λ h2.
              rw (tier_skips priority_rule_mappings (λ o u. (unread_each o u).2) options h2)
                refl))))
