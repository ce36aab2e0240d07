-- ===== src/RoomRules/Tiers.antt =====
-- What the tiers of rule mappings make of the options of a command.
use edopro_server_ts.Prelude.{
  ◌≤◌, ◌≡◌, ◌⊎◌, inl, inr, refl, sym, ap, ◌∙◌, subst, Option, none, some, Bool, true, false, ◌&&◌,
  List, [], ◌∷◌, arith, length, any, filter, All, Bool-cases, Option-cases, and-eq-true_iff,
}
use edopro_server_ts.RoomRules.{
  Text, HostInfo, Catalog, RuleMapping, validate, rule_mappings, format_rule_mappings,
  priority_rule_mappings, genesys_rule, is_missing, codes,
}
use edopro_server_ts.RoomRules.Room.{
  rule_mapping_tiers, Settings, settings, not_loaded, apply_option, apply_tier, apply_tiers,
  apply_items, settings_of,
}
use edopro_server_ts.Prelude.Bytes.{take, drop}
use edopro_server_ts.RoomRules.Keys.{one_rule_each}
use edopro_server_ts.RoomRules.Ranges.{IsInRange, InRange?, Keeps, tiers-Keep}
use edopro_server_ts.RoomRules.Accepted.{pick, alone}

abbrev is_set : Option HostInfo → Bool
is_set none = false
is_set (some _) = true

abbrev pub Sets : Settings → Type 0
Sets s = (h : HostInfo) × (s ≡ settings h) × IsInRange h

and-false : (a b : Bool) → (a && b) ≡ false → b ≡ true → a ≡ false
and-false a b h accepts = ground arith

module _ (catalog : Catalog) where
  abbrev InSet : Text → HostInfo → RuleMapping → Type 0
  InSet o h m = validate o m ≡ true → is_set (m.assign catalog o h) ≡ true

  option-Sets :
      (tier : List RuleMapping) (o : Text) (h : HostInfo)
      → length (filter (validate o) tier) ≤ 1
      → Keeps tier
      → All (InSet o h) tier
      → IsInRange h
      → Sets (apply_option catalog tier o h)
  option-Sets tier o h one keeps set i = elim (pick o tier one) [
    | inl nothing ↦ (h, ap (λ ms. apply_items catalog o ms h) nothing, i)
    | inr (m, only, accepts, of_all) ↦
        let ok = of_all (InSet o h) set accepts in
        let range = of_all (λ n. InRange? (n.assign catalog o h)) (keeps catalog o h i) in
        elim (Option-cases (m.assign catalog o h)) [
          | inl fails ↦ absurd (let g = sym (ap is_set fails) in cc)
          | inr (h', sets) ↦ (
            h',
            ap (λ ms. apply_items catalog o ms h) only ∙ ap settings_of sets,
            subst InRange? sets range,
          )
        ]
  ]

  -- The options of a tier, of which some throw.
  abbrev Acts : (Text → Bool) → List RuleMapping → Type 0
  Acts throws tier =
      (o : Text) (h : HostInfo)
      → IsInRange h
      → ((throws o ≡ true) × (apply_option catalog tier o h ≡ not_loaded))
        ⊎ ((throws o ≡ false) × Sets (apply_option catalog tier o h))

  tier-Acts :
      (throws : Text → Bool) (tier : List RuleMapping)
      → Acts throws tier
      → (options : List Text) (h : HostInfo) → IsInRange h
      → ((any throws options ≡ true) × (apply_tier catalog tier options h ≡ not_loaded))
        ⊎ ((any throws options ≡ false) × Sets (apply_tier catalog tier options h))
  tier-Acts throws tier acts [] h i = inr (refl, (h, refl, i))
  tier-Acts throws tier acts (o ∷ options) h i = elim (acts o h i) [
    | inl (fails, result) ↦ inl (rw fails refl, rw result refl)
    | inr (fine, (h', result, i')) ↦ elim (tier-Acts throws tier acts options h' i') [
      | inl (later, ends) ↦ inl (rw (fine, later) refl, rw result ends)
      | inr (later, sets) ↦ inr (rw (fine, later) refl, rw result sets)
    ]
  ]

  -- The option asks for a banlist that is not loaded.
  abbrev pub asks_missing : Text → Bool
  asks_missing o =
      is_missing (catalog.find_index_by_alias (codes "genesys")) && validate o genesys_rule

  modes_act : Acts (λ _. false) rule_mappings
  modes_act o h i =
      inr (refl, option-Sets rule_mappings o h (one_rule_each o).0 tiers-Keep.0 (ground arith) i)

  priority_act : Acts (λ _. false) priority_rule_mappings
  priority_act o h i = inr (
    refl,
    option-Sets priority_rule_mappings o h (one_rule_each o).1.1.0 tiers-Keep.1.1.0 (ground arith)
        i,
  )

  genesys-asked :
      (o : Text) (h : HostInfo)
      → asks_missing o ≡ true
      → apply_option catalog format_rule_mappings o h ≡ not_loaded
  genesys-asked o h asks =
      let (missing, accepts) =
        (and-eq-true_iff (is_missing (catalog.find_index_by_alias (codes "genesys")))
            (validate o genesys_rule)).0
          asks in
      let only =
        alone o (take 10 format_rule_mappings) (drop 11 format_rule_mappings) genesys_rule accepts
          (one_rule_each o).1.0 in
      ap (λ ms. apply_items catalog o ms h) only ∙ rw missing refl

  genesys-InSet : (o : Text) (h : HostInfo) → asks_missing o ≡ false → InSet o h genesys_rule
  genesys-InSet o h fine accepts =
      let loaded : is_missing (catalog.find_index_by_alias (codes "genesys")) ≡ false =
        and-false (is_missing (catalog.find_index_by_alias (codes "genesys")))
          (validate o genesys_rule) fine accepts in
      rw loaded refl

  formats_act : Acts asks_missing format_rule_mappings
  formats_act o h i = elim (Bool-cases (asks_missing o)) [
    | inl asks ↦ inl (asks, genesys-asked o h asks)
    | inr fine ↦ inr (
      fine,
      option-Sets format_rule_mappings o h (one_rule_each o).1.0 tiers-Keep.1.0
          (
            λ _. refl,
            (
              λ _. refl,
              (
                λ _. refl,
                (
                  λ _. refl,
                  (
                    λ _. refl,
                    (
                      λ _. refl,
                      (
                        λ _. refl,
                        (
                          λ _. refl,
                          (
                            λ _. refl,
                            (
                              λ _. refl,
                              (
                                genesys-InSet o h fine,
                                (
                                  λ _. refl,
                                  (
                                    λ _. refl,
                                    (
                                      λ _. refl,
                                      (
                                        λ _. refl,
                                        (
                                          λ _. refl,
                                          (λ _. refl, (λ _. refl, (λ _. refl, (λ _. refl, tt)))),
                                        ),
                                      ),
                                    ),
                                  ),
                                ),
                              ),
                            ),
                          ),
                        ),
                      ),
                    ),
                  ),
                ),
              ),
            ),
          )
          i,
    )
  ]

  -- A command throws exactly when one of its options asks for the banlist of Genesys, which is not
  -- loaded; else it makes a room whose settings are in range.
  pub tiers_act :
      (options : List Text) (h : HostInfo)
      → IsInRange h
      → ((any asks_missing options ≡ true)
          × (apply_tiers catalog rule_mapping_tiers options h ≡ not_loaded))
        ⊎ ((any asks_missing options ≡ false)
            × Sets (apply_tiers catalog rule_mapping_tiers options h))
  tiers_act options h i = elim (tier-Acts (λ _. false) rule_mappings modes_act options h i) [
    | inl (fails, _) ↦ absurd (let g = never options in cc)
    | inr (_, (h1, first, i1)) ↦
        elim (tier-Acts asks_missing format_rule_mappings formats_act options h1 i1) [
          | inl (fails, second) ↦ inl (fails, rw (first, second) refl)
          | inr (fine, (h2, second, i2)) ↦
              elim (tier-Acts (λ _. false) priority_rule_mappings priority_act options h2 i2) [
                | inl (fails, _) ↦ absurd (let g = never options in cc)
                | inr (_, (h3, third, i3)) ↦ inr (fine, (h3, rw (first, second, third) refl, i3))
              ]
        ]
  ]
    where
      never : (os : List Text) → any (λ _. false) os ≡ false
      never [] = refl
      never (o ∷ os) = never os
