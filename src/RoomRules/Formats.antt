-- ===== src/RoomRules/Formats.antt =====
-- The table `formatRuleMappings` of src/ygopro/room/domain/RuleMappings.ts. The warning on an alias that
-- is not loaded goes to a log, and is left out.
use edopro_server_ts.Prelude.{ℕ, String, Option, none, some, List, [], ◌∷◌, if◌then◌else◌}
use edopro_server_ts.Prelude.Int.{ℤ, pos}
use edopro_server_ts.RoomRules.Texts.{
  RuleMapping, fixed, word, numbered, match_mode, HostInfo, Catalog, Text, codes,
  extract_number_from_command, is_missing,
}

-- An alias's index, or the fallback.
abbrev pub index_or : ℤ → ℤ → ℤ
index_or fallback index = if is_missing index then fallback else index

abbrev pub resolve_alias_index : Catalog → String → ℤ
resolve_alias_index catalog name = index_or (pos 0) (catalog.find_index_by_alias (codes name))

abbrev pub edison_rule_set : Catalog → HostInfo → HostInfo
edison_rule_set catalog h = record h {
  rule = 5;
  lflist = resolve_alias_index catalog "edison";
  duel_rule = 1;
  time_limit = 450;
}

abbrev pub goat_rule_set : Catalog → HostInfo → HostInfo
goat_rule_set catalog h = record h {
  rule = 5;
  lflist = resolve_alias_index catalog "goat";
  duel_rule = 1;
  goat_2005 = 1;
  time_limit = 450;
}

abbrev pub goat_rule : RuleMapping
goat_rule = fixed (word "goat" ∷ []) (goat_rule_set)

abbrev pub gt_rule : RuleMapping
gt_rule = fixed (word "gt" ∷ []) (goat_rule_set)

abbrev pub edison_rule : RuleMapping
edison_rule = fixed (word "edison" ∷ []) (edison_rule_set)

abbrev pub ed_rule : RuleMapping
ed_rule = fixed (word "ed" ∷ []) (edison_rule_set)

abbrev pub edm_rule : RuleMapping
edm_rule =
    fixed (word "edm" ∷ [])
      (λ catalog h. record (edison_rule_set catalog h) { mode = match_mode; best_of = 3 })

abbrev pub tengu_rule : RuleMapping
tengu_rule = fixed (word "tengu" ∷ []) (λ catalog h. record h {
  rule = 5;
  lflist = resolve_alias_index catalog "tengu";
  duel_rule = 2;
  time_limit = 450;
})

abbrev pub md_rule : RuleMapping
md_rule = fixed (word "md" ∷ []) (λ catalog h. record h {
  rule = 5;
  lflist = resolve_alias_index catalog "md";
  duel_rule = 5;
  time_limit = 450;
})

abbrev pub jtp_rule : RuleMapping
jtp_rule =
    fixed (word "jtp" ∷ []) (λ catalog h. record h {
      rule = 5;
      lflist = resolve_alias_index catalog "jtp";
      duel_rule = 1;
    })

abbrev pub jtp_2007_03_rule : RuleMapping
jtp_2007_03_rule = fixed (word "jtp-2007-03" ∷ []) (λ catalog h. record h {
  rule = 5;
  lflist = resolve_alias_index catalog "adv2007-03";
  duel_rule = 1;
})

abbrev pub jm_rule : RuleMapping
jm_rule = fixed (word "jm" ∷ []) (λ catalog h. record h {
  rule = 5;
  lflist = resolve_alias_index catalog "jtp";
  duel_rule = 1;
  mode = match_mode;
  best_of = 3;
})

abbrev pub value_or : ℕ → Option ℕ → ℕ
value_or default none = default
value_or default (some n) = n

abbrev pub get_genesys : Catalog → Text → HostInfo → Option HostInfo
get_genesys catalog value h =
    let index = catalog.find_index_by_alias (codes "genesys") in
    if is_missing index
    then none
    else some (record h {
      rule = 1;
      lflist = index;
      duel_rule = 5;
      max_deck_points = value_or 100 (extract_number_from_command value);
      time_limit = 450;
    })

abbrev pub genesys_rule : RuleMapping
genesys_rule = record {
  patterns = word "genesys" ∷ word "g" ∷ numbered "g" ∷ numbered "genesys" ∷ [];
  assign = get_genesys;
}

abbrev pub rush_rule : RuleMapping
rush_rule = fixed (word "rush" ∷ []) (λ catalog h. record h {
  rule = 5;
  lflist = index_or (pos 2) (catalog.find_index_by_alias (codes "rush"));
  duel_rule = 5;
  start_hand = 4;
})

abbrev pub rushpre_rule : RuleMapping
rushpre_rule = fixed (word "rushpre" ∷ []) (λ catalog h. record h {
  rule = 5;
  lflist = index_or (pos 2) (catalog.find_index_by_alias (codes "rush"));
  duel_rule = 4;
})

abbrev pub world_rule : RuleMapping
world_rule = fixed (word "world" ∷ []) (λ catalog h. record h {
  rule = 5;
  lflist = index_or (pos 5) (catalog.find_index_by_alias (codes "world"));
  duel_rule = 4;
})

abbrev pub pre_rule : RuleMapping
pre_rule = fixed (word "pre" ∷ []) (λ _ h. record h { rule = 5; duel_rule = 5; time_limit = 450 })

abbrev pub ocg_rule : RuleMapping
ocg_rule =
    fixed (word "ocg" ∷ [])
      (λ catalog h. record h { rule = 0; lflist = catalog.first_ocg_index; time_limit = 450 })

abbrev pub tcgpre_rule : RuleMapping
tcgpre_rule =
    fixed (word "tcgpre" ∷ []) (λ _ h. record h { rule = 1; duel_rule = 5; time_limit = 450 })

abbrev pub ocgpre_rule : RuleMapping
ocgpre_rule = fixed (word "ocgpre" ∷ []) (λ catalog h. record h {
  rule = 0;
  duel_rule = 5;
  lflist = catalog.first_ocg_index;
  time_limit = 450;
})

abbrev pub tcgart_rule : RuleMapping
tcgart_rule =
    fixed (word "tcgart" ∷ []) (λ _ h. record h { rule = 1; duel_rule = 5; time_limit = 450 })

abbrev pub ocgart_rule : RuleMapping
ocgart_rule = fixed (word "ocgart" ∷ []) (λ catalog h. record h {
  rule = 0;
  duel_rule = 5;
  lflist = catalog.first_ocg_index;
  time_limit = 450;
})

abbrev pub format_rule_mappings : List RuleMapping
format_rule_mappings =
    goat_rule ∷ gt_rule ∷ edison_rule ∷ ed_rule ∷ edm_rule ∷ tengu_rule ∷ md_rule ∷ jtp_rule
    ∷ jtp_2007_03_rule ∷ jm_rule ∷ genesys_rule ∷ rush_rule ∷ rushpre_rule ∷ world_rule ∷ pre_rule
    ∷ ocg_rule ∷ tcgpre_rule ∷ ocgpre_rule ∷ tcgart_rule ∷ ocgart_rule ∷ []
