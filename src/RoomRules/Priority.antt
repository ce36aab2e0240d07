-- ===== src/RoomRules/Priority.antt =====
-- The table `priorityRuleMappings` of src/ygopro/room/domain/RuleMappings.ts. A number that the option
-- gives is an argument of the `get` of its entry.
use edopro_server_ts.Prelude.{
  ℕ, ◌+◌, ◌*◌, ◌%◌, Option, none, some, ◌&&◌, List, [], ◌∷◌, ltb, leb, if◌then◌else◌,
}
use edopro_server_ts.Prelude.Eq.{◌==◌, nat_eq}
use edopro_server_ts.Prelude.Int.{ℤ, pos, negsuc}
use edopro_server_ts.RoomRules.Texts.{
  RuleMapping, fixed, word, numbered, list_name, match_mode, HostInfo, Catalog, Text,
  extract_number_from_command, lf_query, integer_of, is_missing, pred,
}

abbrev pub get_bo : Option ℕ → HostInfo → HostInfo
get_bo none h = record h { mode = match_mode; best_of = 3 }
get_bo (some n) h =
    if ltb n 1
    then record h { mode = match_mode; best_of = 3 }
    else if n % 2 == 0
    then record h { mode = match_mode; best_of = n + 1 }
    else record h { mode = match_mode; best_of = n }

abbrev pub get_lp : Option ℕ → HostInfo → HostInfo
get_lp none h = record h { start_lp = 8000 }
get_lp (some n) h =
    if leb n 0
    then record h { start_lp = 1 }
    else if leb 99999 n
    then record h { start_lp = 99999 }
    else record h { start_lp = n }

abbrev pub get_tm : Option ℕ → HostInfo → HostInfo
get_tm none h = record h { time_limit = 450 }
get_tm (some n) h =
    if leb 1 n && leb n 60
    then record h { time_limit = n * 60 }
    else if leb 999 n
    then record h { time_limit = 999 }
    else record h { time_limit = n }

abbrev pub get_mr : Option ℕ → HostInfo → HostInfo
get_mr none h = h
get_mr (some n) h = if ltb 0 n && leb n 5 then record h { duel_rule = n } else h

abbrev pub get_dr : Option ℕ → HostInfo → HostInfo
get_dr none h = record h { draw_count = 1 }
get_dr (some n) h =
    if ltb 35 n
    then record h { draw_count = 35 }
    else if leb n 0
    then record h { draw_count = 1 }
    else record h { draw_count = n }

abbrev pub get_st : Option ℕ → HostInfo → HostInfo
get_st none h = record h { start_hand = 5 }
get_st (some n) h =
    if ltb 40 n
    then record h { start_hand = 40 }
    else if leb n 0
    then record h { start_hand = 5 }
    else record h { start_hand = n }

abbrev pub lf_index : Catalog → Text → ℤ
lf_index catalog query = elim (integer_of query) [
  | some n ↦ pred n
  | none ↦
      if is_missing (catalog.find_index_by_alias query)
      then pos 0
      else catalog.find_index_by_alias query
]

abbrev pub get_lf : Catalog → Text → ℤ
get_lf catalog value = elim (lf_query value) [
  | none ↦ negsuc 0
  | some query ↦ lf_index catalog query
]

abbrev pub bo_rule : RuleMapping
bo_rule = record {
  patterns = numbered "bo" ∷ [];
  assign = λ _ value h. some (get_bo (extract_number_from_command value) h);
}

abbrev pub lp_rule : RuleMapping
lp_rule = record {
  patterns = numbered "lp" ∷ [];
  assign = λ _ value h. some (get_lp (extract_number_from_command value) h);
}

abbrev pub tm_rule : RuleMapping
tm_rule = record {
  patterns = numbered "tm" ∷ numbered "time" ∷ [];
  assign = λ _ value h. some (get_tm (extract_number_from_command value) h);
}

abbrev pub mr_rule : RuleMapping
mr_rule = record {
  patterns = numbered "mr" ∷ numbered "duelrule" ∷ [];
  assign = λ _ value h. some (get_mr (extract_number_from_command value) h);
}

abbrev pub ot_rule : RuleMapping
ot_rule = fixed (word "ot" ∷ word "tcg" ∷ []) (λ _ h. record h { rule = 5 })

abbrev pub otto_rule : RuleMapping
otto_rule =
    fixed (word "otto" ∷ []) (λ catalog h. record h { rule = 5; lflist = catalog.first_ocg_index })

abbrev pub toot_rule : RuleMapping
toot_rule =
    fixed (word "toot" ∷ word "tt" ∷ [])
      (λ catalog h. record h { rule = 5; lflist = catalog.newest_tcg_index })

abbrev pub ns_rule : RuleMapping
ns_rule = fixed (word "ns" ∷ word "noshuffle" ∷ []) (λ _ h. record h { no_shuffle_deck = 1 })

abbrev pub tcgsegoc_rule : RuleMapping
tcgsegoc_rule = fixed (word "tcgsegoc" ∷ []) (λ _ h. record h { tcg_segoc_nonpublic = 1 })

abbrev pub goat2005_rule : RuleMapping
goat2005_rule = fixed (word "goat2005" ∷ []) (λ _ h. record h { goat_2005 = 1 })

abbrev pub nc_rule : RuleMapping
nc_rule = fixed (word "nc" ∷ word "nocheck" ∷ []) (λ _ h. record h { no_check_deck = 1 })

abbrev pub dr_rule : RuleMapping
dr_rule = record {
  patterns = numbered "dr" ∷ numbered "draw" ∷ [];
  assign = λ _ value h. some (get_dr (extract_number_from_command value) h);
}

abbrev pub st_rule : RuleMapping
st_rule = record {
  patterns = numbered "st" ∷ numbered "start" ∷ [];
  assign = λ _ value h. some (get_st (extract_number_from_command value) h);
}

abbrev pub to_rule : RuleMapping
to_rule =
    fixed (word "to" ∷ word "tcgonly" ∷ word "tor" ∷ [])
      (λ catalog h. record h { rule = 1; lflist = catalog.newest_tcg_index })

abbrev pub lf_rule : RuleMapping
lf_rule = record {
  patterns = list_name ∷ [];
  assign = λ catalog value h. some (record h { lflist = get_lf catalog value });
}

abbrev pub nf_rule : RuleMapping
nf_rule = fixed (word "nf" ∷ word "nolflist" ∷ []) (λ _ h. record h { lflist = negsuc 0 })

abbrev pub oor_rule : RuleMapping
oor_rule =
    fixed (word "oor" ∷ word "oo" ∷ word "ocgonly" ∷ [])
      (λ catalog h. record h { rule = 0; lflist = catalog.first_ocg_index })

abbrev pub or_rule : RuleMapping
or_rule =
    fixed (word "or" ∷ []) (λ catalog h. record h { rule = 5; lflist = catalog.first_ocg_index })

abbrev pub tr_rule : RuleMapping
tr_rule =
    fixed (word "tr" ∷ []) (λ catalog h. record h { rule = 5; lflist = catalog.newest_tcg_index })

abbrev pub oomr_rule : RuleMapping
oomr_rule = fixed (word "oomr" ∷ []) (λ catalog h. record h {
  rule = 0;
  lflist = catalog.first_ocg_index;
  mode = match_mode;
  best_of = 3;
})

abbrev pub omr_rule : RuleMapping
omr_rule = fixed (word "omr" ∷ []) (λ catalog h. record h {
  rule = 5;
  lflist = catalog.first_ocg_index;
  mode = match_mode;
  best_of = 3;
})

abbrev pub tomr_rule : RuleMapping
tomr_rule = fixed (word "tomr" ∷ []) (λ catalog h. record h {
  rule = 1;
  lflist = catalog.newest_tcg_index;
  mode = match_mode;
  best_of = 3;
})

abbrev pub tmr_rule : RuleMapping
tmr_rule = fixed (word "tmr" ∷ []) (λ catalog h. record h {
  rule = 5;
  lflist = catalog.newest_tcg_index;
  mode = match_mode;
  best_of = 3;
})

abbrev pub priority_rule_mappings : List RuleMapping
priority_rule_mappings =
    bo_rule ∷ lp_rule ∷ tm_rule ∷ mr_rule ∷ ot_rule ∷ otto_rule ∷ toot_rule ∷ ns_rule
    ∷ tcgsegoc_rule ∷ goat2005_rule ∷ nc_rule ∷ dr_rule ∷ st_rule ∷ to_rule ∷ lf_rule ∷ nf_rule
    ∷ oor_rule ∷ or_rule ∷ tr_rule ∷ oomr_rule ∷ omr_rule ∷ tomr_rule ∷ tmr_rule ∷ []
