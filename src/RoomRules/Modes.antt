-- ===== src/RoomRules/Modes.antt =====
-- The table `ruleMappings` of src/ygopro/room/domain/RuleMappings.ts.
use edopro_server_ts.Prelude.{List, [], ◌∷◌}
use edopro_server_ts.RoomRules.Texts.{RuleMapping, fixed, word, match_mode, tag_mode}

abbrev pub m_rule : RuleMapping
m_rule =
    fixed (word "m" ∷ word "match" ∷ [])
      (λ _ h. record h { mode = match_mode; start_lp = 8000; best_of = 3 })

abbrev pub t_rule : RuleMapping
t_rule =
    fixed (word "t" ∷ word "tag" ∷ [])
      (λ _ h. record h { mode = tag_mode; start_lp = 16000; best_of = 1 })

abbrev pub rule_mappings : List RuleMapping
rule_mappings = m_rule ∷ t_rule ∷ []
