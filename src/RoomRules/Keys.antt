-- ===== src/RoomRules/Keys.antt =====
-- No option is accepted by two mappings of a tier: every text has a key, which the patterns that accept
-- it share, and the mappings of a tier have no key in common.
use edopro_server_ts.Prelude.{
  ◌≤◌, ◌≡◌, inl, inr, refl, sym, ap, ◌∙◌, subst, Bool, true, false, not, ◌&&◌, ◌||◌, List, [], ◌∷◌,
  ◌++◌, arith, length, all, any, filter, All, if◌then◌else◌, Bool-cases, and-eq-true_iff,
  Option-cases,
}
use edopro_server_ts.Prelude.Eq.{◌==◌, ==_iff, nat_eq}
use edopro_server_ts.Prelude.Texts.{text_eq, text_eqb_iff}
use edopro_server_ts.RoomRules.{
  Text, codes, text_eqb, is_digit, is_numbered, letter_eqb, Pattern, word, numbered, list_name,
  matches, lf_query, followed, RuleMapping, validate, rule_mappings, format_rule_mappings,
  priority_rule_mappings, is_some, or_else,
}
use edopro_server_ts.RoomRules.Room.{rule_mapping_tiers}

-- A text without the digits it ends with.
abbrev stem : Text → Text
stem [] = []
stem (c ∷ cs) = let rest = stem cs in if is_digit c && text_eqb rest [] then [] else c ∷ rest

-- It begins as `/^lf/i`.
abbrev is_lf : Text → Bool
is_lf [] = false
is_lf (_ ∷ []) = false
is_lf (a ∷ b ∷ _) = letter_eqb 108 a && letter_eqb 102 b

abbrev key : Text → Text
key o = if is_lf o then codes "lf" else stem o

abbrev pattern_key : Pattern → Text
pattern_key (word w) = key (codes w)
pattern_key (numbered w) = key (codes w)
pattern_key list_name = codes "lf"

stem-number : (ds : Text) → all is_digit ds ≡ true → stem ds ≡ []
stem-number [] h = refl
stem-number (d ∷ ds) h =
    let (first, rest) = (and-eq-true_iff (is_digit d) (all is_digit ds)).0 h in
    rw (stem-number ds rest, first) refl

stem-numbered : (w o : Text) → is_numbered w o ≡ true → stem o ≡ stem w
stem-numbered [] [] h = refl
stem-numbered [] (d ∷ ds) h = stem-number (d ∷ ds) h
stem-numbered (a ∷ w) [] h = cc
stem-numbered (a ∷ w) (b ∷ o) h =
    let (first, rest) = (and-eq-true_iff (a == b) (is_numbered w o)).0 h in
    let same : b ≡ a = sym ((==_iff a b).0 first) in rw (stem-numbered w o rest, same) refl

is_lf-numbered : (w o : Text) → is_numbered w o ≡ true → is_lf o ≡ is_lf w
is_lf-numbered [] [] h = refl
is_lf-numbered [] (d ∷ []) h = refl
is_lf-numbered [] (d ∷ e ∷ ds) h = ground (arith, h)
is_lf-numbered (a ∷ w) [] h = cc
is_lf-numbered (a ∷ []) (b ∷ []) h = refl
is_lf-numbered (a ∷ []) (b ∷ d ∷ o) h = ground (arith, h)
is_lf-numbered (a ∷ c ∷ w) (b ∷ []) h = absurd (ground (arith, h))
is_lf-numbered (a ∷ c ∷ w) (b ∷ d ∷ o) h =
    let (first, rest) = (and-eq-true_iff (a == b) ((c == d) && is_numbered w o)).0 h in
    let (second, _) = (and-eq-true_iff (c == d) (is_numbered w o)).0 rest in
    rw (sym ((==_iff a b).0 first), sym ((==_iff c d).0 second)) refl

followed-is_lf :
    (rest : Text) (o : Text) → is_some (followed (codes "lf" ++ rest) o) ≡ true → is_lf o ≡ true
followed-is_lf rest [] h = cc
followed-is_lf rest (a ∷ []) h = elim (Bool-cases (letter_eqb 108 a)) [
  | inl l ↦
      absurd (let g : is_some (followed (codes "lf" ++ rest) (a ∷ [])) ≡ false = rw l refl in cc)
  | inr l ↦
      absurd (let g : is_some (followed (codes "lf" ++ rest) (a ∷ [])) ≡ false = rw l refl in cc)
]
followed-is_lf rest (a ∷ b ∷ o) h = elim (Bool-cases (letter_eqb 108 a)) [
  | inl l ↦ elim (Bool-cases (letter_eqb 102 b)) [
    | inl f ↦ rw (l, f) refl
    | inr f ↦
        absurd (
          let g : is_some (followed (codes "lf" ++ rest) (a ∷ b ∷ o)) ≡ false = rw (l, f) refl in
          cc)
  ]
  | inr l ↦
      absurd (let g : is_some (followed (codes "lf" ++ rest) (a ∷ b ∷ o)) ≡ false = rw l refl in cc)
]

lf_query-is_lf : (o : Text) → is_some (lf_query o) ≡ true → is_lf o ≡ true
lf_query-is_lf o h = elim (Option-cases (followed (codes "lf") o)) [
  | inr (q, short) ↦ followed-is_lf [] o (ap is_some short)
  | inl none_short ↦
      followed-is_lf (codes "list") o
        (ap (λ t. is_some (or_else t (followed (codes "lflist") o))) (sym none_short) ∙ h)
]

matches-key : (p : Pattern) (o : Text) → matches o p ≡ true → pattern_key p ≡ key o
matches-key (word w) o h = ap key ((text_eqb_iff (codes w) o).0 h)
matches-key (numbered w) o h = rw (is_lf-numbered (codes w) o h, stem-numbered (codes w) o h) refl
matches-key list_name o h = rw (lf_query-is_lf o h) refl

abbrev has_key : Text → List Pattern → Bool
has_key k [] = false
has_key k (p ∷ ps) = (pattern_key p == k) || has_key k ps

-- The mappings share no key.
abbrev is_apart : List Pattern → List RuleMapping → Bool
is_apart [] tier = true
is_apart (p ∷ ps) tier =
    all (λ m. not (has_key (pattern_key p) m.patterns)) tier && is_apart ps tier

abbrev are_apart : List RuleMapping → Bool
are_apart [] = true
are_apart (m ∷ tier) = is_apart m.patterns tier && are_apart tier

any-has_key : (o : Text) (ps : List Pattern) → any (matches o) ps ≡ true → has_key (key o) ps ≡ true
any-has_key o [] h = cc
any-has_key o (p ∷ ps) h = elim (Bool-cases (matches o p)) [
  | inl accepts ↦ rw ((==_iff (pattern_key p) (key o)).1 (matches-key p o accepts)) refl
  | inr refuses ↦
      let rest : any (matches o) ps ≡ true = rw (sym h, refuses) refl in
      ground (arith, any-has_key o ps rest)
]

none_else :
    (o : Text) (tier : List RuleMapping)
    → all (λ m. not (has_key (key o) m.patterns)) tier ≡ true
    → filter (validate o) tier ≡ []
none_else o [] h = refl
none_else o (m ∷ tier) h =
    let (first, rest) =
      (and-eq-true_iff (not (has_key (key o) m.patterns))
          (all (λ n. not (has_key (key o) n.patterns)) tier)).0
        h in
    elim (Bool-cases (validate o m)) [
      | inl accepts ↦ let k = any-has_key o m.patterns accepts in absurd (ground (arith, k, first))
      | inr refuses ↦ rw refuses (none_else o tier rest)
    ]

others_apart :
    (o : Text) (ps : List Pattern) (tier : List RuleMapping)
    → any (matches o) ps ≡ true
    → is_apart ps tier ≡ true
    → all (λ m. not (has_key (key o) m.patterns)) tier ≡ true
others_apart o [] tier h apart = cc
others_apart o (p ∷ ps) tier h apart =
    let (first, rest) =
      (and-eq-true_iff (all (λ m. not (has_key (pattern_key p) m.patterns)) tier)
          (is_apart ps tier)).0
        apart in
    elim (Bool-cases (matches o p)) [
      | inl accepts ↦
          subst (λ k. all (λ m. not (has_key k m.patterns)) tier ≡ true) (matches-key p o accepts)
            first
      | inr refuses ↦ others_apart o ps tier (rw (sym h, refuses) refl) rest
    ]

at_most_one :
    (o : Text) (tier : List RuleMapping)
    → are_apart tier ≡ true
    → length (filter (validate o) tier) ≤ 1
at_most_one o [] apart = omega arith
at_most_one o (m ∷ tier) apart =
    let (first, rest) = (and-eq-true_iff (is_apart m.patterns tier) (are_apart tier)).0 apart in
    elim (Bool-cases (validate o m)) [
      | inl accepts ↦
          rw (accepts, none_else o tier (others_apart o m.patterns tier accepts first))
            (omega arith)
      | inr refuses ↦ rw refuses (at_most_one o tier rest)
    ]

-- Of each tier of rule mappings, at most one accepts an option.
pub one_rule_each :
    (option : Text) → All (λ tier. length (filter (validate option) tier) ≤ 1) rule_mapping_tiers
one_rule_each option = (
  at_most_one option rule_mappings refl,
  (
    at_most_one option format_rule_mappings refl,
    (at_most_one option priority_rule_mappings refl, tt),
  ),
)
