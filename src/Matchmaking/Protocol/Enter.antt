-- ===== src/Matchmaking/Protocol/Enter.antt =====
-- The layout of an ENTER body, as the protocol's header documents it, against its parser.
use edopro_server_ts.Prelude.{
  ℕ, zero, suc, ◌+◌, ◌*◌, ◌<◌, ◌≡◌, ◌↔◌, Option-cases, refl, sym, ap, ◌∙◌, subst, Option, none,
  some, Bool, true, false, not, ◌&&◌, List, [], ◌∷◌, ◌++◌, arith, Bool-cases, inl, inr,
}
use edopro_server_ts.Prelude.Eq.{◌==◌, nat_eq}
use edopro_server_ts.Prelude.Bytes.{read_u32, u16le, u32le, IsBytes, u16le_bytes, u32le_bytes}
use edopro_server_ts.Matchmaking.{Format, tcg, jtp, edison, Mode, ranked}
use edopro_server_ts.Matchmaking.Protocol.{
  CtosEnter, ok, refused, malformed_frame, unknown_format, unsupported_mode, parse_ctos_enter,
  parse_options, options_length, format_by_code, mode_by_code,
}

abbrev pub format_code : Format → ℕ
format_code tcg = 0
format_code jtp = 1
format_code edison = 2

abbrev pub fallback_bytes : Option ℕ → List ℕ
fallback_bytes none = []
fallback_bytes (some ms) = u32le ms

abbrev pub accept_step_bytes : Option Bool → List ℕ
accept_step_bytes none = []
accept_step_bytes (some true) = 1 ∷ []
accept_step_bytes (some false) = 0 ∷ []

-- [format:u8][mode:u8][clientVersion:u16 LE][botFallbackAfterMs:u32 LE optional][acceptStep:u8 optional]
abbrev pub enter_body : CtosEnter → List ℕ
enter_body e =
    format_code e.format ∷ 0 ∷ u16le e.client_version
    ++ (fallback_bytes e.bot_fallback_after_ms ++ accept_step_bytes e.supports_accept_step)

abbrev pub FitsDelay : Option ℕ → Type 0
FitsDelay none = Unit
FitsDelay (some ms) = ms < 4294967296

abbrev pub IsEncodable : CtosEnter → Type 0
IsEncodable e = (e.client_version < 65536) × FitsDelay e.bot_fallback_after_ms

format_by_code_lem : (f : Format) → format_by_code (format_code f) ≡ some f
format_by_code_lem tcg = refl
format_by_code_lem jtp = refl
format_by_code_lem edison = refl

-- The entry that stands for the fields.
abbrev entry : Format → ℕ → Option ℕ → Option Bool → CtosEnter
entry f version fallback accept = record {
  format = f;
  mode = ranked;
  client_version = version;
  bot_fallback_after_ms = fallback;
  supports_accept_step = accept;
}

abbrev Decodes : CtosEnter → Type 0
Decodes e = IsEncodable e → parse_ctos_enter (enter_body e) ≡ ok e

entry-Decodes :
    (f : Format) (version : ℕ) (fallback : Option ℕ) (accept : Option Bool)
    → Decodes (entry f version fallback accept)
unfolding parse_ctos_enter
entry-Decodes f version none none h = rw (format_by_code_lem f) (ground arith)
entry-Decodes f version none (some true) h = rw (format_by_code_lem f) (ground arith)
entry-Decodes f version none (some false) h = rw (format_by_code_lem f) (ground arith)
entry-Decodes f version (some ms) none h = rw (format_by_code_lem f) (ground arith)
entry-Decodes f version (some ms) (some true) h = rw (format_by_code_lem f) (ground arith)
entry-Decodes f version (some ms) (some false) h = rw (format_by_code_lem f) (ground arith)

enter-Decodes : (e : CtosEnter) → Decodes e
enter-Decodes e = go e.mode e refl
  where
    go : (m : Mode) (e : CtosEnter) → e.mode ≡ m → Decodes e
    go ranked e same =
        let whole : entry e.format e.client_version e.bot_fallback_after_ms e.supports_accept_step
            ≡ e =
          ap (λ m. record e { mode = m }) (sym same) in
        subst Decodes whole
          (entry-Decodes e.format e.client_version e.bot_fallback_after_ms e.supports_accept_step)

-- What a body of each accepted length stands for, once its format is known.
abbrev Encodes : List ℕ → Type 0
Encodes body =
    (e : CtosEnter)
    → parse_ctos_enter body ≡ ok e
    → IsBytes body
    → (body ≡ enter_body e) × IsEncodable e

format_of_code : (c : ℕ) (f : Format) → format_by_code c ≡ some f → c ≡ format_code f
format_of_code c tcg h = ground (arith, h)
format_of_code c jtp h = ground (arith, h)
format_of_code c edison h = ground (arith, h)

mode_of_code : (c : ℕ) (m : Mode) → mode_by_code c ≡ some m → c ≡ 0
mode_of_code c m h = ground (arith, h)

-- A body that parses begins with the code of a format and that of a mode.
parsed :
    (a b : ℕ) (rest : List ℕ) (e : CtosEnter)
    → parse_ctos_enter (a ∷ b ∷ rest) ≡ ok e
    → (f : Format) × (a ≡ format_code f) × (b ≡ 0) × (parse_options f ranked (a ∷ b ∷ rest) ≡ ok e)
unfolding parse_ctos_enter
parsed a b rest e h =
    elim (Bool-cases
      (not (options_length (a ∷ b ∷ rest) == 4) && not (options_length (a ∷ b ∷ rest) == 8))) [
        | inl bad ↦
            let r : parse_ctos_enter (a ∷ b ∷ rest) ≡ refused malformed_frame =
              rw (bad, parse_ctos_enter) refl in
            cc
        | inr fine ↦ elim (Option-cases (format_by_code a)) [
          | inl unknown ↦
              let r : parse_ctos_enter (a ∷ b ∷ rest) ≡ refused unknown_format =
                rw (fine, unknown, parse_ctos_enter) refl in
              cc
          | inr (f, known) ↦ elim (Option-cases (mode_by_code b)) [
            | inl unsupported ↦
                let r : parse_ctos_enter (a ∷ b ∷ rest) ≡ refused unsupported_mode =
                  rw (fine, known, unsupported, parse_ctos_enter) refl in
                cc
            | inr (m, mode) ↦
                let r : parse_ctos_enter (a ∷ b ∷ rest) ≡ parse_options f m (a ∷ b ∷ rest) =
                  rw (fine, known, mode, parse_ctos_enter) refl in
                (f, format_of_code a f known, mode_of_code b m mode, ranked_options f m (sym r ∙ h))
          ]
        ]
      ]
  where
    ranked_options :
        (f : Format) (m : Mode)
        → parse_options f m (a ∷ b ∷ rest) ≡ ok e
        → parse_options f ranked (a ∷ b ∷ rest) ≡ ok e
    ranked_options f ranked known = known

-- The body lays out the entry.
abbrev LaysOut : List ℕ → CtosEnter → Type 0
LaysOut body e = (body ≡ enter_body e) × IsEncodable e

version-LaysOut :
    (f : Format) (c d : ℕ) (accept : Option Bool)
    → c < 256
    → d < 256
    → LaysOut
        (format_code f ∷ 0 ∷ c ∷ d ∷ accept_step_bytes accept)
        (entry f (c + 256 * d) none accept)
version-LaysOut f c d accept hc hd = (
  ap (λ xs. format_code f ∷ 0 ∷ xs ++ accept_step_bytes accept) (sym (u16le_bytes c d hc hd)),
  (omega (arith, hc, hd), tt),
)

fallback-LaysOut :
    (f : Format) (c d w x y z : ℕ) (accept : Option Bool)
    → c < 256
    → d < 256
    → IsBytes (w ∷ x ∷ y ∷ z ∷ [])
    → LaysOut
        (format_code f ∷ 0 ∷ c ∷ d ∷ w ∷ x ∷ y ∷ z ∷ accept_step_bytes accept)
        (entry f (c + 256 * d) (some (read_u32 (w ∷ x ∷ y ∷ z ∷ []))) accept)
fallback-LaysOut f c d w x y z accept hc hd (hw, (hx, (hy, (hz, _)))) = (
  ap (λ xs. format_code f ∷ 0 ∷ xs)
      (ap (λ xs. xs ++ w ∷ x ∷ y ∷ z ∷ accept_step_bytes accept) (sym (u16le_bytes c d hc hd))
        ∙ ap (λ xs. u16le (c + 256 * d) ++ (xs ++ accept_step_bytes accept))
            (sym (u32le_bytes w x y z hw hx hy hz))),
  (omega (arith, hc, hd), omega (arith, hw, hx, hy, hz)),
)

LaysOut-paths : {xs ys : List ℕ} {d e : CtosEnter} → xs ≡ ys → d ≡ e → LaysOut xs d → LaysOut ys e
LaysOut-paths {xs} {ys} {d} {e} layout same h =
    subst (LaysOut ys) same (subst (λ zs. LaysOut zs d) layout h)

-- The accept step of a body that is not refused.
version_accept :
    (f : Format) (a b c d s : ℕ) (e : CtosEnter)
    → parse_options f ranked (a ∷ b ∷ c ∷ d ∷ s ∷ []) ≡ ok e
    → (accept : Bool) × (accept_step_bytes (some accept) ≡ s ∷ [])
      × (entry f (c + 256 * d) none (some accept) ≡ e)
version_accept f a b c d zero e h = (false, refl, cc)
version_accept f a b c d (suc zero) e h = (true, refl, cc)
version_accept f a b c d (suc (suc s)) e h = absurd (ground (arith, h))

fallback_accept :
    (f : Format) (a b c d w x y z s : ℕ) (e : CtosEnter)
    → parse_options f ranked (a ∷ b ∷ c ∷ d ∷ w ∷ x ∷ y ∷ z ∷ s ∷ []) ≡ ok e
    → (accept : Bool) × (accept_step_bytes (some accept) ≡ s ∷ [])
      × (entry f (c + 256 * d) (some (read_u32 (w ∷ x ∷ y ∷ z ∷ []))) (some accept) ≡ e)
fallback_accept f a b c d w x y z zero e h = (false, refl, cc)
fallback_accept f a b c d w x y z (suc zero) e h = (true, refl, cc)
fallback_accept f a b c d w x y z (suc (suc s)) e h = absurd (ground (arith, h))

enter_body_of :
    (body : List ℕ) (e : CtosEnter) → parse_ctos_enter body ≡ ok e → IsBytes body → LaysOut body e
unfolding parse_ctos_enter
enter_body_of [] e h bytes = cc
enter_body_of (a ∷ []) e h bytes = cc
enter_body_of (a ∷ b ∷ []) e h bytes = cc
enter_body_of (a ∷ b ∷ c ∷ []) e h bytes = cc
enter_body_of (a ∷ b ∷ c ∷ d ∷ []) e h (_, (_, (hc, (hd, _)))) =
    let (f, code, mode, options) = parsed a b (c ∷ d ∷ []) e h in
    let layout : format_code f ∷ 0 ∷ c ∷ d ∷ [] ≡ a ∷ b ∷ c ∷ d ∷ [] = cc in
    let same : entry f (c + 256 * d) none none ≡ e = cc in
    LaysOut-paths layout same (version-LaysOut f c d none hc hd)
enter_body_of (a ∷ b ∷ c ∷ d ∷ s ∷ []) e h (_, (_, (hc, (hd, _)))) =
    let (f, code, mode, options) = parsed a b (c ∷ d ∷ s ∷ []) e h in
    let (accept, byte, same) = version_accept f a b c d s e options in
    let layout : format_code f ∷ 0 ∷ c ∷ d ∷ accept_step_bytes (some accept)
        ≡ a ∷ b ∷ c ∷ d ∷ s ∷ [] =
      cc in
    LaysOut-paths layout same (version-LaysOut f c d (some accept) hc hd)
enter_body_of (a ∷ b ∷ c ∷ d ∷ w ∷ x ∷ []) e h bytes = cc
enter_body_of (a ∷ b ∷ c ∷ d ∷ w ∷ x ∷ y ∷ []) e h bytes = cc
enter_body_of (a ∷ b ∷ c ∷ d ∷ w ∷ x ∷ y ∷ z ∷ []) e h (_, (_, (hc, (hd, four)))) =
    let (f, code, mode, options) = parsed a b (c ∷ d ∷ w ∷ x ∷ y ∷ z ∷ []) e h in
    let layout : format_code f ∷ 0 ∷ c ∷ d ∷ w ∷ x ∷ y ∷ z ∷ []
        ≡ a ∷ b ∷ c ∷ d ∷ w ∷ x ∷ y ∷ z ∷ [] =
      cc in
    let same : entry f (c + 256 * d) (some (read_u32 (w ∷ x ∷ y ∷ z ∷ []))) none ≡ e = cc in
    LaysOut-paths layout same (fallback-LaysOut f c d w x y z none hc hd four)
enter_body_of (a ∷ b ∷ c ∷ d ∷ w ∷ x ∷ y ∷ z ∷ s ∷ []) e h
      (_, (_, (hc, (hd, (hw, (hx, (hy, (hz, _)))))))) =
    let (f, code, mode, options) = parsed a b (c ∷ d ∷ w ∷ x ∷ y ∷ z ∷ s ∷ []) e h in
    let (accept, byte, same) = fallback_accept f a b c d w x y z s e options in
    let layout : format_code f ∷ 0 ∷ c ∷ d ∷ w ∷ x ∷ y ∷ z ∷ accept_step_bytes (some accept)
        ≡ a ∷ b ∷ c ∷ d ∷ w ∷ x ∷ y ∷ z ∷ s ∷ [] =
      cc in
    LaysOut-paths layout same
      (fallback-LaysOut f c d w x y z (some accept) hc hd (hw, (hx, (hy, (hz, tt)))))
enter_body_of (a ∷ b ∷ c ∷ d ∷ w ∷ x ∷ y ∷ z ∷ s ∷ t ∷ rest) e h bytes = absurd (ground (arith, h))

-- A body of bytes parses as an entry exactly when it is the layout of that entry, whose numbers then
-- fit into their fields.
pub parse_ctos_enter_iff :
    (body : List ℕ) (e : CtosEnter)
    → IsBytes body
    → (parse_ctos_enter body ≡ ok e) ↔ ((body ≡ enter_body e) × IsEncodable e)
parse_ctos_enter_iff body e bytes = (
  λ h. enter_body_of body e h bytes,
  λ (layout, fits). ap parse_ctos_enter layout ∙ enter-Decodes e fits,
)
