-- ===== src/Matchmaking/Protocol/Tests.antt =====
-- An ENTER body and a name in UTF-8.
use edopro_server_ts.Prelude.{
  ◌≡◌, ◌≤◌, ◌-◌, ◌↔◌, ◌⊎◌, refl, List, [], ◌∷◌, ◌++◌, arith, some, none, true, length,
}
use edopro_server_ts.Matchmaking.{jtp, ranked}
use edopro_server_ts.Matchmaking.Protocol.{CtosEnter, ok, parse_ctos_enter, truncate_utf8}
use edopro_server_ts.Matchmaking.Protocol.Enter.{enter_body, IsEncodable, parse_ctos_enter_iff}
use edopro_server_ts.Matchmaking.Protocol.Truncate.{
  Character, text_bytes, NoRoom, truncate_utf8_keeps,
}

abbrev entering : CtosEnter
entering = record {
  format = jtp;
  mode = ranked;
  client_version = 0x1362;
  bot_fallback_after_ms = none;
  supports_accept_step = some true;
}

parse_ctos_enter_iff_example :
    (parse_ctos_enter (1 ∷ 0 ∷ 98 ∷ 19 ∷ 1 ∷ []) ≡ ok entering)
    ↔ ((1 ∷ 0 ∷ 98 ∷ 19 ∷ 1 ∷ [] ≡ enter_body entering) × IsEncodable entering)
parse_ctos_enter_iff_example =
    parse_ctos_enter_iff (1 ∷ 0 ∷ 98 ∷ 19 ∷ 1 ∷ []) entering
      (omega arith, (omega arith, (omega arith, (omega arith, (omega arith, tt)))))

-- `aé` in UTF-8.
abbrev accented : List Character
accented = record { lead = 97; more = [] } ∷ record { lead = 195; more = 169 ∷ [] } ∷ []

truncate_utf8_keeps_example :
    (kept : List Character) × (dropped : List Character) × (accented ≡ kept ++ dropped)
    × (truncate_utf8 (97 ∷ 195 ∷ 169 ∷ []) 2 ≡ text_bytes kept)
    × (length (text_bytes kept) ≤ 2)
    × ((dropped ≡ []) ⊎ NoRoom (2 - length (text_bytes kept)) dropped)
truncate_utf8_keeps_example = truncate_utf8_keeps accented 2 ((refl, tt), ((refl, (refl, tt)), tt))
