-- ===== src/Matchmaking/Protocol.antt =====
-- src/ygopro/matchmaking/protocol/matchmaking-protocol.ts: the bodies that clients send, and the frames
-- that the server builds. A buffer is a list of bytes. Node's UTF-8 codec is a parameter. A write that
-- throws a `RangeError`, the number being too large for its width, is `none`.
pub mod Enter
pub mod Truncate
mod Tests
use edopro_server_ts.Prelude.{
  ℕ, zero, suc, ◌+◌, ◌-◌, ◌%◌, ◌^◌, String, Option, none, some, Bool, true, false, not, ◌&&◌, ◌||◌,
  List, [], ◌∷◌, ◌++◌, ltb, leb, length, if◌then◌else◌,
}
use edopro_server_ts.Prelude.Eq.{◌==◌, nat_eq}
use edopro_server_ts.Prelude.Bytes.{take, drop, read_u16, read_u32, u16le, u32le}
use edopro_server_ts.Matchmaking.{Format, tcg, jtp, edison, Mode, ranked, OpponentType, human, bot}

-- ParticipantChannel.ts
pub data MatchmakingStatusState : Type 0 where
  searching cancelled rejected replaced authenticated : MatchmakingStatusState

pub data RejectionReason : Type 0 where
  invalid_ticket not_authenticated already_authenticated unknown_format unsupported_mode :
      RejectionReason
  malformed_frame rate_limited replaced_by_new_connection missing_player_info banned :
      RejectionReason
  internal_error cancel_too_late already_queued version_mismatch unknown_match : RejectionReason
  declined accept_timeout : RejectionReason

pub data ParseResult (A : Type 0) : Type 0 where
  ok : A → ParseResult A
  refused : RejectionReason → ParseResult A

abbrev pub max_ticket_bytes : ℕ
max_ticket_bytes = 64

abbrev pub max_opponent_name_bytes : ℕ
max_opponent_name_bytes = 32

abbrev pub max_match_id_bytes : ℕ
max_match_id_bytes = 64

abbrev pub enter_body_length : ℕ
enter_body_length = 4

abbrev pub enter_body_length_with_fallback : ℕ
enter_body_length_with_fallback = 8

pub record CtosEnter : Type 0 where
  pub format : Format
  pub mode : Mode
  pub client_version : ℕ
  pub bot_fallback_after_ms : Option ℕ
  pub supports_accept_step : Option Bool

abbrev pub format_by_code : ℕ → Option Format
format_by_code code =
    if code == 0
    then some tcg
    else if code == 1
    then some jtp
    else if code == 2
    then some edison
    else none

abbrev pub mode_by_code : ℕ → Option Mode
mode_by_code code = if code == 0 then some ranked else none

-- `readUInt8(i)`, not called past the end.
abbrev pub byte_at : ℕ → List ℕ → ℕ
byte_at i [] = 0
byte_at zero (b ∷ _) = b
byte_at (suc i) (_ ∷ bs) = byte_at i bs

unfoldable pub parse_ctos_auth : (List ℕ → String) → List ℕ → ParseResult String
parse_ctos_auth decode [] = refused malformed_frame
parse_ctos_auth decode (ticket_len ∷ rest) =
    if ltb max_ticket_bytes ticket_len || not (length rest == ticket_len)
    then refused malformed_frame
    else ok (decode (take ticket_len rest))

abbrev pub has_accept_step : List ℕ → Bool
has_accept_step body =
    length body == enter_body_length + 1 || length body == enter_body_length_with_fallback + 1

abbrev pub options_length : List ℕ → ℕ
options_length body = length body - (if has_accept_step body then 1 else 0)

-- `parseCtosEnter` once the format and the mode are known.
abbrev pub parse_options : Format → Mode → List ℕ → ParseResult CtosEnter
parse_options format mode body =
    let fallback =
      if options_length body == enter_body_length_with_fallback
      then some (read_u32 (drop 4 body))
      else none in
    let accept_step = byte_at (options_length body) body in
    if has_accept_step body && ltb 1 accept_step
    then refused malformed_frame
    else ok (record {
      format = format;
      mode = mode;
      client_version = read_u16 (drop 2 body);
      bot_fallback_after_ms = fallback;
      supports_accept_step = if has_accept_step body then some (accept_step == 1) else none;
    })

unfoldable pub parse_ctos_enter : List ℕ → ParseResult CtosEnter
parse_ctos_enter body =
    if not (options_length body == enter_body_length)
      && not (options_length body == enter_body_length_with_fallback)
    then refused malformed_frame
    else elim (format_by_code (byte_at 0 body)) [
      | none ↦ refused unknown_format
      | some format ↦ elim (mode_by_code (byte_at 1 body)) [
        | none ↦ refused unsupported_mode
        | some mode ↦ parse_options format mode body
      ]
    ]

unfoldable pub parse_ctos_match_response : (List ℕ → String) → List ℕ → ParseResult String
parse_ctos_match_response decode [] = refused malformed_frame
parse_ctos_match_response decode (match_id_len ∷ rest) =
    if match_id_len == 0
      || (ltb max_match_id_bytes match_id_len || not (length rest == match_id_len))
    then refused malformed_frame
    else ok (decode rest)

unfoldable pub parse_ctos_cancel : List ℕ → ParseResult (Unit {0})
parse_ctos_cancel [] = ok tt
parse_ctos_cancel (_ ∷ _) = refused malformed_frame

abbrev pub state_to_code : MatchmakingStatusState → ℕ
state_to_code searching = 0
state_to_code cancelled = 1
state_to_code rejected = 2
state_to_code replaced = 3
state_to_code authenticated = 4

-- `none` is the wire's "no reason".
abbrev pub reason_to_code : Option RejectionReason → ℕ
reason_to_code none = 0
reason_to_code (some invalid_ticket) = 1
reason_to_code (some not_authenticated) = 2
reason_to_code (some already_authenticated) = 3
reason_to_code (some unknown_format) = 4
reason_to_code (some unsupported_mode) = 5
reason_to_code (some malformed_frame) = 6
reason_to_code (some rate_limited) = 7
reason_to_code (some replaced_by_new_connection) = 8
reason_to_code (some missing_player_info) = 9
reason_to_code (some banned) = 10
reason_to_code (some internal_error) = 11
reason_to_code (some cancel_too_late) = 12
reason_to_code (some already_queued) = 13
reason_to_code (some version_mismatch) = 14
reason_to_code (some unknown_match) = 15
reason_to_code (some declined) = 16
reason_to_code (some accept_timeout) = 17

abbrev pub opponent_type_to_code : OpponentType → ℕ
opponent_type_to_code human = 0
opponent_type_to_code bot = 1

abbrev pub write_u16 : ℕ → Option (List ℕ)
write_u16 n = if ltb n 65536 then some (u16le n) else none

abbrev pub write_u32 : ℕ → Option (List ℕ)
write_u32 n = if ltb n 4294967296 then some (u32le n) else none

unfoldable pub build_frame : ℕ → List ℕ → Option (List ℕ)
build_frame opcode body = elim (write_u16 (suc (length body))) [
  | none ↦ none
  | some size ↦ some (size ++ opcode ∷ body)
]

unfoldable pub build_stoc_matchmaking_status_frame :
    MatchmakingStatusState → ℕ → Option RejectionReason → Option (List ℕ)
unfolding build_frame
build_stoc_matchmaking_status_frame state waited_ms reason = elim (write_u32 waited_ms) [
  | none ↦ none
  | some waited ↦ build_frame 0xf8 (state_to_code state ∷ waited ++ reason_to_code reason ∷ [])
]

-- `(b & 0xc0) === 0x80` of a byte.
abbrev pub is_continuation : ℕ → Bool
is_continuation b = leb 128 b && ltb b 192

-- The loop of `truncateUtf8`.
pub cut_point : List ℕ → ℕ → ℕ
cut_point bytes zero = 0
cut_point bytes (suc end) =
    if is_continuation (byte_at (suc end) bytes) then cut_point bytes end else suc end

unfoldable pub truncate_utf8 : List ℕ → ℕ → List ℕ
unfolding cut_point
truncate_utf8 bytes max_bytes =
    if leb (length bytes) max_bytes then bytes else take (cut_point bytes max_bytes) bytes

pub record MatchmakingFoundNotice : Type 0 where
  pub opponent_type : OpponentType
  pub rated : Bool
  pub room_id : ℕ
  pub match_id : String
  pub opponent_name : Option String

abbrev pub name_bytes : (String → List ℕ) → Option String → List ℕ
unfolding truncate_utf8
name_bytes encode none = []
name_bytes encode (some name) = truncate_utf8 (encode name) max_opponent_name_bytes

-- `Buffer.from([n])` keeps the low byte.
abbrev pub with_length : List ℕ → List ℕ
with_length bytes = length bytes % 256 ∷ bytes

unfoldable pub build_stoc_matchmaking_found_frame :
    (String → List ℕ) → MatchmakingFoundNotice → Option (List ℕ)
unfolding build_frame name_bytes
build_stoc_matchmaking_found_frame encode notice = elim (write_u16 notice.room_id) [
  | none ↦ none
  | some room_id ↦ build_frame 0xf7 (
      opponent_type_to_code notice.opponent_type ∷ (if notice.rated then 1 else 0) ∷ room_id
      ++ (with_length (encode notice.match_id)
          ++ with_length (name_bytes encode notice.opponent_name)))
]

unfoldable pub build_stoc_matchmaking_proposed_frame :
    (String → List ℕ) → String → ℕ → Option (List ℕ)
unfolding build_frame
build_stoc_matchmaking_proposed_frame encode match_id accept_within_ms =
    elim (write_u32 accept_within_ms) [
      | none ↦ none
      | some within ↦ build_frame 0xef (with_length (encode match_id) ++ within)
    ]
