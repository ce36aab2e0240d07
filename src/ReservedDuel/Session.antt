-- ===== src/ReservedDuel/Session.antt =====
-- ReservedDuelSession.ts: the progress of a room against the reservation it was built from. The
-- injected recorder is a log of its calls, in order, at the end of the state.
pub mod Seats
pub mod Outcome
use edopro_server_ts.Prelude.{
  ℕ, ◌*◌, String, Option, none, some, Bool, true, false, not, List, [], ◌∷◌, ◌++◌, map, find?,
  if◌then◌else◌,
}
use edopro_server_ts.Prelude.Eq.{◌==◌, nat_eq, string_eq, contains}
use edopro_server_ts.ReservedDuel.{
  Reservation, RequiredDeck, UserParticipant, WindbotParticipant, ReservationParticipant, user,
  windbot, DeckLockKind, exact, registered, ReservationMode, single, match_mode,
  ReservedDuelAbandon,
}
use edopro_server_ts.ReservedDuel.DeckLock.{deck_honours_lock}

-- A call of the `ReservedDuelRecorder`.
pub data RecorderCall : Type 0 where
  started : String → String → RecorderCall
  abandoned : String → ReservedDuelAbandon → RecorderCall
  release : String → RecorderCall

pub record ReservedDuelSession : Type 0 where
  pub reservation : Reservation
  pub has_started : Bool
  pub has_game_over : Bool
  pub closed : Bool
  pub calls : List RecorderCall

abbrev pub new_session : Reservation → ReservedDuelSession
new_session reservation = record {
  reservation = reservation;
  has_started = false;
  has_game_over = false;
  closed = false;
  calls = [];
}

unfoldable pub mark_started : String → ReservedDuelSession → ReservedDuelSession
mark_started match_id s = if s.has_started then s else record {
  reservation = s.reservation;
  has_started = true;
  has_game_over = s.has_game_over;
  closed = s.closed;
  calls = s.calls ++ started s.reservation.id match_id ∷ [];
}

unfoldable pub mark_game_over : ReservedDuelSession → ReservedDuelSession
mark_game_over s = record {
  reservation = s.reservation;
  has_started = s.has_started;
  has_game_over = true;
  closed = s.closed;
  calls = s.calls;
}

-- `{ ...abandon, started: true }`
abbrev pub as_started : ReservedDuelAbandon → ReservedDuelAbandon
as_started a = record { seat = a.seat; reason = a.reason; started = some true }

unfoldable pub close : ReservedDuelAbandon → ReservedDuelSession → ReservedDuelSession
close abandon s = if s.closed then s else record {
  reservation = s.reservation;
  has_started = s.has_started;
  has_game_over = s.has_game_over;
  closed = true;
  calls =
      s.calls
      ++ ((if not s.has_game_over
            then abandoned s.reservation.id (if s.has_started then as_started abandon else abandon)
              ∷ []
            else [])
          ++ release s.reservation.id ∷ []);
}

abbrev pub users_of : List ReservationParticipant → List UserParticipant
users_of [] = []
users_of (user u ∷ ps) = u ∷ users_of ps
users_of (windbot b ∷ ps) = users_of ps

abbrev pub bots_of : List ReservationParticipant → List WindbotParticipant
bots_of [] = []
bots_of (user u ∷ ps) = bots_of ps
bots_of (windbot b ∷ ps) = b ∷ bots_of ps

-- The getters `users`, `bots`, `userIds`, `isSingle` and `lobbyTimeoutMs`.
abbrev pub users : Reservation → List UserParticipant
users r = users_of r.participants

abbrev pub bots : Reservation → List WindbotParticipant
bots r = bots_of r.participants

abbrev pub user_ids : Reservation → List String
user_ids r = map (λ (u : UserParticipant). u.user_id) (users r)

abbrev pub is_single : Reservation → Bool
is_single r = elim r.mode [ single ↦ true | match_mode ↦ false ]

abbrev pub lobby_timeout_ms : Reservation → ℕ
lobby_timeout_ms r = r.options.lobby_timeout_seconds * 1000

-- `?.seat ?? null`
abbrev pub seat_or_null : Option UserParticipant → Option ℕ
seat_or_null none = none
seat_or_null (some u) = some u.seat

-- `undefined` is the id of no user.
abbrev pub is_user : Option String → UserParticipant → Bool
is_user none u = false
is_user (some id) u = u.user_id == id

unfoldable pub seat_of_user : Reservation → Option String → Option ℕ
seat_of_user r id = seat_or_null (find? (is_user id) (users r))

unfoldable pub bot_seat : Reservation → Option ℕ
bot_seat r = elim (bots r) [ [] ↦ none | b ∷ _ ↦ some b.seat ]

-- The `requiredDeck` of the user on the seat, if there are any.
abbrev pub required_of : Option UserParticipant → Option RequiredDeck
required_of none = none
required_of (some u) = u.required_deck

pub accepts_deck : Reservation → ℕ → RequiredDeck → Bool
unfolding deck_honours_lock
accepts_deck r seat deck =
    elim (required_of (find? (λ (u : UserParticipant). u.seat == seat) (users r))) [
      | none ↦ true
      | some required ↦ deck_honours_lock r.options.deck_lock required deck
    ]

pub locks_ready_deck : Reservation → Bool
locks_ready_deck r = elim r.options.deck_lock [ exact ↦ true | registered ↦ false ]

abbrev pub is_missing : List ℕ → UserParticipant → Bool
is_missing seats u = not (contains u.seat seats)

unfoldable pub no_show_seat : Reservation → List ℕ → List ℕ → Option ℕ
no_show_seat r seated ready = elim (find? (is_missing seated) (users r)) [
  | some absent ↦ some absent.seat
  | none ↦ seat_or_null (find? (is_missing ready) (users r))
]
