-- ===== src/ReservedDuel.antt =====
-- src/shared/reserved-duel/domain/Reservation.ts, ReservedDuelRepository.ts: the data of a duel that
-- is reserved ahead of time. Seats and card codes are naturals. `lobbyTimeoutSeconds`, a positive
-- finite number in the source, is a natural number of seconds here.
pub mod DeckLock
pub mod Session
mod Tests
use edopro_server_ts.Prelude.{ℕ, String, Option, Bool, List}

pub data ReservationMode : Type 0 where
  single match_mode : ReservationMode

pub data DeckLockKind : Type 0 where
  exact registered : DeckLockKind

pub record RequiredDeck : Type 0 where
  pub main : List ℕ
  pub extra : List ℕ
  pub side : List ℕ

pub record UserParticipant : Type 0 where
  pub seat : ℕ
  pub user_id : String
  pub required_deck : Option RequiredDeck

pub record WindbotParticipant : Type 0 where
  pub seat : ℕ
  pub bot_name : String

pub data ReservationParticipant : Type 0 where
  user : UserParticipant → ReservationParticipant
  windbot : WindbotParticipant → ReservationParticipant

pub record ReservationOptions : Type 0 where
  pub spectators : Bool
  pub listed : Bool
  pub reconnect : Bool
  pub deck_lock : DeckLockKind
  pub lobby_timeout_seconds : ℕ

pub record Reservation : Type 0 where
  pub id : String
  pub format : String
  pub mode : ReservationMode
  pub participants : List ReservationParticipant
  pub options : ReservationOptions

pub data AbandonReason : Type 0 where
  disconnect room_closed no_show bot_unavailable server_restart : AbandonReason

pub record ReservedDuelAbandon : Type 0 where
  pub seat : Option ℕ
  pub reason : AbandonReason
  -- `started?: boolean`
  pub started : Option Bool
