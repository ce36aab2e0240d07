-- ===== src/Rooms/Steps.antt =====
-- What happens to a YGOPro room, one event at a time, each of them handled by the state that the room
-- is in; and the rooms that come of it. The handlers run one after another. In the source a TO_OBSERVER,
-- a TO_DUEL or a leave that waits for the room's mutex behind a JOIN can take effect after a TRY_START,
-- which takes no mutex: such late effects are no events here.
use edopro_server_ts.Prelude.{ℕ, ◌≡◌, ◌≢◌, String, Option, Bool, count_if, nat_eqb}
use mathlib.Core.List.{Memᴰ}
use edopro_server_ts.Deck.{Deck}
use edopro_server_ts.Deck.Errors.{DeckError}
use edopro_server_ts.Rooms.{
  Room, waiting_state, rps_state, choosing_order_state, dueling_state, side_decking_state, clients,
}
use edopro_server_ts.Rooms.Clients.{YgoClient, Socket, PlayerCredential}
use edopro_server_ts.Rooms.Lobby.{set_duel_finished}
use edopro_server_ts.Rooms.Waiting.{
  Outcome, done, thrown, admit, handle_try_start, handle_to_observer, handle_to_duel,
  handle_update_deck, handle_not_ready,
}
use edopro_server_ts.Rooms.Reconnect.{Identity, handle_mid_duel_join, handle_express_reconnect}
use edopro_server_ts.Rooms.Phases.{handle_rps_choice, handle_turn_choice, handle_side_deck}
use edopro_server_ts.Rooms.Endings.{handle_win_condition, resolve}
use edopro_server_ts.Rooms.Leaving.{on_disconnect}

-- The room as a handler leaves it, an exception or not.
abbrev pub left_by : Outcome → Room
left_by (done room) = room
left_by (thrown room) = room

-- No client of the room is this object.
abbrev pub IsUnused : ℕ → Room → Type 0
IsUnused object room =
    count_if (λ (client : YgoClient). nat_eqb client.object object) (clients room) ≡ 0

-- An event and what its handler makes of the room. A player is a client of the room, as it stands.
pub data Step (first : ℕ) : Room → Room → Type 0 where
  join :
      {room : Room} (object : ℕ) (socket : Socket) (name : String) (credential : PlayerCredential)
      → room.room_state ≡ waiting_state
      → IsUnused object room
      → Step first room (admit object socket name credential room)
  try_start :
      {room : Room} (player : YgoClient)
      → room.room_state ≡ waiting_state
      → Memᴰ player (clients room)
      → Step first room (left_by (handle_try_start player room))
  to_observer :
      {room : Room} (player : YgoClient)
      → room.room_state ≡ waiting_state
      → Memᴰ player (clients room)
      → Step first room (handle_to_observer player room)
  to_duel :
      {room : Room} (player : YgoClient)
      → room.room_state ≡ waiting_state
      → Memᴰ player (clients room)
      → Step first room (handle_to_duel player room)
  update_deck :
      {room : Room} (validate : Deck → Option DeckError) (built : Option Deck) (player : YgoClient)
      → room.room_state ≡ waiting_state
      → Memᴰ player (clients room)
      → Step first room (left_by (handle_update_deck validate built player room))
  not_ready :
      {room : Room} (player : YgoClient)
      → room.room_state ≡ waiting_state
      → Memᴰ player (clients room)
      → Step first room (handle_not_ready player room)
  rejoin :
      {room : Room} (object : ℕ) (socket : Socket) (name : String) (identity : Identity)
      → room.room_state ≢ waiting_state
      → IsUnused object room
      → Step first room (handle_mid_duel_join object socket name identity room)
  token_reconnect :
      {room : Room} (player : YgoClient) (socket : Socket)
      → room.room_state ≢ waiting_state
      → Memᴰ player room.players
      → Step first room (handle_express_reconnect player socket room)
  rps_choice :
      {room : Room} (hand0 hand1 res : ℕ) (player : YgoClient)
      → room.room_state ≡ rps_state hand0 hand1
      → Memᴰ player (clients room)
      → Step first room (handle_rps_choice res player room)
  turn_choice :
      {room : Room} (turn : ℕ) (player : YgoClient)
      → room.room_state ≡ choosing_order_state
      → Memᴰ player (clients room)
      → Step first room (handle_turn_choice first turn player room)
  side_deck :
      {room : Room} (validate : Deck → Option DeckError) (is_side : Bool) (built : Option Deck)
      (player : YgoClient)
      → room.room_state ≡ side_decking_state
      → Memᴰ player (clients room)
      → Step first room (handle_side_deck validate is_side built player room)
  win :
      {room : Room} (side : ℕ)
      → room.room_state ≡ dueling_state
      → Step first room (handle_win_condition side room)
  engine_fails :
      {room : Room} → room.room_state ≡ dueling_state → Step first room (set_duel_finished room)
  abandon : {room : Room} (team : ℕ) → Step first room (resolve team room)
  hangs_up : {room : Room} (socket_id : ℕ) → Step first room (on_disconnect socket_id room)

pub data Reach (first : ℕ) (new : Room) : Room → Type 0 where
  opened : Reach first new new
  later : {a b : Room} → Reach first new a → Step first a b → Reach first new b
