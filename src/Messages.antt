-- ===== src/Messages.antt =====
-- src/shared/messages/MessageProcessor.ts and MessageEmitter.ts: how the bytes that a socket receives
-- become messages. A buffer is a list of bytes. `RangeError`, which a read past the end of a buffer
-- throws, is a failure with no value. What the emitter calls is a list of events, in order.
pub mod Framing
pub mod Faults
mod Tests
use edopro_server_ts.Prelude.{
  ℕ, zero, suc, ◌+◌, ◌-◌, Option, none, some, Bool, true, false, not, ◌&&◌, List, [], ◌∷◌, ◌++◌,
  ltb, leb, length, if◌then◌else◌,
}
use edopro_server_ts.Prelude.Eq.{◌==◌, nat_eq, contains}
use edopro_server_ts.Prelude.Bytes.{take, drop, read_u16}

-- The fields of `payload`; a field is `none` before the first message.
pub record MessageProcessor : Type 0 where
  pub buffer : List ℕ
  pub size : Option ℕ
  pub command : Option ℕ
  pub body : List ℕ
  pub raw : Option (List ℕ)
  pub previous_message : Option (List ℕ)
  pub previous_raw_message : Option (List ℕ)

abbrev pub new_processor : MessageProcessor
new_processor = record {
  buffer = [];
  size = none;
  command = none;
  body = [];
  raw = none;
  previous_message = none;
  previous_raw_message = none;
}

abbrev pub read : List ℕ → MessageProcessor → MessageProcessor
read chunk p = record p { buffer = p.buffer ++ chunk }

-- `readInt16LE` is signed: from 2 ^ 15 on, the size it gives is negative, and no more than any length.
unfoldable pub is_message_ready : MessageProcessor → Bool
is_message_ready p =
    if ltb (length p.buffer) 2
    then false
    else if leb 32768 (read_u16 p.buffer)
    then true
    else leb (read_u16 p.buffer) (length p.buffer - 2)

abbrev pub remember : MessageProcessor → MessageProcessor
remember p =
    if ltb 0 (length p.body)
    then record p { previous_message = some p.body; previous_raw_message = p.raw }
    else p

-- `process` once a message is ready: the read of the command throws on a buffer of two bytes.
abbrev pub process_ready : ℕ → List ℕ → MessageProcessor → Option MessageProcessor
process_ready size [] p = none
process_ready size (command ∷ _) p = some (record p {
  size = some size;
  command = some command;
  body = take (size + 2 - 3) (drop 3 p.buffer);
  raw = some (take (size + 2) p.buffer);
  buffer = drop (size + 2) p.buffer;
})

unfoldable pub process : MessageProcessor → Option MessageProcessor
unfolding is_message_ready
process p =
    if not (is_message_ready p)
    then some p
    else process_ready (read_u16 p.buffer) (drop 2 p.buffer) (remember p)

-- Commands.ts: the commands that the emitter reads before a client is in a room.
abbrev pub player_info : ℕ
player_info = 16

abbrev pub create_game : ℕ
create_game = 17

abbrev pub join_game : ℕ
join_game = 18

abbrev pub reconnect : ℕ
reconnect = 0xfd

abbrev pub matchmaking_commands : List ℕ
matchmaking_commands = 0xfb ∷ 0xfa ∷ 0xf9 ∷ 0xf5 ∷ 0xf4 ∷ []

-- A message is passed on as its command and its data. Before a game is created or joined the
-- listener for it is called.
pub data Event : Type 0 where
  emit : ℕ → List ℕ → Event
  create_game_listener : Event
  join_game_listener : Event

abbrev pub when : Bool → List Event → List Event
when test events = if test then events else []

-- The calls of `processMessage` for one message.
abbrev pub dispatch : ℕ → List ℕ → List Event
dispatch command body =
    when (command == player_info) (emit command body ∷ [])
    ++ (when (command == create_game) (create_game_listener ∷ emit command body ∷ [])
        ++ (when (command == join_game) (join_game_listener ∷ emit command body ∷ [])
            ++ (when (command == reconnect) (emit command body ∷ [])
                ++ when (contains command matchmaking_commands) (emit command body ∷ []))))

-- The events of the message that was processed last.
abbrev pub dispatch_last : MessageProcessor → List Event
dispatch_last p = elim p.command [ none ↦ [] | some command ↦ dispatch command p.body ]

-- How a call of `processMessage` ends: with the events it made, having read all messages that are
-- ready; by a `RangeError`; or, on fuel, without having ended.
pub data Outcome : Type 0 where
  read_all : List Event → MessageProcessor → Outcome
  range_error : List Event → Outcome
  out_of_fuel : Outcome

abbrev pub after : List Event → Outcome → Outcome
after events (read_all later p) = read_all (events ++ later) p
after events (range_error later) = range_error (events ++ later)
after events out_of_fuel = out_of_fuel

unfoldable pub process_message : ℕ → MessageProcessor → Outcome
unfolding process is_message_ready
process_message zero p = out_of_fuel
process_message (suc fuel) p = elim (is_message_ready p) [
  | false ↦ read_all [] p
  | true ↦ elim (process p) [
    | none ↦ range_error []
    | some q ↦ after (dispatch_last q) (process_message fuel q)
  ]
]

-- Each message takes two bytes at least, so as many rounds as the buffer has bytes are enough.
unfoldable pub handle_message : List ℕ → MessageProcessor → Outcome
unfolding process_message
handle_message chunk p = process_message (suc (length p.buffer + length chunk)) (read chunk p)

-- The chunks that a socket receives, one after the other.
abbrev pub and_then : Outcome → (MessageProcessor → Outcome) → Outcome
and_then (read_all events p) next = after events (next p)
and_then (range_error events) next = range_error events
and_then out_of_fuel next = out_of_fuel

unfoldable pub handle_all : List (List ℕ) → MessageProcessor → Outcome
unfolding handle_message
handle_all [] p = read_all [] p
handle_all (chunk ∷ chunks) p = and_then (handle_message chunk p) (handle_all chunks)
