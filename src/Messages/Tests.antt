-- ===== src/Messages/Tests.antt =====
-- Frames in chunks, and buffers that are not well-formed, read by the emitter of a socket.
use mathlib.Core.List.{flatten}
use edopro_server_ts.Prelude.{ℕ, ◌≡◌, ◌↔◌, refl, List, [], ◌∷◌, arith, some, none, true}
use edopro_server_ts.Messages.{
  MessageProcessor, new_processor, handle_all, read_all, player_info, join_game, process,
  is_message_ready,
}
use edopro_server_ts.Messages.Framing.{Message, events_of, handle_all_delivers}
use edopro_server_ts.Messages.Faults.{IsFatal, process_throws_iff, process_cuts_long}

-- A name of two bytes, then a wish to join.
abbrev greeting : List Message
greeting =
    record { command = player_info; body = 7 ∷ 8 ∷ [] }
    ∷ record { command = join_game; body = [] }
    ∷ []

abbrev pieces : List (List ℕ)
pieces = (3 ∷ []) ∷ (0 ∷ 16 ∷ 7 ∷ []) ∷ (8 ∷ 1 ∷ 0 ∷ 18 ∷ []) ∷ []

handle_all_delivers_example :
    (q : MessageProcessor) × (handle_all pieces new_processor ≡ read_all (events_of greeting) q)
    × (q.buffer ≡ [])
unfolding flatten
handle_all_delivers_example =
    handle_all_delivers pieces greeting (omega arith, (omega arith, tt)) refl

abbrev holding : List ℕ → MessageProcessor
holding bytes = record new_processor { buffer = bytes }

process_throws_iff_example : (process (holding (0 ∷ 128 ∷ [])) ≡ none) ↔ IsFatal (0 ∷ 128 ∷ [])
process_throws_iff_example = process_throws_iff (holding (0 ∷ 128 ∷ []))

-- A frame of 33,025 bytes, of which three have come.
process_cuts_long_example :
    (q : MessageProcessor) × (is_message_ready (holding (1 ∷ 129 ∷ 16 ∷ 5 ∷ [])) ≡ true)
    × (process (holding (1 ∷ 129 ∷ 16 ∷ 5 ∷ [])) ≡ some q)
    × (q.command ≡ some 16)
    × (q.body ≡ 5 ∷ [])
    × (q.buffer ≡ [])
process_cuts_long_example =
    process_cuts_long 1 129 16 (5 ∷ []) (holding (1 ∷ 129 ∷ 16 ∷ 5 ∷ [])) refl (omega arith)
      (omega arith)
