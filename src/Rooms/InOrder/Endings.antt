-- ===== src/Rooms/InOrder/Endings.antt =====
-- Duels and matches that end keep a room in order.
use edopro_server_ts.Prelude.{
  ℕ, ◌≡◌, refl, inl, Option, none, some, Bool, true, false, not, ◌||◌, map, find?, nat_eqb,
  if◌then◌else◌,
}
use edopro_server_ts.ReservedDuel.{ReservedDuelAbandon}
use edopro_server_ts.ReservedDuel.Session.{ReservedDuelSession, mark_game_over, close}
use edopro_server_ts.Rooms.{Room, dueling_state, side_decking_state, side_decking_label}
use edopro_server_ts.Rooms.Clients.{YgoClient, not_ready}
use edopro_server_ts.Rooms.Duels.{Duel}
use edopro_server_ts.Rooms.WellSeated.{KeepsPlace, players-keep}
use edopro_server_ts.Rooms.Lobby.{side_decking, waiting, set_duel_finished, is_between_duels}
use edopro_server_ts.Rooms.Endings.{
  handle_win_condition, determine_next_phase, process_duel_end, assign_side_deck_choice, chosen,
  is_loser, finalize, is_match_finished, to_ingame_position, map_some, test_some, closed_by_server,
  resolve, has_played, disconnected, match_forfeit, other_team,
}
use edopro_server_ts.Rooms.InOrder.{
  InOrder, BothTeams, HasTeamSeats, SameOrder-InOrder, enter-InOrder, players-kept-InOrder,
}
use edopro_server_ts.Rooms.InOrder.Lobby.{either-InOrder}
use edopro_server_ts.Rooms.InOrder.Phases.{both_past_lobby}

-- A reservation keeps its participants through its session.
session-InOrder :
    (f : ReservedDuelSession → ReservedDuelSession)
    → ((s : ReservedDuelSession) → (f s).reservation ≡ s.reservation)
    → (room : Room) → InOrder room
    → InOrder (record room { reserved_duel = map_some f room.reserved_duel })
session-InOrder f same room o = record {
  one_each = o.one_each;
  well = o.well;
  coherent = o.coherent;
  both = o.both;
  reserved = seats room.reserved_duel o.reserved;
}
  where
    seats : (s : Option ReservedDuelSession) → HasTeamSeats s → HasTeamSeats (map_some f s)
    seats none h = tt
    seats (some s) h = rw (same s) h

close-reservation :
    (abandon : ReservedDuelAbandon) (s : ReservedDuelSession)
    → (close abandon s).reservation ≡ s.reservation
unfolding close
close-reservation abandon s = either_way _ s.closed refl
  where
    either_way :
        (t : ReservedDuelSession) (test : Bool)
        → t.reservation ≡ s.reservation
        → (if test then s else t).reservation ≡ s.reservation
    either_way t true e = refl
    either_way t false e = e

game_over-reservation : (s : ReservedDuelSession) → (mark_game_over s).reservation ≡ s.reservation
unfolding mark_game_over
game_over-reservation s = refl

pub finalize-InOrder :
    (abandon : ReservedDuelAbandon) (room : Room) → InOrder room → InOrder (finalize abandon room)
unfolding finalize
finalize-InOrder abandon room o = either-InOrder room.finalizing o (
    SameOrder-InOrder (record room { reserved_duel = map_some (close abandon) room.reserved_duel })
      _ (refl, refl, refl, refl, refl, refl, refl)
      (session-InOrder (close abandon) (close-reservation abandon) room o))

-- The result is decided, and the room torn down.
decided-InOrder :
    (room : Room)
    → InOrder room
    → InOrder (
        finalize closed_by_server
          (record room { reserved_duel = map_some mark_game_over room.reserved_duel }))
decided-InOrder room o =
    finalize-InOrder closed_by_server _
      (session-InOrder mark_game_over game_over-reservation room o)

not_ready-KeepsPlace : KeepsPlace not_ready
not_ready-KeepsPlace c = (refl, refl, refl, refl)

process_duel_end-InOrder :
    (winner : ℕ) (room : Room) → InOrder room → InOrder (process_duel_end winner room)
process_duel_end-InOrder winner room o =
    SameOrder-InOrder (record room { players = map not_ready room.players }) _
      (refl, refl, refl, refl, refl, refl, refl)
      (players-kept-InOrder o not_ready not_ready-KeepsPlace)

chosen-InOrder :
    (loser : Option YgoClient) (room : Room) → InOrder room → InOrder (chosen loser room)
chosen-InOrder none room o = o
chosen-InOrder (some loser) room o =
    SameOrder-InOrder room _ (refl, refl, refl, refl, refl, refl, refl) o

assign_side_deck_choice-InOrder :
    (winner : ℕ) (room : Room) → InOrder room → InOrder (assign_side_deck_choice winner room)
unfolding assign_side_deck_choice
assign_side_deck_choice-InOrder winner room o =
    either-InOrder (nat_eqb winner 0 || nat_eqb winner 1)
      (chosen-InOrder (find? (is_loser winner room) room.players) _
        (SameOrder-InOrder room _ (refl, refl, refl, refl, refl, refl, refl) o))
      (SameOrder-InOrder room _ (refl, refl, refl, refl, refl, refl, refl) o)

determine_next_phase-InOrder :
    (winner : ℕ) (room : Room)
    → InOrder room
    → BothTeams room.players
    → InOrder (determine_next_phase winner room)
determine_next_phase-InOrder winner room o here =
    either-InOrder (is_match_finished room) (decided-InOrder room o) (
      assign_side_deck_choice-InOrder winner (side_decking room)
        (enter-InOrder o side_decking_state side_decking_label refl here))

pub handle_win_condition-InOrder :
    (side : ℕ) (room : Room)
    → room.room_state ≡ dueling_state
    → InOrder room
    → InOrder (handle_win_condition side room)
unfolding handle_win_condition
handle_win_condition-InOrder side room dueling o =
    let winner = to_ingame_position side room in
    let over = process_duel_end-InOrder winner room o in
    either-InOrder (test_some false (λ (duel : Duel). duel.is_finished) room.current_duel) o
      (determine_next_phase-InOrder winner _ over (both_past_lobby over (λ waits. cc)))

pub set_duel_finished-InOrder : (room : Room) → InOrder room → InOrder (set_duel_finished room)
unfolding waiting
set_duel_finished-InOrder room o = record {
  one_each = o.one_each;
  well = players-keep o.well not_ready not_ready-KeepsPlace;
  coherent = refl;
  both = inl refl;
  reserved = o.reserved;
}

pub resolve-InOrder : (team : ℕ) (room : Room) → InOrder room → InOrder (resolve team room)
unfolding resolve
resolve-InOrder team room o =
    either-InOrder (room.finalizing || (is_match_finished room || not (is_between_duels room))) o (
      either-InOrder (not (has_played room)) (finalize-InOrder (disconnected team) room o) (
        either-InOrder (room.finalizing || is_match_finished room) o (
          decided-InOrder (match_forfeit (other_team team) room)
            (SameOrder-InOrder room _ (refl, refl, refl, refl, refl, refl, refl) o))))
