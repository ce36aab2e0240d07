-- ===== src/Rooms/Reached.antt =====
-- What holds of every room with one seat a team that the events of `Steps` lead to.
use edopro_server_ts.Prelude.{ℕ, ◌≡◌, sym, subst, ap, ◌∙◌, inl, [], arith}
use edopro_server_ts.Rooms.{Room, waiting_state, waiting_label}
use edopro_server_ts.Rooms.Steps.{
  Step, Reach, opened, later, join, try_start, to_observer, to_duel, update_deck, not_ready, rejoin,
  token_reconnect, rps_choice, turn_choice, side_deck, win, engine_fails, abandon, hangs_up,
}
use edopro_server_ts.Rooms.InOrder.{InOrder, HasTeamSeats, label_of}
use edopro_server_ts.Rooms.WellSeated.{WellSeated}
use edopro_server_ts.Rooms.InOrder.Lobby.{
  handle_to_observer-InOrder, handle_to_duel-InOrder, not_ready_unsafe-InOrder,
}
use edopro_server_ts.Rooms.InOrder.Admission.{admit-InOrder}
use edopro_server_ts.Rooms.InOrder.Match.{handle_try_start-InOrder, handle_update_deck-InOrder}
use edopro_server_ts.Rooms.InOrder.Phases.{
  handle_rps_choice-InOrder, handle_turn_choice-InOrder, handle_side_deck-InOrder,
}
use edopro_server_ts.Rooms.InOrder.Endings.{
  handle_win_condition-InOrder, set_duel_finished-InOrder, resolve-InOrder,
}
use edopro_server_ts.Rooms.InOrder.Connections.{
  on_disconnect-InOrder, handle_express_reconnect-InOrder, handle_mid_duel_join-InOrder,
}

-- A room as it is created, with one seat a team.
pub record IsNewRoom (room : Room) : Type 0 where
  pub one_each : (room.team0 ≡ 1) × (room.team1 ≡ 1)
  pub no_players : room.players ≡ []
  pub no_spectators : room.spectators ≡ []
  pub in_lobby : room.room_state ≡ waiting_state
  pub labelled : room.duel_state ≡ waiting_label
  pub reserved : HasTeamSeats room.reserved_duel

new-InOrder : (room : Room) → IsNewRoom room → InOrder room
new-InOrder room new = record {
  one_each = new.one_each;
  well =
      subst (λ ps. WellSeated 1 1 ps room.spectators) (sym new.no_players)
        (subst (λ ss. WellSeated 1 1 [] ss) (sym new.no_spectators) empty);
  coherent = ap label_of new.in_lobby ∙ sym new.labelled;
  both = inl new.in_lobby;
  reserved = new.reserved;
}
  where
    empty : WellSeated 1 1 [] []
    empty = record {
      seated = tt;
      in_stands = tt;
      apart = λ q. omega arith;
      once = λ object. omega arith;
      one_host = omega arith;
    }

Step-InOrder : {first : ℕ} {a b : Room} → Step first a b → InOrder a → InOrder b
Step-InOrder (join object socket name credential waits unused) o =
    admit-InOrder o waits object socket name credential unused
Step-InOrder (try_start player waits m) o = handle_try_start-InOrder player o
Step-InOrder (to_observer player waits m) o = handle_to_observer-InOrder o waits player m
Step-InOrder (to_duel player waits m) o = handle_to_duel-InOrder o waits player m
Step-InOrder (update_deck validate built player waits m) o =
    handle_update_deck-InOrder validate built player o
Step-InOrder (not_ready player waits m) o = not_ready_unsafe-InOrder player o
Step-InOrder {a = a} (rejoin object socket name identity past unused) o =
    handle_mid_duel_join-InOrder object socket name a unused o identity
Step-InOrder {a = a} (token_reconnect player socket past m) o =
    handle_express_reconnect-InOrder player socket a o
Step-InOrder {a = a} (rps_choice hand0 hand1 res player e m) o =
    handle_rps_choice-InOrder a hand0 hand1 e o res player
Step-InOrder {first} {a} (turn_choice turn player e m) o =
    handle_turn_choice-InOrder first turn player a e o
Step-InOrder {a = a} (side_deck validate is_side built player e m) o =
    handle_side_deck-InOrder validate is_side built player a e o
Step-InOrder {a = a} (win side e) o = handle_win_condition-InOrder side a e o
Step-InOrder {a = a} (engine_fails e) o = set_duel_finished-InOrder a o
Step-InOrder {a = a} (abandon team) o = resolve-InOrder team a o
Step-InOrder {a = a} (hangs_up socket_id) o = on_disconnect-InOrder socket_id a o

-- A room that was created with one seat a team and whose reservation, if it has one, names seats 0 and
-- 1 is in order after any events of its clients, its engine and its connections: its players sit on
-- seats of their teams, no two on one; no client stands in it twice; at most one player is the host,
-- and no spectator; the state object is the one that the label names; and past the lobby each team has
-- a player.
pub reached-InOrder :
    {first : ℕ} {new room : Room} → IsNewRoom new → Reach first new room → InOrder room
reached-InOrder {new = new} is_new opened = new-InOrder new is_new
reached-InOrder is_new (later r step) = Step-InOrder step (reached-InOrder is_new r)
