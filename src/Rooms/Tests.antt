-- ===== src/Rooms/Tests.antt =====
-- A room of two players, a guest of the lobby and a spectator.
use edopro_server_ts.Prelude.{
  ℕ, ◌≡◌, refl, inl, inr, none, some, true, false, List, [], ◌∷◌, arith, String, Option,
}
use edopro_server_ts.Prelude.Int.{pos}
use mathlib.Core.List.{Memᴰ}
use edopro_server_ts.RoomMatch.{Match, lost, is_finished}
use edopro_server_ts.RoomRules.{HostInfo, match_mode}
use edopro_server_ts.RoomRules.Room.{casual}
use edopro_server_ts.Rooms.{Room, waiting_state, rps_state, waiting_label, rps_label}
use edopro_server_ts.Rooms.Clients.{YgoClient, Socket, by_pin, as_guest, is_strong_auth}
use edopro_server_ts.Rooms.Seats.{next_available_position}
use edopro_server_ts.Rooms.FreeSeats.{the_seat, IsSeat}
use edopro_server_ts.Rooms.Lobby.{new_client}
use edopro_server_ts.Rooms.Gates.{
  stamped, reservation_admits, can_accept_invitation, admit_to_room, decide,
}
use edopro_server_ts.Rooms.Waiting.{
  admit, handle_to_duel, handle_try_start, thrown, done, handle_update_deck,
}
use edopro_server_ts.Rooms.Reconnect.{
  account, find_mid_duel_reconnecting_player, find_reconnecting_player, handle_mid_duel_join,
}
use edopro_server_ts.Rooms.Phases.{handle_rps_choice, get_rps_winner}
use edopro_server_ts.Rooms.Endings.{resolve, is_match_finished}
use edopro_server_ts.Rooms.Steps.{opened, later, join}
use edopro_server_ts.Rooms.InOrder.{InOrder}
use edopro_server_ts.Rooms.Reached.{IsNewRoom, reached-InOrder}
use edopro_server_ts.Rooms.Hands.{Settled, rps_settles}
use edopro_server_ts.Rooms.Reclaim.{MayReclaim, reclaims_own_seat}
use edopro_server_ts.Rooms.Decided.{wrapped_move-mislabels, abandon_decides, AbandonEnding}
use edopro_server_ts.Rooms.LoneHost.{lone_host_throws}
use edopro_server_ts.Deck.{Deck}
use edopro_server_ts.Rooms.ReservedSeats.{seats_stay_reserved}
use edopro_server_ts.Rooms.SeatRights.{SeatsAreReserved}

abbrev socket : ℕ → Option String → Socket
socket id user_id = record {
  id = id;
  remote_address = some "10.0.0.1";
  client_name = none;
  closed = false;
  room_id = none;
  resolved_user_id = user_id;
  internal_for_room_id = none;
  watch_for_room_id = none;
  invite_for_room_id = none;
}

abbrev host_info : HostInfo
host_info = record {
  lflist = pos 0;
  rule = 1;
  mode = match_mode;
  duel_rule = 5;
  no_check_deck = 0;
  no_shuffle_deck = 0;
  start_lp = 8000;
  start_hand = 5;
  draw_count = 1;
  time_limit = 450;
  max_deck_points = 100;
  best_of = 3;
  tcg_segoc_nonpublic = 0;
  goat_2005 = 0;
}

abbrev lobby : Room
lobby = record {
  id = 7;
  team0 = 1;
  team1 = 1;
  league = casual;
  password = "";
  host_info = host_info;
  is_matchmaking = false;
  no_host = false;
  no_reconnect = false;
  reserved_user_ids = [];
  reserved_duel = none;
  finalizing = false;
  duel_state = waiting_label;
  room_state = waiting_state;
  is_started = false;
  players = [];
  spectators = [];
  client_who_chooses_turn = none;
  turn_choice_requires_rps = false;
  is_position_swapped = false;
  match_of = none;
  current_duel = none;
}

lobby-IsNewRoom : IsNewRoom lobby
lobby-IsNewRoom = record {
  one_each = (refl, refl);
  no_players = refl;
  no_spectators = refl;
  in_lobby = refl;
  labelled = refl;
  reserved = tt;
}

abbrev with_yugi : Room
with_yugi = admit 0 (socket 3 none) "yugi" (as_guest "yugi") lobby

reached-InOrder_example : InOrder (admit 1 (socket 4 none) "kaiba" (as_guest "kaiba") with_yugi)
unfolding admit admit_to_room decide reservation_admits can_accept_invitation
reached-InOrder_example = reached-InOrder {first = 1} lobby-IsNewRoom (
    later (later opened (join 0 (socket 3 none) "yugi" (as_guest "yugi") refl refl))
      (join 1 (socket 4 none) "kaiba" (as_guest "kaiba") refl refl))

abbrev yugi : YgoClient
yugi = record (new_client 0 (socket 3 none) "yugi" (some "u0") true 0 0) {
  is_captain = true;
  is_ready = true;
}

abbrev kaiba : YgoClient
kaiba = record (new_client 1 (socket 4 none) "kaiba" (some "u1") false 1 1) {
  is_captain = true;
  is_ready = true;
  credential = some (by_pin "u1");
}

abbrev in_rps : Room
in_rps = record lobby {
  duel_state = rps_label;
  room_state = rps_state 0 2;
  players = yugi ∷ kaiba ∷ [];
}

in_rps-InOrder : InOrder in_rps
in_rps-InOrder = record {
  one_each = (refl, refl);
  well = record {
    seated = (inl (refl, omega arith), (inr (refl, omega arith, omega arith), tt));
    in_stands = tt;
    apart = λ q. ground arith;
    once = λ object. ground arith;
    one_host = omega arith;
  };
  coherent = refl;
  both = inr (omega arith, omega arith);
  reserved = tt;
}

rps_settles_example : Settled 1 2 in_rps (handle_rps_choice 1 yugi in_rps)
rps_settles_example =
    rps_settles in_rps 0 2 1 yugi in_rps-InOrder refl refl (omega arith) (λ e. cc, λ e. cc)

-- A hand that is none of the three wins for team 0.
unknown_hand_wins : get_rps_winner 4 1 ≡ 0
unfolding get_rps_winner
unknown_hand_wins = refl

reclaims_own_seat_example :
    (stamped none 7 ≡ false)
    × Memᴰ kaiba (yugi ∷ kaiba ∷ [])
    × MayReclaim "kaiba" (some "10.0.0.9") (some "u1") kaiba true
    × (is_strong_auth kaiba ≡ false)
unfolding find_mid_duel_reconnecting_player find_reconnecting_player
reclaims_own_seat_example =
    reclaims_own_seat (yugi ∷ kaiba ∷ []) "kaiba"
      (record (socket 9 none) { remote_address = some "10.0.0.9" }) 7 true (some "u1") kaiba refl

-- Two players a team; the seats 0, 1 and 3 are taken.
abbrev tag_players : List YgoClient
tag_players =
    new_client 0 (socket 3 none) "a" none true 0 0
    ∷ new_client 1 (socket 4 none) "b" none false 1 0
    ∷ new_client 2 (socket 5 none) "c" none false 3 1
    ∷ []

wrapped_move-mislabels_example :
    (next_available_position 2 2 tag_players 3 ≡ some (the_seat 2 0)) × (IsSeat 2 2 2 0 → ⊥)
wrapped_move-mislabels_example = wrapped_move-mislabels 1 2 3 2 tag_players refl refl (omega arith)

abbrev no_deck : Deck
no_deck = record { main = []; extra = []; side = [] }

lone_host_throws_example :
    let joined = admit 0 (socket 3 none) "yugi" (as_guest "yugi") lobby in
    (player : YgoClient) × (joined.players ≡ player ∷ [])
    × (player.host ≡ true)
    × ((readied : Room) × (handle_update_deck (λ _. none) (some no_deck) player joined
          ≡ done readied)
        × ((host : YgoClient) × (readied.players ≡ host ∷ [])
            × (host.is_ready ≡ true)
            × (handle_try_start host readied ≡ thrown readied)))
lone_host_throws_example =
    lone_host_throws lobby 0 (socket 3 none) "yugi" (as_guest "yugi") (λ _. none) no_deck
      (omega arith, refl, refl, refl, refl) (refl, refl) (inl refl) refl

abbrev one_duel : Match
one_duel = record {
  player_score = 0;
  opponent_score = 1;
  best_of = 3;
  need_wins = 2;
  players =
      (record {
        player = record { id = some "u0"; name = "yugi"; team = 0 };
        games = record { result = lost; turns = 5; ip_address = none; client = none } ∷ [];
      })
      ∷ [];
}

abbrev siding : Room
siding = record in_rps { match_of = some one_duel }

abandon_decides_example : AbandonEnding 0 siding one_duel (resolve 1 siding)
unfolding is_match_finished is_finished
abandon_decides_example =
    abandon_decides 1 0 siding one_duel (inr (refl, refl)) refl refl refl refl (record {
      needed = omega arith;
      player_within = omega arith;
      opponent_within = omega arith;
      one_winner = inr (omega arith);
    })

abbrev reserved_room : Room
reserved_room = record lobby { reserved_user_ids = "u0" ∷ "u1" ∷ [] }

seats_stay_reserved_example :
    SeatsAreReserved (admit 0 (socket 3 (some "u0")) "yugi" (as_guest "yugi") reserved_room)
    × SeatsAreReserved (handle_to_duel kaiba reserved_room)
    × SeatsAreReserved
        (handle_mid_duel_join 0 (socket 3 (some "u0")) "yugi" (account "u0") reserved_room)
seats_stay_reserved_example =
    seats_stay_reserved reserved_room 0 (socket 3 (some "u0")) "yugi" (as_guest "yugi")
      (account "u0") kaiba (λ e. cc) tt
