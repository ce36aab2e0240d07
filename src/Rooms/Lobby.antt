-- ===== src/Rooms/Lobby.antt =====
-- ygopro/room/domain/YGOProRoom.ts: the operations by which clients take, change and leave seats.
use edopro_server_ts.Prelude.{
  ℕ, String, Option, none, some, Bool, true, false, not, [], ◌∷◌, ◌++◌, any, map, find?, length,
  if◌then◌else◌, nat_eqb,
}
use edopro_server_ts.Deck.{Deck}
use edopro_server_ts.RoomRules.{single_mode, match_mode, tag_mode}
use edopro_server_ts.Rooms.{
  Room, waiting_label, dueling_label, rps_label, choosing_order_label, side_decking_label,
  waiting_state, rps_state, choosing_order_state, dueling_state, side_decking_state, change,
  remove_player_unsafe, remove_spectator_unsafe,
}
use edopro_server_ts.Rooms.Duels.{new_duel}
use edopro_server_ts.Rooms.Clients.{
  YgoClient, Socket, observer, spectator_team, player_position, spectator_position, ready,
  not_ready, set_deck, set_socket, set_reconnecting,
}
use edopro_server_ts.Rooms.Seats.{Seat, calculate_place, next_available_position}

abbrev pub place_in : Room → Option Seat
place_in room = calculate_place room.team0 room.team1 room.players none

abbrev pub has_free_seat : Room → Bool
has_free_seat room = elim (place_in room) [ none ↦ false | some _ ↦ true ]

-- `isPlayersFull`: a single or a match room with two players.
abbrev pub is_players_full : Room → Bool
is_players_full room = elim room.host_info.mode [
  | single_mode ↦ nat_eqb (length room.players) 2
  | match_mode ↦ nat_eqb (length room.players) 2
  | tag_mode ↦ false
]

abbrev pub is_between_duels : Room → Bool
is_between_duels room = elim room.duel_state [
  | rps_label ↦ true
  | choosing_order_label ↦ true
  | side_decking_label ↦ true
  | waiting_label ↦ false
  | dueling_label ↦ false
]

-- `new YGOProClient` for an object that the room does not yet refer to.
abbrev pub new_client : ℕ → Socket → String → Option String → Bool → ℕ → ℕ → YgoClient
new_client object socket name id host position team = record {
  object = object;
  id = id;
  name = name;
  host = host;
  position = position;
  team = team;
  socket = socket;
  is_reconnecting = false;
  is_ready = false;
  credential = none;
  deck = none;
  is_captain = false;
  is_internal = false;
}

-- The first player to sit down while no player is the host becomes the host.
abbrev pub build_player : ℕ → Socket → String → Option String → ℕ → ℕ → Room → YgoClient
build_player object socket name user_id position team room =
    new_client object socket name user_id
      (not (any (λ (client : YgoClient). client.host) room.players)) position team

abbrev pub create_spectator_unsafe : ℕ → Socket → String → YgoClient
create_spectator_unsafe object socket name =
    new_client object socket name none false observer spectator_team

abbrev pub add_player_unsafe : YgoClient → Room → Room
add_player_unsafe player room = record room {
  players =
      room.players ++ set_socket (record (player.socket) { room_id = some room.id }) player ∷ [];
}

abbrev pub add_spectator_unsafe : YgoClient → Room → Room
add_spectator_unsafe spectator room = record room { spectators = room.spectators ++ spectator ∷ [] }

abbrev pub to_the_stands : YgoClient → YgoClient
to_the_stands player = not_ready (spectator_position observer player)

unfoldable pub player_to_spectator_unsafe : YgoClient → Room → Room
player_to_spectator_unsafe player room =
    change player.object to_the_stands
      (add_spectator_unsafe player (remove_player_unsafe player room))

abbrev pub to_the_seat : Seat → YgoClient → YgoClient
to_the_seat place player = not_ready (player_position place.position place.team player)

abbrev pub sit_down : YgoClient → Option Seat → Room → Room
sit_down player none room = room
sit_down player (some place) room =
    let left = remove_spectator_unsafe player room in
    change player.object (to_the_seat place) (record left { players = left.players ++ player ∷ [] })

unfoldable pub spectator_to_player_unsafe : YgoClient → Room → Room
spectator_to_player_unsafe player room = sit_down player (place_in room) room

abbrev pub move_to : YgoClient → Option Seat → Room → Room
move_to player none room = room
move_to player (some place) room = change player.object (to_the_seat place) room

unfoldable pub move_player_to_another_cell_unsafe : YgoClient → Room → Room
move_player_to_another_cell_unsafe player room = elim room.reserved_duel [
  | some _ ↦ room
  | none ↦
      move_to player (next_available_position room.team0 room.team1 room.players player.position)
        room
]

abbrev pub readied_with : Deck → YgoClient → YgoClient
readied_with deck client = set_deck deck (ready client)

abbrev pub ready_seat : Deck → Option YgoClient → Room → Room
ready_seat deck none room = room
ready_seat deck (some client) room = change client.object (readied_with deck) room

-- The deck goes to the first player on the position.
unfoldable pub set_decks_to_player_unsafe : ℕ → Deck → Room → Room
set_decks_to_player_unsafe position deck room =
    ready_seat deck (find? (λ (client : YgoClient). nat_eqb client.position position) room.players)
      room

unfoldable pub not_ready_unsafe : YgoClient → Room → Room
not_ready_unsafe player room =
    if nat_eqb player.position observer then room else change player.object not_ready room

-- `playerLeave` and `spectatorLeave`
abbrev pub player_leave : YgoClient → Room → Room
player_leave player room = remove_player_unsafe player room

abbrev pub spectator_leave : YgoClient → Room → Room
spectator_leave spectator room = remove_spectator_unsafe spectator room

-- The seat of the player passes to another socket.
abbrev pub taken_over : Socket → YgoClient → YgoClient
taken_over socket player = set_reconnecting (set_socket socket player)

unfoldable pub reconnect : YgoClient → Socket → Room → Room
reconnect player socket room = change player.object (taken_over socket) room

-- The transitions, each of which sets the label and the state object together.
unfoldable pub waiting : Room → Room
waiting room = record room {
  duel_state = waiting_label;
  is_started = false;
  players = map not_ready room.players;
  room_state = waiting_state;
}

abbrev pub rps : Room → Room
rps room = record room { duel_state = rps_label; room_state = rps_state 0 0 }

abbrev pub choosing_order : Room → Room
choosing_order room = record room {
  duel_state = choosing_order_label;
  room_state = choosing_order_state;
}

abbrev pub dueling : Room → Room
dueling room = record room {
  current_duel = some (new_duel 0 room.host_info.start_lp room.host_info.start_lp);
  duel_state = dueling_label;
  is_started = true;
  room_state = dueling_state;
}

abbrev pub side_decking : Room → Room
side_decking room = record room { duel_state = side_decking_label; room_state = side_decking_state }

abbrev pub set_duel_finished : Room → Room
set_duel_finished room = waiting room
