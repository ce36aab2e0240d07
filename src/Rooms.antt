-- ===== src/Rooms.antt =====
-- shared/client/domain/YgoClient.ts, shared/room/domain/YgoRoom.ts and
-- ygopro/room/domain/YGOProRoom.ts: the clients of a YGOPro room and the state of the room. A client
-- is an object that the room's lists share with the listeners of its socket: `object` is its
-- identity, and a method that changes it changes the entry of the lists with that identity
-- (`change`). What the code writes to a socket is not part of the state.
pub mod Clients
pub mod Duels
pub mod Seats
pub mod FreeSeats
pub mod WellSeated
pub mod Lobby
pub mod Gates
pub mod Waiting
pub mod Reconnect
pub mod Phases
pub mod Endings
pub mod Leaving
pub mod Steps
pub mod InOrder
pub mod Reached
pub mod TeamPlayers
pub mod Hands
pub mod Reclaim
pub mod Decided
pub mod LoneHost
pub mod SeatRights
pub mod ReservedSeats
mod Tests
use edopro_server_ts.Prelude.{
  ℕ, String, Option, none, some, Bool, true, false, not, ◌&&◌, ◌||◌, List, [], ◌∷◌, ◌++◌, all, any,
  map, filter, length, if◌then◌else◌, nat_eqb, ltb,
}
use edopro_server_ts.Deck.{Deck}
use edopro_server_ts.RoomMatch.{Match}
use edopro_server_ts.ReservedDuel.Session.{ReservedDuelSession}
use edopro_server_ts.RoomRules.{HostInfo}
use edopro_server_ts.RoomRules.Room.{RoomLeague}
use Duels.{Duel}
use Clients.{YgoClient, has_name}

pub data DuelState : Type 0 where
  waiting_label dueling_label rps_label choosing_order_label side_decking_label : DuelState

-- The state object of a room; the state of RPS has the two hands, 0 while there is none.
pub data RoomState : Type 0 where
  waiting_state : RoomState
  rps_state : ℕ → ℕ → RoomState
  choosing_order_state dueling_state side_decking_state : RoomState

pub record Room : Type 0 where
  pub id : ℕ
  pub team0 : ℕ
  pub team1 : ℕ
  pub league : RoomLeague
  pub password : String
  pub host_info : HostInfo
  pub is_matchmaking : Bool
  pub no_host : Bool
  pub no_reconnect : Bool
  pub reserved_user_ids : List String
  pub reserved_duel : Option ReservedDuelSession
  pub finalizing : Bool
  pub duel_state : DuelState
  pub room_state : RoomState
  pub is_started : Bool
  pub players : List YgoClient
  pub spectators : List YgoClient
  pub client_who_chooses_turn : Option ℕ
  pub turn_choice_requires_rps : Bool
  pub is_position_swapped : Bool
  pub match_of : Option Match
  pub current_duel : Option Duel

abbrev pub clients : Room → List YgoClient
clients room = room.players ++ room.spectators

-- A method of the client object changes it wherever the room refers to it.
abbrev pub change_in : ℕ → (YgoClient → YgoClient) → List YgoClient → List YgoClient
change_in object f = map (λ client. if nat_eqb client.object object then f client else client)

abbrev pub change : ℕ → (YgoClient → YgoClient) → Room → Room
change object f room = record room {
  players = change_in object f room.players;
  spectators = change_in object f room.spectators;
}

abbrev pub without_socket : ℕ → List YgoClient → List YgoClient
without_socket socket_id = filter (λ (item : YgoClient). not (nat_eqb item.socket.id socket_id))

abbrev pub remove_player_unsafe : YgoClient → Room → Room
remove_player_unsafe player room = record room {
  players = without_socket player.socket.id room.players;
}

abbrev pub remove_spectator_unsafe : YgoClient → Room → Room
remove_spectator_unsafe spectator room = record room {
  spectators = without_socket spectator.socket.id room.spectators;
}

abbrev pub has_no_connected_players : Room → Bool
has_no_connected_players room = all (λ (player : YgoClient). player.socket.closed) room.players

abbrev pub all_players_ready : Room → Bool
all_players_ready room = not (any (λ (client : YgoClient). not client.is_ready) room.players)

abbrev pub is_name_taken : List YgoClient → String → Bool
is_name_taken players name = any (has_name name) players

-- The clients in the order of their positions, equal ones as they stand.
abbrev pub insert_by_position : YgoClient → List YgoClient → List YgoClient
insert_by_position client [] = client ∷ []
insert_by_position client (first ∷ rest) =
    if ltb first.position client.position
    then first ∷ insert_by_position client rest
    else client ∷ first ∷ rest

abbrev pub by_position : List YgoClient → List YgoClient
by_position [] = []
by_position (client ∷ rest) = insert_by_position client (by_position rest)

abbrev pub get_team_players : ℕ → Room → List YgoClient
get_team_players team room =
    by_position (filter (λ (client : YgoClient). nat_eqb client.team team) room.players)

-- `getTeamPlayers(team)[0]`
abbrev pub first_of_team : ℕ → Room → Option YgoClient
first_of_team team room = elim (get_team_players team room) [ [] ↦ none | player ∷ _ ↦ some player ]
