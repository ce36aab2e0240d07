-- ===== src/Rooms/Clients.antt =====
-- shared/client/domain/YgoClient.ts and ygopro/client/domain/YGOProClient.ts: a client, its
-- socket (shared/socket/domain/ISocket.ts) and the credential that it came with
-- (shared/room/admission/domain/PlayerCredential.ts).
use edopro_server_ts.Prelude.{ℕ, String, Option, some, Bool, true, false, nat_eqb}
use edopro_server_ts.Prelude.Eq.{◌==◌, string_eq}
use edopro_server_ts.Deck.{Deck}

-- The stamps of a socket name the room that they hold for.
pub record Socket : Type 0 where
  pub id : ℕ
  pub remote_address : Option String
  pub client_name : Option String
  pub closed : Bool
  pub room_id : Option ℕ
  pub resolved_user_id : Option String
  pub internal_for_room_id : Option ℕ
  pub watch_for_room_id : Option ℕ
  pub invite_for_room_id : Option ℕ

pub data PlayerCredential : Type 0 where
  by_ticket by_pin : String → PlayerCredential
  as_guest : String → PlayerCredential

pub record YgoClient : Type 0 where
  pub object : ℕ
  pub id : Option String
  pub name : String
  pub host : Bool
  pub position : ℕ
  pub team : ℕ
  pub socket : Socket
  pub is_reconnecting : Bool
  pub is_ready : Bool
  pub credential : Option PlayerCredential
  pub deck : Option Deck
  pub is_captain : Bool
  pub is_internal : Bool

-- `Team.SPECTATOR` and `NetPlayerType.OBSERVER`
abbrev pub spectator_team : ℕ
spectator_team = 3

abbrev pub observer : ℕ
observer = 7

abbrev pub player_position : ℕ → ℕ → YgoClient → YgoClient
player_position position team client = record client { position = position; team = team }

abbrev pub spectator_position : ℕ → YgoClient → YgoClient
spectator_position position client = record client { position = position; team = spectator_team }

abbrev pub is_spectator : YgoClient → Bool
is_spectator client = nat_eqb client.team spectator_team

abbrev pub ready : YgoClient → YgoClient
ready client = record client { is_ready = true }

abbrev pub not_ready : YgoClient → YgoClient
not_ready client = record client { is_ready = false }

abbrev pub set_deck : Deck → YgoClient → YgoClient
set_deck deck client = record client { deck = some deck }

abbrev pub set_credential : PlayerCredential → YgoClient → YgoClient
set_credential credential client = record client { credential = some credential }

abbrev pub set_socket : Socket → YgoClient → YgoClient
set_socket socket client = record client { socket = socket }

abbrev pub set_reconnecting : YgoClient → YgoClient
set_reconnecting client = record client { is_reconnecting = true }

abbrev pub clear_reconnecting : YgoClient → YgoClient
clear_reconnecting client = record client { is_reconnecting = false }

abbrev pub captain : YgoClient → YgoClient
captain client = record client { is_captain = true }

abbrev pub mark_internal : YgoClient → YgoClient
mark_internal client = record client { is_internal = true }

abbrev pub is_strong_auth : YgoClient → Bool
is_strong_auth client = elim client.credential [ some (by_ticket _) ↦ true | _ ↦ false ]

abbrev pub has_name : String → YgoClient → Bool
has_name name client = client.name == name
