-- ===== src/Rooms/SeatRights.antt =====
-- Which connections may sit in a reserved room, and what its gates in
-- ygopro/room/domain/YGOProRoom.ts say of it.
use edopro_server_ts.Prelude.{
  ℕ, ◌≡◌, ◌≢◌, refl, ◌⊎◌, inl, inr, String, Option, none, some, Bool, true, false, not, List, [],
  ◌∷◌, All, if◌then◌else◌, nat_eqb, Bool-cases, by_test, and-eq-true_iff,
}
use edopro_server_ts.Prelude.Eq.{◌==◌, string_eq, contains}
use edopro_server_ts.Prelude.Marks.{All-mapped}
use edopro_server_ts.Rooms.Clients.{clear_reconnecting}
use edopro_server_ts.Rooms.Reconnect.{clear_after}
use edopro_server_ts.Rooms.{
  RoomState, waiting_state, rps_state, choosing_order_state, dueling_state, side_decking_state,
  Room, change_in,
}
use edopro_server_ts.Rooms.Clients.{YgoClient, Socket}
use edopro_server_ts.Rooms.Gates.{stamped, identity_admits, allows_spectators}

-- The connection is the room's own bot's, or its identity is one that the room is reserved for.
abbrev pub MaySit : ℕ → List String → Socket → Type 0
MaySit id reserved socket =
    (stamped socket.internal_for_room_id id ≡ true)
    ⊎ ((user_id : String) × (socket.resolved_user_id ≡ some user_id)
        × (contains user_id reserved ≡ true))

-- Every player's connection may sit in the room.
abbrev pub SeatsAreReserved : Room → Type 0
SeatsAreReserved room =
    All (λ (p : YgoClient). MaySit room.id room.reserved_user_ids p.socket) room.players

identity-MaySit :
    (room : Room) (socket : Socket) (identity : Option String)
    → socket.resolved_user_id ≡ identity
    → identity_admits identity room ≡ true
    → MaySit room.id room.reserved_user_ids socket
identity-MaySit room socket none e h = absurd cc
identity-MaySit room socket (some user_id) e h =
    let (_, rest) = (and-eq-true_iff (not (user_id == "")) _).0 h in
    let (reserved, _) = (and-eq-true_iff (contains user_id room.reserved_user_ids) _).0 rest in
    inr (user_id, e, reserved)

pub admits-MaySit :
    (room : Room) (socket : Socket) (ids : List String)
    → room.reserved_user_ids ≢ []
    → room.reserved_user_ids ≡ ids
    → stamped socket.watch_for_room_id room.id ≡ false
    → (elim ids [
      | [] ↦ true
      | _ ∷ _ ↦
          if stamped socket.internal_for_room_id room.id
          then true
          else (if stamped socket.watch_for_room_id room.id
              then allows_spectators room.reserved_duel
              else identity_admits socket.resolved_user_id room)
    ])
      ≡ true
    → MaySit room.id room.reserved_user_ids socket
admits-MaySit room socket [] some_ e unstamped h = absurd (some_ e)
admits-MaySit room socket (u ∷ us) some_ e unstamped h =
    elim (Bool-cases (stamped socket.internal_for_room_id room.id)) [
      | inl bot ↦ inl bot
      | inr not_bot ↦ identity-MaySit room socket socket.resolved_user_id refl (
          watcher (stamped socket.internal_for_room_id room.id)
            (stamped socket.watch_for_room_id room.id) not_bot unstamped h)
    ]
  where
    watcher :
        (bot watch : Bool)
        → bot ≡ false
        → watch ≡ false
        → (if bot
            then true
            else (if watch
                then allows_spectators room.reserved_duel
                else identity_admits socket.resolved_user_id room))
          ≡ true
        → identity_admits socket.resolved_user_id room ≡ true
    watcher true watch b w g = absurd cc
    watcher false true b w g = absurd cc
    watcher false false b w g = g

pub permits-MaySit :
    (room : Room) (socket : Socket) (ids : List String)
    → room.reserved_user_ids ≢ []
    → room.reserved_user_ids ≡ ids
    → (elim ids [ [] ↦ true | _ ∷ _ ↦ identity_admits socket.resolved_user_id room ]) ≡ true
    → MaySit room.id room.reserved_user_ids socket
permits-MaySit room socket [] some_ e h = absurd (some_ e)
permits-MaySit room socket (u ∷ us) some_ e h =
    identity-MaySit room socket socket.resolved_user_id refl h

pub change_in-MaySit :
    (id : ℕ) (reserved : List String) (object : ℕ) (f : YgoClient → YgoClient)
    (players : List YgoClient)
    → ((c : YgoClient) → MaySit id reserved c.socket → MaySit id reserved (f c).socket)
    → All (λ (p : YgoClient). MaySit id reserved p.socket) players
    → All (λ (p : YgoClient). MaySit id reserved p.socket) (change_in object f players)
change_in-MaySit id reserved object f players keeps h =
    All-mapped _ _ _
      (λ c k.
        by_test (λ (d : YgoClient). MaySit id reserved d.socket) (nat_eqb c.object object) (f c) c
          (λ _. keeps c k) (λ _. k))
      players h

pub clear_after-SeatsAreReserved :
    (state : RoomState) (player : YgoClient) (after : Room)
    → SeatsAreReserved after
    → SeatsAreReserved (clear_after state player after)
clear_after-SeatsAreReserved side_decking_state player after h =
    change_in-MaySit after.id after.reserved_user_ids player.object clear_reconnecting after.players
      (λ c k. k) h
clear_after-SeatsAreReserved waiting_state player after h = h
clear_after-SeatsAreReserved (rps_state _ _) player after h = h
clear_after-SeatsAreReserved choosing_order_state player after h = h
clear_after-SeatsAreReserved dueling_state player after h = h
