-- ===== src/Rooms/LoneHost.antt =====
-- The first player of a YGOPro room, who hands in a deck and starts the room alone.
use edopro_server_ts.Prelude.{
  ℕ, zero, suc, ◌<◌, ◌≡◌, refl, ap, ◌∙◌, ◌⊎◌, inl, inr, Option, none, some, true, String, [], ◌∷◌,
  arith,
}
use edopro_server_ts.Deck.{Deck}
use edopro_server_ts.Deck.Errors.{DeckError}
use edopro_server_ts.RoomRules.Room.{RoomLeague, casual}
use edopro_server_ts.Rooms.{Room}
use edopro_server_ts.Rooms.Clients.{
  YgoClient, Socket, PlayerCredential, by_ticket, set_credential, set_socket,
}
use edopro_server_ts.Rooms.Seats.{calculate_place}
use edopro_server_ts.Rooms.FreeSeats.{the_seat}
use edopro_server_ts.Rooms.Lobby.{new_client, readied_with, set_decks_to_player_unsafe}
use edopro_server_ts.Rooms.Gates.{
  decide, admit_to_room, reservation_admits, user_id_of, free_seat, as_player,
}
use edopro_server_ts.Rooms.Waiting.{
  done, thrown, admit, start_match, handle_try_start, start_reserved_duel_when_ready,
  handle_update_deck,
}

-- Whoever joins a casual room, or has a ticket, may play in it.
abbrev pub MayPlay : RoomLeague → PlayerCredential → Type 0
MayPlay league credential = (league ≡ casual) ⊎ ((id : String) × (credential ≡ by_ticket id))

-- A room that nobody is in and that is not reserved, with a seat for team 0 at least.
abbrev pub IsEmptyRoom : Room → Type 0
IsEmptyRoom room =
    (0 < room.team0)
    × (room.players ≡ [])
    × (room.spectators ≡ [])
    × (room.reserved_duel ≡ none)
    × (room.reserved_user_ids ≡ [])

-- A socket that was neither sent to watch nor invited.
abbrev pub IsUnstamped : Socket → Type 0
IsUnstamped socket = (socket.watch_for_room_id ≡ none) × (socket.invite_for_room_id ≡ none)

first_place :
    (team0 team1 : ℕ) → 0 < team0 → calculate_place team0 team1 [] none ≡ some (the_seat 0 0)
first_place zero team1 h = absurd (omega (arith, h))
first_place (suc n) team1 h = refl

module _ (room : Room) (empty : IsEmptyRoom room) (object : ℕ) (socket : Socket) (name : String)
    (credential : PlayerCredential) (fresh : IsUnstamped socket) where
  abbrev first_player : YgoClient
  first_player =
      set_socket (record socket { room_id = some room.id })
        (set_credential credential (new_client object socket name (user_id_of credential) true 0 0))

  free_seat-first : free_seat socket room ≡ some (the_seat 0 0)
  free_seat-first =
      let (seats, players, _, reserved, users) = empty in
      ground (arith, fresh, first_place room.team0 room.team1 seats)

  decide-first :
      MayPlay room.league credential
      → decide room.league credential (some (the_seat 0 0)) ≡ as_player credential (the_seat 0 0)
  unfolding decide
  decide-first (inl open_) = ground (arith, open_)
  decide-first (inr (id, ticket)) = ground (arith, ticket)

  admit-first :
      MayPlay room.league credential
      → admit object socket name credential room ≡ record room { players = first_player ∷ [] }
  unfolding admit admit_to_room reservation_admits
  admit-first may =
      let (seats, players, _, reserved, users) = empty in
      ground (arith, players, users, fresh, free_seat-first, decide-first may)

  module _ (validate : Deck → Option DeckError) (deck : Deck) (legal : validate deck ≡ none) where
    abbrev joined : Room
    joined = record room { players = first_player ∷ [] }

    abbrev readied : Room
    readied = record room { players = readied_with deck first_player ∷ [] }

    update_deck-first : handle_update_deck validate (some deck) first_player joined ≡ done readied
    unfolding handle_update_deck set_decks_to_player_unsafe start_reserved_duel_when_ready
    update_deck-first =
        let (_, _, stands, reserved, _) = empty in ground (arith, stands, reserved, legal)

    try_start-first : handle_try_start (readied_with deck first_player) readied ≡ thrown readied
    unfolding handle_try_start start_match
    try_start-first = let (_, _, _, reserved, _) = empty in ground (arith, reserved)

-- Someone who may play in it joins a room that nobody is in and that is not reserved: that client is its
-- only player and its host. It hands in a deck that the validator accepts, which makes it ready, and
-- starts the room: the start throws, and leaves the room as it was.
pub lone_host_throws :
    (room : Room) (object : ℕ) (socket : Socket) (name : String) (credential : PlayerCredential)
    (validate : Deck → Option DeckError) (deck : Deck)
    → IsEmptyRoom room
    → IsUnstamped socket
    → MayPlay room.league credential
    → validate deck ≡ none
    → let joined = admit object socket name credential room in
      (player : YgoClient) × (joined.players ≡ player ∷ [])
      × (player.host ≡ true)
      × ((readied : Room) × (handle_update_deck validate (some deck) player joined ≡ done readied)
          × ((host : YgoClient) × (readied.players ≡ host ∷ [])
              × (host.is_ready ≡ true)
              × (handle_try_start host readied ≡ thrown readied)))
lone_host_throws room object socket name credential validate deck empty fresh may legal =
    let entered = admit-first room empty object socket name credential fresh may in
    let player = first_player room empty object socket name credential fresh in
    (
      player,
      ap (λ (r : Room). r.players) entered,
      refl,
      (
        readied room empty object socket name credential fresh validate deck legal,
        ap (handle_update_deck validate (some deck) player) entered
            ∙ update_deck-first room empty object socket name credential fresh validate deck legal,
        (
          readied_with deck player,
          refl,
          refl,
          try_start-first room empty object socket name credential fresh validate deck legal,
        ),
      ),
    )
