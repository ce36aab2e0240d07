-- ===== src/Rooms/InOrder.antt =====
-- What is true of every room with one seat a team, whichever events it has seen: the seats are in
-- order, the state object is the one of the label, and past the lobby both sides are there.
pub mod Lobby
pub mod Admission
pub mod Match
pub mod Phases
pub mod Endings
pub mod Connections
use edopro_server_ts.Prelude.{
  ℕ, ◌+◌, ◌≤◌, ◌≡◌, refl, sym, subst, ap, ◌∙◌, ◌⊎◌, inl, inr, Option, none, some, Bool, true, false,
  List, map, All, count_if, nat_eqb, arith, Bool-cases,
}
use edopro_server_ts.Prelude.Marks.{count_if-map}
use edopro_server_ts.ReservedDuel.{ReservationParticipant, user, windbot}
use edopro_server_ts.ReservedDuel.Session.{ReservedDuelSession}
use edopro_server_ts.Rooms.{
  Room, RoomState, DuelState, waiting_state, rps_state, choosing_order_state, dueling_state,
  side_decking_state, waiting_label, rps_label, choosing_order_label, dueling_label,
  side_decking_label, change,
}
use edopro_server_ts.Rooms.Clients.{YgoClient}
use edopro_server_ts.Rooms.Lobby.{add_spectator_unsafe}
use edopro_server_ts.Rooms.WellSeated.{
  WellSeated, KeepsPlace, change_if-KeepsPlace, players-keep, spectators-keep, spectator-joins,
  InStands, is_object,
}

abbrev pub label_of : RoomState → DuelState
label_of waiting_state = waiting_label
label_of (rps_state _ _) = rps_label
label_of choosing_order_state = choosing_order_label
label_of dueling_state = dueling_label
label_of side_decking_state = side_decking_label

abbrev pub is_of_team : ℕ → YgoClient → Bool
is_of_team team client = nat_eqb client.team team

abbrev pub BothTeams : List YgoClient → Type 0
BothTeams players = (1 ≤ count_if (is_of_team 0) players) × (1 ≤ count_if (is_of_team 1) players)

-- The source's type of a seat, `0 | 1`.
abbrev pub HasTeamSeat : ReservationParticipant → Type 0
HasTeamSeat (user u) = u.seat ≤ 1
HasTeamSeat (windbot b) = b.seat ≤ 1

abbrev pub HasTeamSeats : Option ReservedDuelSession → Type 0
HasTeamSeats none = Unit
HasTeamSeats (some session) = All HasTeamSeat session.reservation.participants

pub record InOrder (room : Room) : Type 0 where
  pub one_each : (room.team0 ≡ 1) × (room.team1 ≡ 1)
  pub well : WellSeated 1 1 room.players room.spectators
  pub coherent : label_of room.room_state ≡ room.duel_state
  pub both : (room.room_state ≡ waiting_state) ⊎ BothTeams room.players
  pub reserved : HasTeamSeats room.reserved_duel

-- What the order depends on is the same of both rooms.
abbrev pub SameOrder : Room → Room → Type 0
SameOrder a b =
    (a.team0 ≡ b.team0)
    × (a.team1 ≡ b.team1)
    × (a.players ≡ b.players)
    × (a.spectators ≡ b.spectators)
    × (a.room_state ≡ b.room_state)
    × (a.duel_state ≡ b.duel_state)
    × (a.reserved_duel ≡ b.reserved_duel)

pub SameOrder-InOrder : (a b : Room) → SameOrder b a → InOrder a → InOrder b
SameOrder-InOrder a b (t0, t1, p, s, r, d, v) o = record {
  one_each = (t0 ∙ o.one_each.0, t1 ∙ o.one_each.1);
  well =
      subst (λ ps. WellSeated 1 1 ps b.spectators) (sym p)
        (subst (λ ss. WellSeated 1 1 a.players ss) (sym s) o.well);
  coherent = ap label_of r ∙ o.coherent ∙ sym d;
  both = elim o.both [
    | inl waits ↦ inl (r ∙ waits)
    | inr here ↦ inr (subst BothTeams (sym p) here)
  ];
  reserved = subst HasTeamSeats (sym v) o.reserved;
}

pub BothTeams-keep :
    (f : YgoClient → YgoClient)
    → KeepsPlace f
    → (players : List YgoClient) → BothTeams players
    → BothTeams (map f players)
BothTeams-keep f keeps players (one, other) =
    let team_kept = λ (team : ℕ).
      count_if-map (is_of_team team) (is_of_team team) f (λ c. ap (λ t. nat_eqb t team) (keeps c).2)
        players in
    (omega (arith, one, team_kept 0), omega (arith, other, team_kept 1))

module _ {room : Room} (o : InOrder room) where
  open o use {one_each, well, coherent, both, reserved}

  -- In the lobby only the seats matter.
  pub in_lobby :
      {players spectators : List YgoClient}
      → room.room_state ≡ waiting_state
      → WellSeated 1 1 players spectators
      → InOrder (record room { players = players; spectators = spectators })
  in_lobby waits w = record {
    one_each = one_each;
    well = w;
    coherent = coherent;
    both = inl waits;
    reserved = reserved;
  }

  -- The players keep their places, and so do the spectators.
  pub kept-InOrder :
      (f g : YgoClient → YgoClient)
      → KeepsPlace f
      → KeepsPlace g
      → InOrder (record room { players = map f room.players; spectators = map g room.spectators })
  kept-InOrder f g keeps_f keeps_g = record {
    one_each = one_each;
    well = spectators-keep (players-keep well f keeps_f) g keeps_g;
    coherent = coherent;
    both = elim both [
      | inl waits ↦ inl waits
      | inr here ↦ inr (BothTeams-keep f keeps_f room.players here)
    ];
    reserved = reserved;
  }

  pub players-kept-InOrder :
      (f : YgoClient → YgoClient)
      → KeepsPlace f
      → InOrder (record room { players = map f room.players })
  players-kept-InOrder f keeps = record {
    one_each = one_each;
    well = players-keep well f keeps;
    coherent = coherent;
    both = elim both [
      | inl waits ↦ inl waits
      | inr here ↦ inr (BothTeams-keep f keeps room.players here)
    ];
    reserved = reserved;
  }

  pub stands-InOrder :
      {spectators : List YgoClient}
      → WellSeated 1 1 room.players spectators
      → InOrder (record room { spectators = spectators })
  stands-InOrder w = record {
    one_each = one_each;
    well = w;
    coherent = coherent;
    both = both;
    reserved = reserved;
  }

  pub change-InOrder :
      (object : ℕ) (f : YgoClient → YgoClient) → KeepsPlace f → InOrder (change object f room)
  change-InOrder object f keeps =
      let changed = change_if-KeepsPlace (is_object object) f keeps in
      kept-InOrder _ _ changed changed

  -- The room passes to the state and its label, in the lobby or with both sides there.
  pub enter-InOrder :
      (state : RoomState) (label : DuelState)
      → label_of state ≡ label
      → BothTeams room.players
      → InOrder (record room { duel_state = label; room_state = state })
  enter-InOrder state label e here = record {
    one_each = one_each;
    well = well;
    coherent = e;
    both = inr here;
    reserved = reserved;
  }

  pub watch-InOrder :
      (spectator : YgoClient)
      → (count_if (is_object spectator.object) room.players ≡ 0)
        × (count_if (is_object spectator.object) room.spectators ≡ 0)
      → InStands spectator
      → InOrder (add_spectator_unsafe spectator room)
  watch-InOrder spectator new stands = record {
    one_each = one_each;
    well = spectator-joins well spectator new stands;
    coherent = coherent;
    both = both;
    reserved = reserved;
  }
