-- ===== src/Rooms/Hands.antt =====
-- RPS between the captains: `handleRPSChoice` and `getRPSWinner` of
-- ygopro/room/domain/states/YGOProRockPaperScissorState.ts.
use edopro_server_ts.Prelude.{
  ℕ, ◌≤◌, ◌<◌, ◌≡◌, ◌≢◌, refl, sym, subst, ap, ◌∙◌, ◌⊎◌, inl, inr, Option, none, some, Bool, true,
  false, ◌&&◌, ◌||◌, count_if, nat_eqb, arith, if◌then◌else◌, Bool-cases,
}
use mathlib.Core.List.{Memᴰ}
use edopro_server_ts.Rooms.{
  Room, rps_state, choosing_order_state, first_of_team, dueling_state, side_decking_state,
  waiting_state,
}
use edopro_server_ts.Rooms.Clients.{YgoClient}
use edopro_server_ts.Rooms.Waiting.{to_rps, captains}
use edopro_server_ts.Rooms.Phases.{get_rps_winner, handle_rps_choice, give_hand, show_hands, won_by}
use edopro_server_ts.Rooms.InOrder.{InOrder, BothTeams, is_of_team}
use edopro_server_ts.Rooms.TeamPlayers.{first_of_team-found}
use edopro_server_ts.Rooms.InOrder.Phases.{both_past_lobby}

-- The hands 1, 2 and 3 in a circle.
pub data Beats : ℕ → ℕ → Type 0 where
  two_beats_one : Beats 2 1
  three_beats_two : Beats 3 2
  one_beats_three : Beats 1 3

abbrev beats_test : ℕ → ℕ → Bool
beats_test hand0 hand1 =
    (nat_eqb hand0 1 && nat_eqb hand1 2)
    || ((nat_eqb hand0 2 && nat_eqb hand1 3) || (nat_eqb hand0 3 && nat_eqb hand1 1))

Beats-test : {hand0 hand1 : ℕ} → Beats hand1 hand0 → beats_test hand0 hand1 ≡ true
Beats-test two_beats_one = refl
Beats-test three_beats_two = refl
Beats-test one_beats_three = refl

same_hands : {a b hand0 hand1 : ℕ} → hand0 ≡ b → hand1 ≡ a → Beats a b → Beats hand1 hand0
same_hands {a} {b} {hand0} {hand1} e f beats =
    subst (λ h. Beats hand1 h) (sym e) (subst (λ h. Beats h b) (sym f) beats)

test-Beats : (hand0 hand1 : ℕ) → beats_test hand0 hand1 ≡ true → Beats hand1 hand0
test-Beats hand0 hand1 h = elim (which h) [
  | inl (inl (e, f)) ↦ same_hands e f two_beats_one
  | inl (inr (e, f)) ↦ same_hands e f three_beats_two
  | inr (e, f) ↦ same_hands e f one_beats_three
]
  where
    which :
        beats_test hand0 hand1 ≡ true
        → (((hand0 ≡ 1) × (hand1 ≡ 2)) ⊎ ((hand0 ≡ 2) × (hand1 ≡ 3))) ⊎ ((hand0 ≡ 3) × (hand1 ≡ 1))
    which h = ground arith

-- Team 1 wins exactly when its hand beats that of team 0. Team 0 wins in every other case: with a hand
-- that beats, on equal hands, and whenever a hand is none of 1, 2 and 3.
get_rps_winner_iff :
    (hand0 hand1 : ℕ)
    → ((get_rps_winner hand0 hand1 ≡ 1) × Beats hand1 hand0)
      ⊎ ((get_rps_winner hand0 hand1 ≡ 0) × (Beats hand1 hand0 → ⊥))
unfolding get_rps_winner
get_rps_winner_iff hand0 hand1 = elim (Bool-cases (beats_test hand0 hand1)) [
  | inl h ↦ inl (rw h refl, test-Beats hand0 hand1 h)
  | inr h ↦ inr (rw h refl, λ beats. absurd (ground (arith, h, Beats-test beats)))
]

-- The hands after one more.
abbrev pub hands_with : ℕ → ℕ → ℕ → ℕ → ℕ × ℕ
hands_with team res hand0 hand1 = if nat_eqb team 0 then (res, hand1) else (hand0, res)

-- How RPS goes on from two hands.
abbrev pub Settled : ℕ → ℕ → Room → Room → Type 0
Settled a b room after =
    ((a ≡ b) × (after.room_state ≡ rps_state 0 0))
    ⊎ ((a ≢ b)
        × (after.room_state ≡ choosing_order_state)
        × ((chooser : YgoClient) × (after.client_who_chooses_turn ≡ some chooser.object)
            × Memᴰ chooser room.players
            × (chooser.team ≡ get_rps_winner a b)))

to_rps-state : (room : Room) → (to_rps room).room_state ≡ room.room_state
unfolding to_rps
to_rps-state room = captains-state (first_of_team 0 room) (first_of_team 1 room)
  where
    captains-state : (a b : Option YgoClient) → (captains a b room).room_state ≡ room.room_state
    captains-state (some a) (some b) = refl
    captains-state (some a) none = refl
    captains-state none b = refl

abbrev Won : ℕ → ℕ → Room → Option YgoClient → Type 0
Won a b shown winner =
    ((won_by winner shown).room_state ≡ choosing_order_state)
    × ((chooser : YgoClient) × ((won_by winner shown).client_who_chooses_turn ≡ some chooser.object)
        × Memᴰ chooser shown.players
        × (chooser.team ≡ get_rps_winner a b))

show_hands-Settled :
    (a b : ℕ) (room : Room)
    → a ≢ 0
    → b ≢ 0
    → BothTeams room.players
    → Settled a b room (show_hands a b room)
show_hands-Settled a b room some_a some_b (one, other) =
    elim (Bool-cases (nat_eqb a 0 || nat_eqb b 0)) [
      | inl absent ↦ absurd (ground arith)
      | inr both ↦ rw both (elim (Bool-cases (nat_eqb a b)) [
        | inl tie ↦ rw tie (inl (ground arith, to_rps-state _))
        | inr apart ↦ rw apart (inr (λ e. absurd (ground arith), won.0, won.1))
      ])
    ]
  where
    shown : Room
    shown = record room { room_state = rps_state a b }

    won_by_team :
        (team : ℕ)
        → get_rps_winner a b ≡ team
        → 1 ≤ count_if (is_of_team team) room.players
        → Won a b shown (first_of_team (get_rps_winner a b) shown)
    won_by_team team e some_ =
        let (c, first, here, of_team) = first_of_team-found team shown some_ in
        let found : first_of_team (get_rps_winner a b) shown ≡ some c =
          ap (λ t. first_of_team t shown) e ∙ first in
        subst (Won a b shown) (sym found) (refl, (c, refl, here, of_team ∙ sym e))

    won : Won a b shown (first_of_team (get_rps_winner a b) shown)
    won = elim (get_rps_winner_iff a b) [
      | inl (e, _) ↦ won_by_team 1 e other
      | inr (e, _) ↦ won_by_team 0 e one
    ]

-- In RPS, in a room in order (as every room is that the events lead to), a captain whose hand is given
-- after the other team's, both of them not 0, ends the round: equal hands begin it again, and of
-- different ones the winner's first player, who is there, is to choose the order of the duel.
pub rps_settles :
    (room : Room) (hand0 hand1 res : ℕ) (player : YgoClient)
    → InOrder room
    → room.room_state ≡ rps_state hand0 hand1
    → player.is_captain ≡ true
    → player.team < 2
    → (let hands = hands_with player.team res hand0 hand1 in (hands.0 ≢ 0) × (hands.1 ≢ 0))
    → let hands = hands_with player.team res hand0 hand1 in
      Settled hands.0 hands.1 room (handle_rps_choice res player room)
unfolding handle_rps_choice
rps_settles room hand0 hand1 res player o in_rps leads side (some0, some1) = rw leads (
    subst
      (λ state.
        Settled (hands_with player.team res hand0 hand1).0
          (hands_with player.team res hand0 hand1).1 room
          (elim state [
            | rps_state a b ↦ give_hand player.team res a b room
            | waiting_state ↦ room
            | choosing_order_state ↦ room
            | dueling_state ↦ room
            | side_decking_state ↦ room
          ]))
      (sym in_rps) given)
  where
    there : BothTeams room.players
    there = both_past_lobby o (λ waits. cc)

    hands_if : Bool → ℕ × ℕ
    hands_if first = if first then (res, hand1) else (hand0, res)

    by_team :
        (first second : Bool)
        → (first ≡ false → second ≡ true)
        → (hands_if first).0 ≢ 0
        → (hands_if first).1 ≢ 0
        → Settled (hands_if first).0 (hands_if first).1 room (
            if first
            then show_hands res hand1 room
            else (if second then show_hands hand0 res room else room))
    by_team true second h some_a some_b = show_hands-Settled res hand1 room some_a some_b there
    by_team false true h some_a some_b = show_hands-Settled hand0 res room some_a some_b there
    by_team false false h some_a some_b = let clash : false ≡ true = h refl in absurd cc

    given :
        Settled
          (hands_with player.team res hand0 hand1).0
          (hands_with player.team res hand0 hand1).1
          room
          (give_hand player.team res hand0 hand1 room)
    given = by_team (nat_eqb player.team 0) (nat_eqb player.team 1) (λ h. ground arith) some0 some1
