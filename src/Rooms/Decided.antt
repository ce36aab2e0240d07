-- ===== src/Rooms/Decided.antt =====
-- Two outcomes of a YGOPro room: the move that wraps around, and a match that one side abandons between
-- its duels.
use edopro_server_ts.Prelude.{
  ℕ, suc, ◌+◌, ◌≤◌, ◌≡◌, refl, ap, ◌⊎◌, inl, inr, some, Bool, true, false, not, ◌||◌, subst, List,
  [], map, filter, ltb, arith, if◌then◌else◌,
}
use edopro_server_ts.RoomMatch.{Match, PlayerConnection, forfeit, is_finished}
use edopro_server_ts.RoomMatch.Score.{IsValid}
use edopro_server_ts.RoomMatch.Forfeit.{forfeit_decides, score_of, score_against, missing_wins}
use edopro_server_ts.Rooms.{Room}
use edopro_server_ts.Rooms.Clients.{YgoClient}
use edopro_server_ts.Rooms.Seats.{first_of, next_available_position}
use edopro_server_ts.Rooms.FreeSeats.{IsSeat, the_seat}
use edopro_server_ts.Rooms.FreeSeats.Next.{free_positions, next_available_position-wraps}
use edopro_server_ts.Rooms.Endings.{
  resolve, finalize, is_match_finished, has_played, other_team, match_forfeit, connection_of,
  map_some,
}
use edopro_server_ts.Rooms.Lobby.{is_between_duels}

-- In a room whose first team has its seats all taken, a player above whom no seat is free, when it asks
-- for another cell, is given a seat of the second team as one of the first: the seat is not its team's.
pub wrapped_move-mislabels :
    (team0 team1 position q : ℕ) (players : List YgoClient)
    → first_of (free_positions (suc team0) team1 players) ≡ some q
    → filter (ltb position) (free_positions (suc team0) team1 players) ≡ []
    → suc team0 ≤ q
    → (next_available_position (suc team0) team1 players position ≡ some (the_seat q 0))
      × (IsSeat (suc team0) team1 q 0 → ⊥)
wrapped_move-mislabels team0 team1 position q players first no_higher taken =
    (next_available_position-wraps team0 team1 position q players first no_higher, not_seat)
  where
    not_seat : IsSeat (suc team0) team1 q 0 → ⊥
    not_seat (inl (_, low)) = absurd (omega (arith, taken, low))
    not_seat (inr (clash, _, _)) = absurd (omega (arith, clash))

-- Team 0 and team 1, either way round.
abbrev pub AreOpponents : ℕ → ℕ → Type 0
AreOpponents team stayer = ((team ≡ 0) × (stayer ≡ 1)) ⊎ ((team ≡ 1) × (stayer ≡ 0))

-- The room closed, and the match as it was, or decided for the team that stayed.
abbrev pub AbandonEnding : ℕ → Room → Match → Room → Type 0
AbandonEnding stayer room m after =
    (after.finalizing ≡ true)
    × (((has_played room ≡ false) × (after.match_of ≡ some m))
        ⊎ ((has_played room ≡ true)
            × ((decided : Match) × (after.match_of ≡ some decided)
                × (is_finished decided ≡ true)
                × (score_of stayer decided ≡ score_of stayer m + missing_wins stayer m)
                × (score_against stayer decided ≡ score_against stayer m))))

-- The branch of `resolve` that is taken.
resolved :
    (P : Room → Type 0) (room unplayed awarded : Room) (finalizing finished between played : Bool)
    → finalizing ≡ false
    → finished ≡ false
    → between ≡ true
    → (played ≡ false → P unplayed)
    → (played ≡ true → P awarded)
    → P (
        if finalizing || (finished || not between)
        then room
        else (if not played then unplayed else (if finalizing || finished then room else awarded)))
resolved P room unplayed awarded true finished between played e f g x y = absurd cc
resolved P room unplayed awarded false true between played e f g x y = absurd cc
resolved P room unplayed awarded false false false played e f g x y = absurd cc
resolved P room unplayed awarded false false true false e f g x y = x refl
resolved P room unplayed awarded false false true true e f g x y = y refl

once_open :
    (P : Room → Type 0) (room closed : Room) (finalizing : Bool)
    → finalizing ≡ false
    → P closed
    → P (if finalizing then room else closed)
once_open P room closed true e p = absurd cc
once_open P room closed false e p = p

-- In a room that is not closing yet, between the duels of a well-formed match that is not over, the
-- abandon of one team closes the room. When no duel was played the match stays as it is; otherwise it
-- is over, the opposing team, which stayed, is awarded the wins it lacks, and the score of the team
-- that left is unchanged.
pub abandon_decides :
    (team stayer : ℕ) (room : Room) (m : Match)
    → AreOpponents team stayer
    → room.finalizing ≡ false
    → is_match_finished room ≡ false
    → is_between_duels room ≡ true
    → room.match_of ≡ some m
    → IsValid m
    → AbandonEnding stayer room m (resolve team room)
unfolding resolve finalize
abandon_decides team stayer room m opponents open_ unfinished between e valid =
    resolved (AbandonEnding stayer room m) room _ _ room.finalizing (is_match_finished room)
      (is_between_duels room) (has_played room) open_ unfinished between
      (λ unplayed.
        once_open (AbandonEnding stayer room m) _ _ room.finalizing open_ (refl, inl (unplayed, e)))
      (λ played.
        once_open (AbandonEnding stayer room m) _ _ room.finalizing open_
          (refl, inr (played, subst Awarded stays won)))
  where
    stays : other_team team ≡ stayer
    stays = ground (arith, opponents)

    ips : List PlayerConnection
    ips = map connection_of room.players

    Awarded : ℕ → Type 0
    Awarded side =
        (d : Match) × ((match_forfeit (other_team team) room).match_of ≡ some d)
        × (is_finished d ≡ true)
        × (score_of side d ≡ score_of side m + missing_wins side m)
        × (score_against side d ≡ score_against side m)

    won : Awarded (other_team team)
    won =
        let winner = other_team team in
        let (over, _, score, other) =
          forfeit_decides winner ips m valid (ground (arith, opponents)) in
        (
          (forfeit winner ips m).0,
          ap (map_some (λ n. (forfeit winner ips n).0)) e,
          over,
          score,
          other,
        )
