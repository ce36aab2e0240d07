-- ===== src/ReservedDuel/Tests.antt =====
-- A reserved duel of two users, who are to bring the decks registered for them.
use edopro_server_ts.Prelude.{◌≡◌, ◌↔◌, refl, none, some, true, false, List, [], ◌∷◌, find?}
use edopro_server_ts.Prelude.Eq.{◌==◌, nat_eq}
use edopro_server_ts.Prelude.Counts.{tally}
use edopro_server_ts.ReservedDuel.{
  Reservation, RequiredDeck, UserParticipant, user, exact, registered, single, ReservedDuelAbandon,
  disconnect,
}
use edopro_server_ts.ReservedDuel.DeckLock.{
  deck_honours_lock, same_multiset, HonoursLock, deck_honours_lock_iff,
}
use edopro_server_ts.ReservedDuel.Session.{
  new_session, users, no_show_seat, accepts_deck, required_of, mark_started, mark_game_over, close,
  started, release, abandoned,
}
use edopro_server_ts.ReservedDuel.Session.Seats.{
  IsBlame, no_show_seat_blames, Meets, accepts_deck_iff,
}
use edopro_server_ts.ReservedDuel.Session.Outcome.{
  RoomCall, start, game_over, tear_down, make_all, starts, closings, first_start, ending_of,
  until_tear_down, session_outcome,
}

abbrev three_cards : RequiredDeck
three_cards = record { main = 10 ∷ 20 ∷ 10 ∷ []; extra = []; side = 30 ∷ [] }

abbrev sided : RequiredDeck
sided = record { main = 30 ∷ 10 ∷ 10 ∷ []; extra = []; side = 20 ∷ [] }

abbrev duel : Reservation
duel = record {
  id = "0123456789abcdef";
  format = "tcg";
  mode = single;
  participants =
      user (record { seat = 0; user_id = "zane"; required_deck = some three_cards })
      ∷ user (record { seat = 1; user_id = "aster"; required_deck = none })
      ∷ [];
  options = record {
    spectators = true;
    listed = false;
    reconnect = true;
    deck_lock = registered;
    lobby_timeout_seconds = 120;
  };
}

abbrev left_early : ReservedDuelAbandon
left_early = record { seat = some 1; reason = disconnect; started = none }

sided-registered : deck_honours_lock registered three_cards sided ≡ true
unfolding deck_honours_lock same_multiset tally
sided-registered = refl

sided-exact : deck_honours_lock exact three_cards sided ≡ false
unfolding deck_honours_lock same_multiset tally
sided-exact = refl

deck_honours_lock_iff_example :
    (deck_honours_lock registered three_cards sided ≡ true)
    ↔ HonoursLock registered three_cards sided
deck_honours_lock_iff_example = deck_honours_lock_iff registered three_cards sided

accepts_deck_iff_example :
    (accepts_deck duel 0 sided ≡ true)
    ↔ Meets duel (required_of (find? (λ (u : UserParticipant). u.seat == 0) (users duel))) sided
accepts_deck_iff_example = accepts_deck_iff duel 0 sided

no_show_seat_blames_example :
    IsBlame (0 ∷ 1 ∷ []) (0 ∷ []) (users duel) (no_show_seat duel (0 ∷ 1 ∷ []) (0 ∷ []))
no_show_seat_blames_example = no_show_seat_blames duel (0 ∷ 1 ∷ []) (0 ∷ [])

no_show_seat-unready : no_show_seat duel (0 ∷ 1 ∷ []) (0 ∷ []) ≡ some 1
unfolding no_show_seat
no_show_seat-unready = refl

abbrev quits : List RoomCall
quits = start "m1" ∷ tear_down left_early ∷ game_over ∷ tear_down left_early ∷ []

session_outcome_example :
    (starts (make_all quits (new_session duel)) ≡ first_start duel.id quits)
    × (closings (make_all quits (new_session duel))
        ≡ ending_of duel.id false false (until_tear_down quits))
session_outcome_example = session_outcome duel quits

quits-calls :
    (make_all quits (new_session duel)).calls
    ≡ started duel.id "m1"
      ∷ abandoned duel.id (record { seat = some 1; reason = disconnect; started = some true })
      ∷ release duel.id
      ∷ []
unfolding mark_started mark_game_over close
quits-calls = refl
