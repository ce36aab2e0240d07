-- ===== src/ReservedDuel/Session/Outcome.antt =====
-- What a reserved duel reports to its recorder over the life of its room.
use mathlib.Core.List.{append-nil}
use edopro_server_ts.Prelude.{
  ◌≡◌, refl, sym, ap, ◌∙◌, String, Option, none, some, Bool, true, false, not, ◌||◌, List, [], ◌∷◌,
  ◌++◌, filter, any, if◌then◌else◌, Bool-cases, inl, inr,
}
use edopro_server_ts.ReservedDuel.{Reservation, ReservedDuelAbandon}
use edopro_server_ts.ReservedDuel.Session.{
  RecorderCall, started, abandoned, release, ReservedDuelSession, new_session, mark_started,
  mark_game_over, close, as_started,
}

-- A call that the room makes of its session.
pub data RoomCall : Type 0 where
  start : String → RoomCall
  game_over : RoomCall
  tear_down : ReservedDuelAbandon → RoomCall

abbrev pub make : RoomCall → ReservedDuelSession → ReservedDuelSession
make (start match_id) s = mark_started match_id s
make game_over s = mark_game_over s
make (tear_down abandon) s = close abandon s

abbrev pub make_all : List RoomCall → ReservedDuelSession → ReservedDuelSession
make_all [] s = s
make_all (c ∷ cs) s = make_all cs (make c s)

abbrev pub is_start : RoomCall → Bool
is_start (start _) = true
is_start game_over = false
is_start (tear_down _) = false

abbrev pub is_game_over : RoomCall → Bool
is_game_over (start _) = false
is_game_over game_over = true
is_game_over (tear_down _) = false

abbrev pub is_started_call : RecorderCall → Bool
is_started_call (started _ _) = true
is_started_call (abandoned _ _) = false
is_started_call (release _) = false

abbrev pub is_closing_call : RecorderCall → Bool
is_closing_call c = not (is_started_call c)

-- The first start among the calls, as it is to be recorded.
abbrev pub first_start : String → List RoomCall → List RecorderCall
first_start id [] = []
first_start id (start match_id ∷ cs) = started id match_id ∷ []
first_start id (game_over ∷ cs) = first_start id cs
first_start id (tear_down _ ∷ cs) = first_start id cs

-- The calls before the first tear-down, and its argument.
abbrev pub until_tear_down : List RoomCall → Option (List RoomCall × ReservedDuelAbandon)
until_tear_down [] = none
until_tear_down (tear_down abandon ∷ cs) = some ([], abandon)
until_tear_down (start match_id ∷ cs) = elim (until_tear_down cs) [
  | none ↦ none
  | some (before, abandon) ↦ some (start match_id ∷ before, abandon)
]
until_tear_down (game_over ∷ cs) = elim (until_tear_down cs) [
  | none ↦ none
  | some (before, abandon) ↦ some (game_over ∷ before, abandon)
]

-- How a duel that is torn down ends: an abandon unless there was a game over, marked as started if
-- it had started, and then the release.
abbrev pub ending : String → Bool → Bool → ReservedDuelAbandon → List RecorderCall
ending id was_over was_started abandon =
    (if was_over
      then []
      else abandoned id (if was_started then as_started abandon else abandon) ∷ [])
    ++ release id ∷ []

abbrev pub ending_of :
    String → Bool → Bool → Option (List RoomCall × ReservedDuelAbandon) → List RecorderCall
ending_of id was_over was_started none = []
ending_of id was_over was_started (some (before, abandon)) =
    ending id (was_over || any is_game_over before) (was_started || any is_start before) abandon

filter-append :
    (p : RecorderCall → Bool) (xs ys : List RecorderCall)
    → filter p (xs ++ ys) ≡ filter p xs ++ filter p ys
filter-append p [] ys = refl
filter-append p (x ∷ xs) ys = elim (Bool-cases (p x)) [
  | inl yes_p ↦ rw yes_p (ap (λ zs. x ∷ zs) (filter-append p xs ys))
  | inr no_p ↦ rw no_p (filter-append p xs ys)
]

abbrev pub closings : ReservedDuelSession → List RecorderCall
closings s = filter is_closing_call s.calls

abbrev pub starts : ReservedDuelSession → List RecorderCall
starts s = filter is_started_call s.calls

-- What the calls do to an open session.
after_start :
    (match_id : String) (s : ReservedDuelSession)
    → let t = mark_started match_id s in
      (t.reservation ≡ s.reservation)
      × (t.has_started ≡ true)
      × (t.has_game_over ≡ s.has_game_over)
      × (t.closed ≡ s.closed)
      × (closings t ≡ closings s)
      × (starts t
          ≡ starts s ++ (if s.has_started then [] else started s.reservation.id match_id ∷ []))
unfolding mark_started
after_start match_id s = elim (Bool-cases s.has_started) [
  | inl yes_started ↦ rw yes_started (refl, refl, refl, refl, refl, sym (append-nil (starts s)))
  | inr not_started ↦ rw not_started (
    refl,
    refl,
    refl,
    refl,
    filter-append is_closing_call s.calls (started s.reservation.id match_id ∷ [])
        ∙ append-nil (closings s),
    filter-append is_started_call s.calls (started s.reservation.id match_id ∷ []),
  )
]

after_close :
    (abandon : ReservedDuelAbandon) (s : ReservedDuelSession)
    → let t = close abandon s in
      (t.reservation ≡ s.reservation)
      × (t.has_started ≡ s.has_started)
      × (t.closed ≡ true)
      × (starts t ≡ starts s)
      × (closings t
          ≡ closings s
            ++ (if s.closed
                then []
                else ending s.reservation.id s.has_game_over s.has_started abandon))
unfolding close
after_close abandon s = elim (Bool-cases s.closed) [
  | inl shut ↦ rw shut (refl, refl, refl, refl, sym (append-nil (closings s)))
  | inr open_still ↦ elim (Bool-cases s.has_game_over) [
    | inl over ↦
        rw (open_still, over)
          (
            refl,
            refl,
            refl,
            filter-append is_started_call s.calls (released ∷ []) ∙ append-nil (starts s),
            filter-append is_closing_call s.calls (released ∷ []),
          )
    | inr not_over ↦
        rw (open_still, not_over)
          (
            refl,
            refl,
            refl,
            filter-append is_started_call s.calls (gave_up ∷ released ∷ []) ∙ append-nil (starts s),
            filter-append is_closing_call s.calls (gave_up ∷ released ∷ []),
          )
  ]
]
  where
    released : RecorderCall
    released = release s.reservation.id

    gave_up : RecorderCall
    gave_up = abandoned s.reservation.id (if s.has_started then as_started abandon else abandon)

-- No call of a closed session ends it again.
closings-closed :
    (cs : List RoomCall) (s : ReservedDuelSession)
    → s.closed ≡ true
    → closings (make_all cs s) ≡ closings s
unfolding mark_game_over
closings-closed [] s shut = refl
closings-closed (start match_id ∷ cs) s shut =
    let (_, _, _, c, same, _) = after_start match_id s in
    closings-closed cs (mark_started match_id s) (c ∙ shut) ∙ same
closings-closed (game_over ∷ cs) s shut = closings-closed cs (mark_game_over s) shut
closings-closed (tear_down abandon ∷ cs) s shut =
    let (_, _, c, _, same) = after_close abandon s in
    closings-closed cs (close abandon s) c ∙ same ∙ rw shut (append-nil (closings s))

ending_of-start :
    (id match_id : String) (over begun : Bool)
    (later : Option (List RoomCall × ReservedDuelAbandon))
    → ending_of id over begun (elim later [
      | none ↦ none
      | some (before, abandon) ↦ some (start match_id ∷ before, abandon)
    ])
      ≡ ending_of id over true later
ending_of-start id match_id over begun none = refl
ending_of-start id match_id over true (some (before, abandon)) = refl
ending_of-start id match_id over false (some (before, abandon)) = refl

ending_of-game_over :
    (id : String) (over begun : Bool) (later : Option (List RoomCall × ReservedDuelAbandon))
    → ending_of id over begun
        (elim later [ none ↦ none | some (before, abandon) ↦ some (game_over ∷ before, abandon) ])
      ≡ ending_of id true begun later
ending_of-game_over id over begun none = refl
ending_of-game_over id true begun (some (before, abandon)) = refl
ending_of-game_over id false begun (some (before, abandon)) = refl

ending_of-first :
    (id : String) (over begun : Bool) (abandon : ReservedDuelAbandon)
    → ending id over begun abandon ≡ ending_of id over begun (some ([], abandon))
ending_of-first id true true abandon = refl
ending_of-first id true false abandon = refl
ending_of-first id false true abandon = refl
ending_of-first id false false abandon = refl

closings-open :
    (cs : List RoomCall) (s : ReservedDuelSession)
    → s.closed ≡ false
    → closings (make_all cs s)
      ≡ closings s ++ ending_of s.reservation.id s.has_game_over s.has_started (until_tear_down cs)
unfolding mark_game_over
closings-open [] s opened = sym (append-nil (closings s))
closings-open (start match_id ∷ cs) s opened =
    let (r, b, o, c, same, _) = after_start match_id s in
    let later = closings-open cs (mark_started match_id s) (c ∙ opened) in
    let shifted =
      ending_of-start s.reservation.id match_id s.has_game_over s.has_started
        (until_tear_down cs) in
    cc
closings-open (game_over ∷ cs) s opened =
    closings-open cs (mark_game_over s) opened
    ∙ ap (λ e. closings s ++ e)
        (sym
          (ending_of-game_over s.reservation.id s.has_game_over s.has_started (until_tear_down cs)))
closings-open (tear_down abandon ∷ cs) s opened =
    let (_, _, c, _, same) = after_close abandon s in
    closings-closed cs (close abandon s) c
    ∙ same
    ∙ rw opened (
        ap (λ e. closings s ++ e)
          (ending_of-first s.reservation.id s.has_game_over s.has_started abandon))

starts-run :
    (cs : List RoomCall) (s : ReservedDuelSession)
    → starts (make_all cs s)
      ≡ starts s ++ (if s.has_started then [] else first_start s.reservation.id cs)
unfolding mark_game_over
starts-run [] s = elim (Bool-cases s.has_started) [
  | inl begun ↦ rw begun (sym (append-nil (starts s)))
  | inr waiting ↦ rw waiting (sym (append-nil (starts s)))
]
starts-run (start match_id ∷ cs) s =
    let (r, b, _, _, _, same) = after_start match_id s in
    starts-run cs (mark_started match_id s)
    ∙ rw b (append-nil (starts (mark_started match_id s)))
    ∙ same
starts-run (game_over ∷ cs) s = starts-run cs (mark_game_over s)
starts-run (tear_down abandon ∷ cs) s =
    let (r, b, _, same, _) = after_close abandon s in
    starts-run cs (close abandon s)
    ∙ rw (b, r)
        (ap (λ e. e ++ (if s.has_started then [] else first_start s.reservation.id cs)) same)

-- Whatever calls its room makes of it, a session records at most one start, with the match id of
-- the first; nothing else until the first tear-down; then the abandon that it names, unless there
-- was a game over before, marked as started when there was a start before; then one release, and
-- nothing but a start after that.
pub session_outcome :
    (r : Reservation) (cs : List RoomCall)
    → (starts (make_all cs (new_session r)) ≡ first_start r.id cs)
      × (closings (make_all cs (new_session r)) ≡ ending_of r.id false false (until_tear_down cs))
session_outcome r cs = (starts-run cs (new_session r), closings-open cs (new_session r) refl)
