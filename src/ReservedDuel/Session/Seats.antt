-- ===== src/ReservedDuel/Session/Seats.antt =====
-- Which seat a reserved duel blames when nobody shows up, and which decks its seats accept.
use edopro_server_ts.Prelude.{
  ℕ, ◌≡◌, refl, ◌↔◌, ◌⊎◌, inl, inr, Option, none, some, true, false, List, ◌∷◌, ◌++◌, All, All-map,
  arith, find?, first_match,
}
use edopro_server_ts.Prelude.Eq.{◌==◌, nat_eq, contains}
use edopro_server_ts.ReservedDuel.{Reservation, RequiredDeck, UserParticipant}
use edopro_server_ts.ReservedDuel.DeckLock.{HonoursLock, deck_honours_lock_iff, deck_honours_lock}
use edopro_server_ts.ReservedDuel.Session.{
  users, is_missing, no_show_seat, required_of, accepts_deck,
}

-- The user's seat is among the seats.
abbrev pub IsIn : List ℕ → UserParticipant → Type 0
IsIn seats u = contains u.seat seats ≡ true

-- The first of the users whose seat is not among the seats has this seat.
abbrev pub IsFirstMissing : List ℕ → List UserParticipant → ℕ → Type 0
IsFirstMissing seats us seat =
    (before : List UserParticipant) × (u : UserParticipant) × (after : List UserParticipant) × (us
      ≡ before ++ u ∷ after)
    × All (IsIn seats) before
    × (contains u.seat seats ≡ false)
    × (u.seat ≡ seat)

-- What is said of the blame for a lobby that timed out.
abbrev pub IsBlame : List ℕ → List ℕ → List UserParticipant → Option ℕ → Type 0
IsBlame seated ready us none = All (IsIn seated) us × All (IsIn ready) us
IsBlame seated ready us (some seat) =
    IsFirstMissing seated us seat ⊎ (All (IsIn seated) us × IsFirstMissing ready us seat)

search :
    (seats : List ℕ) (us : List UserParticipant)
    → ((find? (is_missing seats) us ≡ none) × All (IsIn seats) us)
      ⊎ ((u : UserParticipant) × (find? (is_missing seats) us ≡ some u)
          × IsFirstMissing seats us u.seat)
search seats us = elim (first_match (is_missing seats) us) [
  | inl (found, present) ↦ inl (found, All-map _ (IsIn seats) (λ u h. ground (arith, h)) us present)
  | inr (before, u, after, found, split, present, missing) ↦ inr (
    u,
    found,
    (
      before,
      u,
      after,
      split,
      All-map _ (IsIn seats) (λ v h. ground (arith, h)) before present,
      ground (arith, missing),
      refl,
    ),
  )
]

-- Nobody is blamed exactly when every user sat down and readied. Otherwise the seat is that of the
-- first user who never sat down or, when all of them did, of the first who never readied.
pub no_show_seat_blames :
    (r : Reservation) (seated ready : List ℕ)
    → IsBlame seated ready (users r) (no_show_seat r seated ready)
unfolding no_show_seat
no_show_seat_blames r seated ready = elim (search seated (users r)) [
  | inr (u, found, first) ↦ rw (found, no_show_seat) (inl first)
  | inl (found, present) ↦ elim (search ready (users r)) [
    | inl (found', readied) ↦ rw (found, found', no_show_seat) (present, readied)
    | inr (u, found', first) ↦ rw (found, found', no_show_seat) (inr (present, first))
  ]
]

-- A deck that a seat may be required to bring.
abbrev pub Meets : Reservation → Option RequiredDeck → RequiredDeck → Type 0
Meets r none deck = Unit
Meets r (some required) deck = HonoursLock r.options.deck_lock required deck

-- A seat accepts a deck exactly when it has no required deck, or the deck honours the lock of the
-- reservation on the one it has.
pub accepts_deck_iff :
    (r : Reservation) (seat : ℕ) (deck : RequiredDeck)
    → (accepts_deck r seat deck ≡ true)
      ↔ Meets r (required_of (find? (λ (u : UserParticipant). u.seat == seat) (users r))) deck
unfolding accepts_deck
accepts_deck_iff r seat deck =
    elim (required_of (find? (λ (u : UserParticipant). u.seat == seat) (users r)))
      as (λ required.
        (elim required [ none ↦ true | some d ↦ deck_honours_lock r.options.deck_lock d deck ]
          ≡ true)
        ↔ Meets r required deck) [
          | none ↦ (λ _. tt, λ _. refl)
          | some required ↦ deck_honours_lock_iff r.options.deck_lock required deck
        ]
