-- ===== src/ReservedDuel/DeckLock.antt =====
-- DeckLock.ts: when a deck honours the deck its seat requires.
use mathlib.Core.List.{Perm}
use edopro_server_ts.Prelude.{
  ℕ, ◌≡◌, ◌↔◌, Bool, true, false, not, ◌&&◌, List, ◌++◌, length, arith, nat_eqb, if◌then◌else◌,
}
use edopro_server_ts.Prelude.Eq.{nat_eq}
use edopro_server_ts.Prelude.Counts.{tally, all_agree}
use edopro_server_ts.Prelude.Counts.Agree.{tally-perm_iff}
use edopro_server_ts.ReservedDuel.{RequiredDeck, DeckLockKind, exact, registered}

unfoldable pub same_multiset : List ℕ → List ℕ → Bool
same_multiset a b =
    if not (nat_eqb (length a) (length b)) then false else all_agree (tally a) (tally b)

abbrev pub all_cards : RequiredDeck → List ℕ
all_cards deck = deck.main ++ deck.extra ++ deck.side

unfoldable pub deck_honours_lock : DeckLockKind → RequiredDeck → RequiredDeck → Bool
unfolding same_multiset
deck_honours_lock registered required deck = same_multiset (all_cards required) (all_cards deck)
deck_honours_lock exact required deck =
    same_multiset required.main deck.main
    && same_multiset required.extra deck.extra
    && same_multiset required.side deck.side

pub same_multiset-perm_iff : (a b : List ℕ) → (same_multiset a b ≡ true) ↔ Perm a b
unfolding same_multiset
same_multiset-perm_iff a b = (
  λ h. (tally-perm_iff a b).0 (ground (arith, h), ground (arith, h)),
  λ p. let (l, h) = (tally-perm_iff a b).1 p in ground (arith, l, h),
)

-- What the lock promises of a deck: with `registered`, that its cards are those registered, in
-- whatever sections; with `exact`, that each section holds the required cards, in whatever order.
abbrev pub HonoursLock : DeckLockKind → RequiredDeck → RequiredDeck → Type 0
HonoursLock registered required deck = Perm (all_cards required) (all_cards deck)
HonoursLock exact required deck =
    Perm required.main deck.main × Perm required.extra deck.extra × Perm required.side deck.side

-- A deck passes the check exactly when it honours the lock: the comparison of the tallies decides
-- whether the card lists are permutations of one another.
pub deck_honours_lock_iff :
    (lock : DeckLockKind) (required deck : RequiredDeck)
    → (deck_honours_lock lock required deck ≡ true) ↔ HonoursLock lock required deck
unfolding deck_honours_lock
deck_honours_lock_iff registered required deck =
    same_multiset-perm_iff (all_cards required) (all_cards deck)
deck_honours_lock_iff exact required deck =
    let (main, main') = same_multiset-perm_iff required.main deck.main in
    let (extra, extra') = same_multiset-perm_iff required.extra deck.extra in
    let (side, side') = same_multiset-perm_iff required.side deck.side in
    (
      λ h. (main (ground (arith, h)), extra (ground (arith, h)), side (ground (arith, h))),
      λ (m, e, s). ground (arith, main' m, extra' e, side' s),
    )
