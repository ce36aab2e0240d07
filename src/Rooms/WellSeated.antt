-- ===== src/Rooms/WellSeated.antt =====
-- The seats of a room in order: what the lists of shared/room/domain/YgoRoom.ts keep, and how they
-- keep it when a client comes, goes or moves.
mod Seating
pub mod Moves
use edopro_server_ts.Prelude.{
  ℕ, ◌+◌, ◌≤◌, ◌<◌, ◌≡◌, refl, sym, subst, ap, ◌∙◌, ◌⊎◌, inl, inr, Bool, true, false, not, ◌&&◌,
  ◌||◌, List, [], ◌∷◌, ◌++◌, map, filter, All, All-map, All-append, count_if, count_if-append,
  nat_eqb, arith, if◌then◌else◌, Bool-cases,
}
use edopro_server_ts.Prelude.Marks.{
  count_if-filter, count_if-dropped, count_if-le-sum, count_if-Mem, count_if-none_iff, count_if-map,
  All-filter, All-Mem, All-mapped,
}
use edopro_server_ts.Rooms.{change_in}
use edopro_server_ts.Rooms.Clients.{YgoClient}
use edopro_server_ts.Rooms.Seats.{Seat}
use edopro_server_ts.Rooms.FreeSeats.{IsSeat, Seated, sits_at, IsFree}

abbrev pub is_object : ℕ → YgoClient → Bool
is_object object client = nat_eqb client.object object

abbrev pub is_host : YgoClient → Bool
is_host client = client.host

-- A spectator is of the third team and never the host.
abbrev pub InStands : YgoClient → Type 0
InStands client = (client.team ≡ 3) × (client.host ≡ false)

-- Every player sits on a seat of its team, no two on one; no client object stands twice in the room;
-- and at most one player is the host.
pub record WellSeated (team0 team1 : ℕ) (players spectators : List YgoClient) : Type 0 where
  pub seated : All (Seated team0 team1) players
  pub in_stands : All InStands spectators
  pub apart : (q : ℕ) → count_if (sits_at q) players ≤ 1
  pub once :
      (object : ℕ)
      → count_if (is_object object) players + count_if (is_object object) spectators ≤ 1
  pub one_host : count_if is_host players ≤ 1

-- What the seats depend on is the same of both clients.
abbrev pub SamePlace : YgoClient → YgoClient → Type 0
SamePlace a b =
    (a.object ≡ b.object) × (a.position ≡ b.position) × (a.team ≡ b.team) × (a.host ≡ b.host)

abbrev pub KeepsPlace : (YgoClient → YgoClient) → Type 0
KeepsPlace f = (c : YgoClient) → SamePlace (f c) c

pub change_if-KeepsPlace :
    (test : YgoClient → Bool) (f : YgoClient → YgoClient)
    → KeepsPlace f
    → KeepsPlace (λ c. if test c then f c else c)
change_if-KeepsPlace test f keeps c = elim (Bool-cases (test c)) [
  | inl here ↦ rw here (keeps c)
  | inr elsewhere ↦ rw elsewhere (refl, refl, refl, refl)
]

SamePlace-Seated :
    (team0 team1 : ℕ) (a b : YgoClient)
    → SamePlace a b
    → Seated team0 team1 b
    → Seated team0 team1 a
SamePlace-Seated team0 team1 a b (o, p, t, h) (inl (zero_, low)) =
    inl (t ∙ zero_, omega (arith, p, low))
SamePlace-Seated team0 team1 a b (o, p, t, h) (inr (one, mid, top)) =
    inr (t ∙ one, omega (arith, p, mid), omega (arith, p, top))

one_more :
    (p : YgoClient → Bool) (client : YgoClient) (n : ℕ)
    → (p client ≡ true → n ≡ 0)
    → n ≤ 1
    → n + count_if p (client ∷ []) ≤ 1
one_more p client n h le = elim (Bool-cases (p client)) [
  | inl marked ↦ ground (arith, marked, h)
  | inr unmarked ↦ ground (arith, unmarked)
]

module _ {team0 team1 : ℕ} {players spectators : List YgoClient}
    (w : WellSeated team0 team1 players spectators) where
  open w use {seated, in_stands, apart, once, one_host}

  pub players-keep :
      (f : YgoClient → YgoClient) → KeepsPlace f → WellSeated team0 team1 (map f players) spectators
  players-keep f keeps = record {
    seated =
        All-mapped (Seated team0 team1) (Seated team0 team1) f
          (λ c s. SamePlace-Seated _ _ (f c) c (keeps c) s) players seated;
    in_stands = in_stands;
    apart = λ q.
        rw (count_if-map (sits_at q) (sits_at q) f (λ c. ap (λ p. nat_eqb p q) (keeps c).1) players)
          (apart q);
    once = λ object.
        rw
          (count_if-map (is_object object) (is_object object) f
            (λ c. ap (λ o. nat_eqb o object) (keeps c).0) players)
          (once object);
    one_host = rw (count_if-map is_host is_host f (λ c. (keeps c).3) players) one_host;
  }

  pub spectators-keep :
      (f : YgoClient → YgoClient) → KeepsPlace f → WellSeated team0 team1 players (map f spectators)
  spectators-keep f keeps = record {
    seated = seated;
    in_stands =
        All-mapped InStands InStands f (λ c (t, h). ((keeps c).2 ∙ t, (keeps c).3 ∙ h)) spectators
          in_stands;
    apart = apart;
    once = λ object.
        rw
          (count_if-map (is_object object) (is_object object) f
            (λ c. ap (λ o. nat_eqb o object) (keeps c).0) spectators)
          (once object);
    one_host = one_host;
  }

  pub players-leave :
      (stays : YgoClient → Bool) → WellSeated team0 team1 (filter stays players) spectators
  players-leave stays = record {
    seated = All-filter _ stays players seated;
    in_stands = in_stands;
    apart = λ q. omega (arith, apart q, count_if-filter (sits_at q) stays players);
    once = λ object. omega (arith, once object, count_if-filter (is_object object) stays players);
    one_host = omega (arith, one_host, count_if-filter is_host stays players);
  }

  pub spectators-leave :
      (stays : YgoClient → Bool) → WellSeated team0 team1 players (filter stays spectators)
  spectators-leave stays = record {
    seated = seated;
    in_stands = All-filter _ stays spectators in_stands;
    apart = apart;
    once =
        λ object. omega (arith, once object, count_if-filter (is_object object) stays spectators);
    one_host = one_host;
  }

  -- A client that the room did not refer to.
  abbrev pub IsNew : YgoClient → Type 0
  IsNew client =
      (count_if (is_object client.object) players ≡ 0)
      × (count_if (is_object client.object) spectators ≡ 0)

  new_object :
      (client : YgoClient) (object : ℕ)
      → IsNew client
      → is_object object client ≡ true
      → count_if (is_object object) players + count_if (is_object object) spectators ≡ 0
  new_object client object (none_here, none_there) same =
      let e : client.object ≡ object = ground arith in
      subst (λ o. count_if (is_object o) players + count_if (is_object o) spectators ≡ 0) e
        (omega (arith, none_here, none_there))

  pub player-joins :
      (player : YgoClient)
      → IsNew player
      → IsFree team0 team1 players (record { position = player.position; team = player.team })
      → (player.host ≡ true → count_if is_host players ≡ 0)
      → WellSeated team0 team1 (players ++ player ∷ []) spectators
  player-joins player new (seat, free) host = record {
    seated = All-append _ players _ seated (seat, tt);
    in_stands = in_stands;
    apart = λ q.
        rw (count_if-append (sits_at q) players (player ∷ []))
          (one_more (sits_at q) player _ (λ same. nobody_at q same) (apart q));
    once = λ object. omega (
      arith,
      count_if-append (is_object object) players (player ∷ []),
      one_more (is_object object) player _ (new_object player object new) (once object),
    );
    one_host =
        rw (count_if-append is_host players (player ∷ []))
          (one_more is_host player _ host one_host);
  }
    where
      nobody_at : (q : ℕ) → sits_at q player ≡ true → count_if (sits_at q) players ≡ 0
      nobody_at q same =
          let e : player.position ≡ q = ground arith in
          subst (λ r. count_if (sits_at r) players ≡ 0) e
            ((count_if-none_iff (sits_at player.position) players).1 free)

  pub spectator-joins :
      (spectator : YgoClient)
      → IsNew spectator
      → InStands spectator
      → WellSeated team0 team1 players (spectators ++ spectator ∷ [])
  spectator-joins spectator new stands = record {
    seated = seated;
    in_stands = All-append _ spectators _ in_stands (stands, tt);
    apart = apart;
    once = λ object. omega (
      arith,
      count_if-append (is_object object) spectators (spectator ∷ []),
      one_more (is_object object) spectator _ (new_object spectator object new) (once object),
    );
    one_host = one_host;
  }

-- No entry is the object: nothing changes.
pub change_in-absent :
    (object : ℕ) (f : YgoClient → YgoClient) (xs : List YgoClient)
    → count_if (is_object object) xs ≡ 0
    → change_in object f xs ≡ xs
change_in-absent object f [] none_here = refl
change_in-absent object f (x ∷ xs) none_here = elim (Bool-cases (is_object object x)) [
  | inl here ↦ absurd (ground arith)
  | inr elsewhere ↦ rw elsewhere (ap (λ ys. x ∷ ys) (change_in-absent object f xs (ground arith)))
]

abbrev pub changed_if : ℕ → (YgoClient → YgoClient) → YgoClient → YgoClient
changed_if object f client = if nat_eqb client.object object then f client else client

abbrev pub KeepsObject : (YgoClient → YgoClient) → Type 0
KeepsObject f = (c : YgoClient) → (f c).object ≡ c.object

pub changed_if-object :
    (object o : ℕ) (f : YgoClient → YgoClient)
    → KeepsObject f
    → (c : YgoClient) → is_object o (changed_if object f c) ≡ is_object o c
changed_if-object object o f keeps c = elim (Bool-cases (is_object object c)) [
  | inl here ↦ rw here (ap (λ n. nat_eqb n o) (keeps c))
  | inr elsewhere ↦ rw elsewhere refl
]
