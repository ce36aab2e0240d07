-- ===== src/Matchmaking/Store.antt =====
-- InMemoryPoolStore.ts: the participants by their id, their ids by user, and a set of ids for every
-- pool. A `Set` is a list of its elements in insertion order.
pub mod Index
pub mod Refines
use edopro_server_ts.Prelude.{
  ℕ, String, Option, none, some, Bool, true, false, not, List, [], ◌∷◌, ◌++◌, length, filter,
  if◌then◌else◌,
}
use edopro_server_ts.Prelude.Eq.{◌==◌, string_eq, contains}
use edopro_server_ts.Prelude.Dict.{get, insert, delete}
use edopro_server_ts.Matchmaking.{Participant, Format, tcg, jtp, edison, Mode, ranked}

-- The template `${format}:${mode}`
abbrev pub pool_key : Format → Mode → String
pool_key tcg ranked = "tcg:ranked"
pool_key jtp ranked = "jtp:ranked"
pool_key edison ranked = "edison:ranked"

abbrev pub key_of : Participant → String
key_of p = pool_key p.format p.mode

pub record InMemoryPoolStore : Type 0 where
  pub by_id : List (String × Participant)
  pub by_user_id : List (String × String)
  pub ids_by_pool_key : List (String × List String)

abbrev pub new_store : InMemoryPoolStore
new_store = record { by_id = []; by_user_id = []; ids_by_pool_key = [] }

-- `Set.prototype.add` and `delete`
abbrev pub set_add : String → List String → List String
set_add id ids = if contains id ids then ids else ids ++ id ∷ []

abbrev pub set_delete : String → List String → List String
set_delete id = filter (λ j. not (j == id))

-- `?? new Set()`
abbrev pub or_empty : Option (List String) → List String
or_empty none = []
or_empty (some ids) = ids

unfoldable pub add : Participant → InMemoryPoolStore → InMemoryPoolStore
unfolding insert get
add p s = record {
  by_id = insert p.id p s.by_id;
  by_user_id = insert p.user_id p.id s.by_user_id;
  ids_by_pool_key =
      insert (key_of p) (set_add p.id (or_empty (get (key_of p) s.ids_by_pool_key)))
        s.ids_by_pool_key;
}

unfoldable pub lookup : String → InMemoryPoolStore → Option Participant
unfolding get
lookup id s = get id s.by_id

unfoldable pub find_by_user_id : String → InMemoryPoolStore → Option Participant
unfolding get
find_by_user_id user_id s = elim (get user_id s.by_user_id) [
  | none ↦ none
  | some id ↦ get id s.by_id
]

-- `this.byUserId.get(participant.userId) === id`
abbrev pub is_id : String → Option String → Bool
is_id id none = false
is_id id (some j) = j == id

-- `?.delete(id)` on the set of a pool, which stays in its place.
abbrev pub drop_id :
    String
    → String
    → Option (List String)
    → List (String × List String)
    → List (String × List String)
drop_id key id none pools = pools
drop_id key id (some ids) pools = insert key (set_delete id ids) pools

abbrev pub without : Participant → String → InMemoryPoolStore → InMemoryPoolStore
without p id s = record {
  by_id = delete id s.by_id;
  by_user_id =
      (if is_id id (get p.user_id s.by_user_id)
        then delete p.user_id s.by_user_id
        else s.by_user_id);
  ids_by_pool_key = drop_id (key_of p) id (get (key_of p) s.ids_by_pool_key) s.ids_by_pool_key;
}

unfoldable pub remove : String → InMemoryPoolStore → Bool × InMemoryPoolStore
unfolding get
remove id s = elim (get id s.by_id) [ none ↦ (false, s) | some p ↦ (true, without p id s) ]

-- The participants that are found under the ids.
abbrev pub resolve : List String → List (String × Participant) → List Participant
resolve [] m = []
resolve (id ∷ ids) m = elim (get id m) [ none ↦ resolve ids m | some p ↦ p ∷ resolve ids m ]

abbrev pub ids_at : String → InMemoryPoolStore → List String
ids_at key s = or_empty (get key s.ids_by_pool_key)

unfoldable pub all : Format → Mode → InMemoryPoolStore → List Participant
unfolding get
all format mode s = resolve (ids_at (pool_key format mode) s) s.by_id

unfoldable pub depth : Format → Mode → InMemoryPoolStore → ℕ
unfolding get
depth format mode s = length (ids_at (pool_key format mode) s)
