-- ===== src/Matchmaking/Store/Index.antt =====
-- The indexes of the store: when they agree, and what the operations do to them.
use edopro_server_ts.Prelude.{
  ◌≡◌, refl, String, Option, none, some, true, not, ◌&&◌, ◌||◌, List, [], ◌∷◌, ◌++◌, arith,
  if◌then◌else◌, Option-cases, inl, inr,
}
use edopro_server_ts.Prelude.Eq.{◌==◌, ==_iff, ==_refl, string_eq, contains}
use edopro_server_ts.Prelude.Dict.{get, get-insert, get-delete}
use edopro_server_ts.Matchmaking.{Participant}
use edopro_server_ts.Matchmaking.Store.{
  InMemoryPoolStore, new_store, key_of, set_add, set_delete, add, without, ids_at,
}

abbrev pub user_in : Option Participant → Option String
user_in none = none
user_in (some p) = some p.user_id

abbrev pub key_in : Option Participant → Option String
key_in none = none
key_in (some p) = some (key_of p)

-- A participant is stored under its id, its user's entry and its pool's set name it, and the two
-- indexes name nobody else.
pub record IsConsistent (s : InMemoryPoolStore) : Type 0 where
  pub own_id : (id : String) (p : Participant) → get id s.by_id ≡ some p → p.id ≡ id
  pub user_entry :
      (id : String) (p : Participant)
      → get id s.by_id ≡ some p
      → get p.user_id s.by_user_id ≡ some id
  pub pool_entry :
      (id : String) (p : Participant)
      → get id s.by_id ≡ some p
      → contains id (ids_at (key_of p) s) ≡ true
  pub user_known :
      (user_id id : String)
      → get user_id s.by_user_id ≡ some id
      → user_in (get id s.by_id) ≡ some user_id
  pub pool_known :
      (key id : String) → contains id (ids_at key s) ≡ true → key_in (get id s.by_id) ≡ some key

contains-append :
    (j : String) (xs ys : List String) → contains j (xs ++ ys) ≡ (contains j xs || contains j ys)
contains-append j [] ys = refl
contains-append j (x ∷ xs) ys = ground (arith, contains-append j xs ys)

pub contains-set_add :
    (i j : String) (xs : List String) → contains j (set_add i xs) ≡ (i == j || contains j xs)
contains-set_add i j xs = ground (arith, contains-append j xs (i ∷ []), ==_iff i j)

contains-set_delete :
    (i j : String) (xs : List String)
    → contains j (set_delete i xs) ≡ (not (i == j) && contains j xs)
contains-set_delete i j [] = ground arith
contains-set_delete i j (x ∷ xs) =
    ground (arith, contains-set_delete i j xs, ==_iff x i, ==_iff x j, ==_iff i j)

ids_at-add :
    (k : String) (p : Participant) (s : InMemoryPoolStore)
    → ids_at k (add p s)
      ≡ (if key_of p == k then set_add p.id (ids_at (key_of p) s) else ids_at k s)
unfolding add
ids_at-add k p s =
    ground (arith, get-insert (key_of p) k (set_add p.id (ids_at (key_of p) s)) s.ids_by_pool_key)

ids_at-without :
    (k : String) (p : Participant) (id : String) (s : InMemoryPoolStore)
    → ids_at k (without p id s)
      ≡ (if key_of p == k then set_delete id (ids_at (key_of p) s) else ids_at k s)
unfolding get
ids_at-without k p id s = elim (Option-cases (get (key_of p) s.ids_by_pool_key)) [
  | inl absent ↦ rw absent (ground (arith, absent, ==_iff (key_of p) k))
  | inr (ids, found) ↦
      rw found (ground (arith, get-insert (key_of p) k (set_delete id ids) s.ids_by_pool_key))
]

pub new_store-IsConsistent : IsConsistent new_store
unfolding get
new_store-IsConsistent = record {
  own_id = λ id p h. ground (arith, h);
  user_entry = λ id p h. ground (arith, h);
  pool_entry = λ id p h. ground (arith, h);
  user_known = λ u id h. ground (arith, h);
  pool_known = λ k id h. ground (arith, h);
}

pub add-IsConsistent :
    (p : Participant) (s : InMemoryPoolStore)
    → IsConsistent s
    → get p.id s.by_id ≡ none
    → get p.user_id s.by_user_id ≡ none
    → IsConsistent (add p s)
unfolding add
add-IsConsistent p s h new_id new_user = record {
  own_id = λ id q e. ground (arith, e, get-insert p.id id p s.by_id, ==_iff p.id id, h.own_id id q);
  user_entry = λ id q e. ground (
    arith,
    e,
    get-insert p.id id p s.by_id,
    ==_iff p.id id,
    h.user_entry id q,
    get-insert p.user_id q.user_id p.id s.by_user_id,
    ==_iff p.user_id q.user_id,
    new_user,
  );
  pool_entry = λ id q e. ground (
    arith,
    e,
    get-insert p.id id p s.by_id,
    ==_iff p.id id,
    h.pool_entry id q,
    ids_at-add (key_of q) p s,
    ==_iff (key_of p) (key_of q),
    contains-set_add p.id id (ids_at (key_of p) s),
  );
  user_known = λ u id e. ground (
    arith,
    e,
    get-insert p.user_id u p.id s.by_user_id,
    ==_iff p.user_id u,
    get-insert p.id id p s.by_id,
    ==_iff p.id id,
    h.user_known u id,
    new_id,
  );
  pool_known = λ k id e. ground (
    arith,
    e,
    ids_at-add k p s,
    ==_iff (key_of p) k,
    contains-set_add p.id id (ids_at (key_of p) s),
    get-insert p.id id p s.by_id,
    ==_iff p.id id,
    h.pool_known k id,
    new_id,
  );
}

pub without-IsConsistent :
    (id : String) (p : Participant) (s : InMemoryPoolStore)
    → IsConsistent s
    → get id s.by_id ≡ some p
    → IsConsistent (without p id s)
without-IsConsistent id p s h found = record {
  own_id = λ i q e. ground (arith, e, get-delete id i s.by_id, ==_iff id i, h.own_id i q);
  user_entry = λ i q e. ground (
    arith,
    e,
    get-delete id i s.by_id,
    ==_iff id i,
    h.user_entry i q,
    found,
    h.user_entry id p,
    get-delete p.user_id q.user_id s.by_user_id,
    ==_iff p.user_id q.user_id,
  );
  pool_entry = λ i q e. ground (
    arith,
    e,
    get-delete id i s.by_id,
    ==_iff id i,
    h.pool_entry i q,
    ids_at-without (key_of q) p id s,
    ==_iff (key_of p) (key_of q),
    contains-set_delete id i (ids_at (key_of p) s),
  );
  user_known = λ u i e. ground (
    arith,
    e,
    get-delete p.user_id u s.by_user_id,
    ==_iff p.user_id u,
    found,
    h.user_entry id p found,
    get-delete id i s.by_id,
    ==_iff id i,
    ==_refl id,
    h.user_known u i,
  );
  pool_known = λ k i e. ground (
    arith,
    e,
    ids_at-without k p id s,
    ==_iff (key_of p) k,
    found,
    contains-set_delete id i (ids_at (key_of p) s),
    get-delete id i s.by_id,
    ==_iff id i,
    h.pool_known k i,
  );
}
