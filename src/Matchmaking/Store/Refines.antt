-- ===== src/Matchmaking/Store/Refines.antt =====
-- The store is a finite map from ids to participants: what its operations do to that map, and what
-- its searches say of it.
use edopro_server_ts.Prelude.{
  ◌≡◌, refl, sym, ap, subst, ◌↔◌, suc, String, Option, none, some, Bool, true, false, List, [], ◌∷◌,
  arith, length, All, if◌then◌else◌, Option-cases, inl, inr,
}
use edopro_server_ts.Prelude.Eq.{◌==◌, ==_iff, ==_refl, string_eq, contains}
use edopro_server_ts.Prelude.Dict.{get, get-insert, get-delete}
use edopro_server_ts.Matchmaking.{Participant, Format, Mode, ids_of}
use edopro_server_ts.Matchmaking.Store.{
  InMemoryPoolStore, key_of, pool_key, add, remove, ids_at, lookup, find_by_user_id, resolve, all,
  depth,
}
use edopro_server_ts.Matchmaking.Store.Index.{
  IsConsistent, key_in, add-IsConsistent, without-IsConsistent,
}

abbrev pub is_some : Option Participant → Bool
is_some none = false
is_some (some _) = true

-- Adding a participant whose id and user are not in a store with consistent indexes keeps them
-- consistent, and binds its id, nothing else.
pub add_refines :
    (p : Participant) (s : InMemoryPoolStore)
    → IsConsistent s
    → lookup p.id s ≡ none
    → find_by_user_id p.user_id s ≡ none
    → IsConsistent (add p s)
      × ((id : String) → lookup id (add p s) ≡ (if p.id == id then some p else lookup id s))
unfolding add lookup find_by_user_id
add_refines p s h new_id new_user =
    (add-IsConsistent p s h new_id no_entry, λ id. get-insert p.id id p s.by_id)
  where
    no_entry : get p.user_id s.by_user_id ≡ none
    no_entry = elim (Option-cases (get p.user_id s.by_user_id)) [
      | inl absent ↦ absent
      | inr (id, found) ↦ ground (arith, found, new_user, h.user_known p.user_id id found)
    ]

-- Removing an id from a store with consistent indexes keeps them consistent, tells whether the id
-- was bound, and unbinds it, nothing else.
pub remove_refines :
    (id : String) (s : InMemoryPoolStore)
    → IsConsistent s
    → let (removed, t) = remove id s in
      IsConsistent t
      × (removed ≡ is_some (lookup id s))
      × ((j : String) → lookup j t ≡ (if id == j then none else lookup j s))
unfolding remove lookup
remove_refines id s h = elim (Option-cases (get id s.by_id)) [
  | inl absent ↦ rw (absent, remove, lookup) (h, refl, λ j. ground (arith, absent, ==_iff id j))
  | inr (p, found) ↦
      rw (found, remove, lookup)
        (without-IsConsistent id p s h found, refl, λ j. get-delete id j s.by_id)
]

-- In a store with consistent indexes a search for a user finds exactly the participant of the user
-- that the map holds.
pub find_by_user_id_iff :
    (user_id : String) (p : Participant) (s : InMemoryPoolStore)
    → IsConsistent s
    → (find_by_user_id user_id s ≡ some p) ↔ ((lookup p.id s ≡ some p) × (p.user_id ≡ user_id))
unfolding find_by_user_id lookup
find_by_user_id_iff user_id p s h = (there, back)
  where
    there : find_by_user_id user_id s ≡ some p → (lookup p.id s ≡ some p) × (p.user_id ≡ user_id)
    there e = elim (Option-cases (get user_id s.by_user_id)) [
      | inl absent ↦ absurd (ground (arith, absent, e))
      | inr (id, found) ↦
          let bound : get id s.by_id ≡ some p = ground (arith, found, e) in
          let same = h.own_id id p bound in
          let known = h.user_known user_id id found in (cc, ground (arith, bound, known))
    ]

    back : (lookup p.id s ≡ some p) × (p.user_id ≡ user_id) → find_by_user_id user_id s ≡ some p
    back (bound, same) = let entry = h.user_entry p.id p bound in ground (arith, bound, same, entry)

module _ (s : InMemoryPoolStore) (h : IsConsistent s) (key : String) where
  resolve-lists :
      (ids : List String)
      → ((id : String) → contains id ids ≡ true → key_in (get id s.by_id) ≡ some key)
      → (ids_of (resolve ids s.by_id) ≡ ids)
        × (length (resolve ids s.by_id) ≡ length ids)
        × All (λ p. (get p.id s.by_id ≡ some p) × (key_of p ≡ key)) (resolve ids s.by_id)
  unfolding get
  resolve-lists [] known = (refl, refl, tt)
  resolve-lists (id ∷ ids) known =
      let (same, long, sound) = resolve-lists ids (λ i e. known i (ground (arith, e))) in
      let here = known id (ground (arith, ==_refl id)) in
      elim (Option-cases (get id s.by_id)) [
        | inl absent ↦ absurd (ground (arith, absent, here))
        | inr (p, found) ↦
            let own = h.own_id id p found in
            let keyed : key_of p ≡ key = ground (arith, found, here) in
            rw (found, resolve) (cc, ap suc long, ((cc, keyed), sound))
      ]

holder-entry :
    (s : InMemoryPoolStore)
    → IsConsistent s
    → (key id : String) → key_in (get id s.by_id) ≡ some key
    → contains id (ids_at key s) ≡ true
unfolding get
holder-entry s h key id e = elim (Option-cases (get id s.by_id)) [
  | inl absent ↦ absurd (ground (arith, absent, e))
  | inr (p, found) ↦
      let keyed : key_of p ≡ key = ground (arith, found, e) in
      subst (λ k. contains id (ids_at k s) ≡ true) keyed (h.pool_entry id p found)
]

-- A pool of a store with consistent indexes lists exactly the ids that the map binds to its
-- participants, every participant it lists is one that the map holds and is of that pool, and the
-- depth of the pool is the number of those listed.
pub all_lists :
    (format : Format) (mode : Mode) (s : InMemoryPoolStore)
    → IsConsistent s
    → let listed = all format mode s in
      ((id : String)
        → (contains id (ids_of listed) ≡ true)
          ↔ (key_in (lookup id s) ≡ some (pool_key format mode)))
      × All (λ p. (lookup p.id s ≡ some p) × (key_of p ≡ pool_key format mode)) listed
      × (depth format mode s ≡ length listed)
unfolding all lookup depth
all_lists format mode s h =
    let key = pool_key format mode in
    let (same, long, sound) = resolve-lists s h key (ids_at key s) (h.pool_known key) in
    (
      λ id.
          let entry = holder-entry s h key id in
          (λ e. h.pool_known key id (cc), λ e. let there = entry e in cc),
      sound,
      sym long,
    )
