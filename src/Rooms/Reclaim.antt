-- ===== src/Rooms/Reclaim.antt =====
-- Who is handed a seat back by name while a match is on: shared/room/domain/findReconnectingPlayer.ts
-- and findMidDuelReconnectingPlayer.ts.
use edopro_server_ts.Prelude.{
  ℕ, ◌≡◌, refl, sym, subst, ap, ◌∙◌, ◌⊎◌, inl, inr, String, Option, none, some, Bool, true, false,
  not, ◌&&◌, List, [], ◌∷◌, ◌++◌, find?, first_match, if◌then◌else◌, untested, and-eq-true_iff,
}
use mathlib.Core.List.{Memᴰ}
use edopro_server_ts.Prelude.Eq.{string_eq, ==_iff}
use edopro_server_ts.Rooms.Clients.{
  YgoClient, Socket, PlayerCredential, by_ticket, by_pin, as_guest, is_strong_auth, has_name,
}
use edopro_server_ts.Rooms.Gates.{stamped}
use edopro_server_ts.Rooms.Reconnect.{
  same_address, is_account, is_bound_to, is_reclaimable, find_reconnecting_player,
  find_mid_duel_reconnecting_player,
}

-- The seat is one that the joiner may have: it has the name and was not taken with a ticket; in a
-- ranked room the account that took it with a pin is the joiner's, unless no credential is recorded;
-- in another, the address is the same and the old connection closed.
pub data MayReclaim (name : String) (address : Option String) (joiner : Option String)
    (seat : YgoClient) : Bool → Type 0 where
  own_account :
      (user_id : String)
      → seat.name ≡ name
      → seat.credential ≡ some (by_pin user_id)
      → joiner ≡ some user_id
      → MayReclaim name address joiner seat true
  no_credential :
      seat.name ≡ name → seat.credential ≡ none → MayReclaim name address joiner seat true
  own_address :
      seat.name ≡ name
      → is_strong_auth seat ≡ false
      → seat.socket.remote_address ≡ address
      → seat.socket.closed ≡ true
      → MayReclaim name address joiner seat false

eligible :
    (strong named ranked here : Bool)
    → (if strong then false else (if not named then false else (if not ranked then here else true)))
      ≡ true
    → (strong ≡ false) × (named ≡ true) × ((ranked ≡ true) ⊎ (here ≡ true))
eligible true named ranked here h = absurd cc
eligible false false ranked here h = absurd cc
eligible false true true here h = (refl, refl, inl refl)
eligible false true false here h = (refl, refl, inr h)

same_address-equal : (a b : Option String) → same_address a b ≡ true → a ≡ b
same_address-equal none none h = refl
same_address-equal none (some b) h = absurd cc
same_address-equal (some a) none h = absurd cc
same_address-equal (some a) (some b) h = ap some ((==_iff a b).0 h)

is_account-equal :
    (user_id : String) (joiner : Option String)
    → is_account user_id joiner ≡ true
    → joiner ≡ some user_id
is_account-equal user_id none h = absurd cc
is_account-equal user_id (some j) h = ap some (sym ((==_iff user_id j).0 h))

bound-MayReclaim :
    (name : String) (address : Option String) (joiner : Option String) (seat : YgoClient)
    (credential : Option PlayerCredential)
    → seat.credential ≡ credential
    → seat.name ≡ name
    → is_bound_to joiner credential ≡ true
    → MayReclaim name address joiner seat true
bound-MayReclaim name address joiner seat none e n h = no_credential n e
bound-MayReclaim name address joiner seat (some (by_pin id)) e n h =
    own_account id n e (is_account-equal id joiner h)
bound-MayReclaim name address joiner seat (some (by_ticket id)) e n h = absurd cc
bound-MayReclaim name address joiner seat (some (as_guest id)) e n h = absurd cc

is_reclaimable-MayReclaim :
    (name : String) (address : Option String) (ranked : Bool) (joiner : Option String)
    (seat : YgoClient)
    → is_reclaimable name address ranked joiner seat ≡ true
    → MayReclaim name address joiner seat ranked
is_reclaimable-MayReclaim name address true joiner seat h =
    let (fits, bound) = (and-eq-true_iff _ (is_bound_to joiner seat.credential)).0 h in
    let (weak, named, _) = eligible (is_strong_auth seat) (has_name name seat) true true fits in
    bound-MayReclaim name address joiner seat seat.credential refl ((==_iff seat.name name).0 named)
      bound
is_reclaimable-MayReclaim name address false joiner seat h =
    let (fits, _) = (and-eq-true_iff _ true).0 h in
    let (weak, named, here) =
      eligible (is_strong_auth seat) (has_name name seat) false
        (same_address seat.socket.remote_address address && seat.socket.closed) fits in
    elim here [
      | inl clash ↦ absurd cc
      | inr there ↦
          let (same, closed) = (and-eq-true_iff _ seat.socket.closed).0 there in
          own_address ((==_iff seat.name name).0 named) weak (same_address-equal _ _ same) closed
    ]

found-MayReclaim :
    (players : List YgoClient) (name : String) (address : Option String) (ranked : Bool)
    (joiner : Option String) (seat : YgoClient)
    → find_reconnecting_player players name address ranked joiner ≡ some seat
    → Memᴰ seat players × MayReclaim name address joiner seat ranked
unfolding find_reconnecting_player
found-MayReclaim players name address ranked joiner seat found =
    elim (first_match (is_reclaimable name address ranked joiner) players) [
      | inl (nobody, _) ↦ absurd (missing nobody)
      | inr (before, x, after, f, split, _, passes) ↦
          let same : x ≡ seat = same_seat f in
          (
            subst (λ s. Memᴰ s players) same
                (subst (λ ps. Memᴰ x ps) (sym split) (stands before x after)),
            is_reclaimable-MayReclaim name address ranked joiner seat
                (subst (λ s. is_reclaimable name address ranked joiner s ≡ true) same passes),
          )
    ]
  where
    result : Option YgoClient
    result = find? (is_reclaimable name address ranked joiner) players

    missing : result ≡ none → ⊥
    missing nobody =
        let clash : ◌≡◌ {A = Option YgoClient} none (some seat) = sym nobody ∙ found in cc

    same_seat : {x : YgoClient} → result ≡ some x → x ≡ seat
    same_seat f = let both : some _ ≡ some seat = sym f ∙ found in cc

    stands :
        (before : List YgoClient) (x : YgoClient) (after : List YgoClient)
        → Memᴰ x (before ++ x ∷ after)
    stands [] x after = Memᴰ.head refl
    stands (b ∷ before) x after = Memᴰ.tail (stands before x after)

-- A JOIN while the match is on is handed a seat only when its socket is not stamped to watch the room,
-- the seat is a player's of the room, and the joiner may have it: by its name, and the seat's pin
-- account in a ranked room or the address of its closed connection in another; never a seat that was
-- taken with a ticket.
pub reclaims_own_seat :
    (players : List YgoClient) (name : String) (socket : Socket) (room_id : ℕ) (ranked : Bool)
    (joiner : Option String) (seat : YgoClient)
    → find_mid_duel_reconnecting_player players name socket room_id ranked joiner ≡ some seat
    → (stamped socket.watch_for_room_id room_id ≡ false)
      × Memᴰ seat players
      × MayReclaim name socket.remote_address joiner seat ranked
      × (is_strong_auth seat ≡ false)
unfolding find_mid_duel_reconnecting_player
reclaims_own_seat players name socket room_id ranked joiner seat found =
    let (unstamped, e) = untested (stamped socket.watch_for_room_id room_id) _ seat found in
    let (here, may) = found-MayReclaim players name socket.remote_address ranked joiner seat e in
    (unstamped, here, may, weak may)
  where
    strong : Option PlayerCredential → Bool
    strong credential = elim credential [ some (by_ticket _) ↦ true | _ ↦ false ]

    weak :
        {r : Bool}
        → MayReclaim name socket.remote_address joiner seat r
        → is_strong_auth seat ≡ false
    weak (own_account id n e j) = ap strong e
    weak (no_credential n e) = ap strong e
    weak (own_address n w a c) = w
