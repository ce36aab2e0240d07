-- ===== src/Deck/Legal/Entries.antt =====
-- From the lines of a banlist to the decks it lets through: `add` for each line, then `validate`.
use edopro_server_ts.Prelude.{
  ℕ, ◌≤◌, ◌<◌, min, leb, ◌≡◌, refl, ◌⊎◌, inl, inr, Option, none, some, Bool, true, false, List, [],
  ◌∷◌, ◌++◌, All, arith, if◌then◌else◌, nat_eqb,
}
use edopro_server_ts.BanList.{BanList, edopro_add, ygopro_add, is_genesys}
use edopro_server_ts.Deck.{Deck, DeckRules, all_cards_of}
use edopro_server_ts.Deck.Handlers.Availability.{YgoproRule}
use edopro_server_ts.Deck.Validate.{validate, ygopro_validate}
use edopro_server_ts.Deck.Tallies.{copies}
use edopro_server_ts.Deck.Legal.Chain.{IsCapped, ObeysLimits, validate_iff, ygopro_validate_iff}

-- A line of a list file: the card, its quantity, and points if it has any.
pub record Line : Type 0 where
  pub card_id : ℕ
  pub quantity : ℕ
  pub points : Option ℕ

-- The list after the lines were added one after the other.
unfoldable pub edopro_load : List Line → BanList → BanList
edopro_load [] b = b
edopro_load (l ∷ ls) b = edopro_load ls (edopro_add (some l.card_id) l.quantity l.points b)

unfoldable pub ygopro_load : List Line → BanList → BanList
ygopro_load [] b = b
ygopro_load (l ∷ ls) b = ygopro_load ls (ygopro_add l.card_id l.quantity l.points b)

All-append_left {ℓ κ} :
    {A : Type ℓ} (P : A → Type κ) (xs ys : List A) → All P (xs ++ ys) → All P xs × All P ys
All-append_left P [] ys h = (tt, h)
All-append_left P (x ∷ xs) ys (p, h) = let (hx, hy) = All-append_left P xs ys h in ((p, hx), hy)

-- Where `YGOProBanList.add` puts a card.
buckets-ygopro_add :
    (l : Line) (b : BanList)
    → let c = ygopro_add l.card_id l.quantity l.points b in
      (c.forbidden ≡ (if nat_eqb l.quantity 0 then b.forbidden ++ l.card_id ∷ [] else b.forbidden))
      × (c.semi_limited
          ≡ (if nat_eqb l.quantity 2 then b.semi_limited ++ l.card_id ∷ [] else b.semi_limited))
      × (c.limited ≡ (if nat_eqb l.quantity 1 then b.limited ++ l.card_id ∷ [] else b.limited))
      × (c.all ≡ (if leb 3 l.quantity then b.all ++ l.card_id ∷ [] else b.all))
unfolding ygopro_add
buckets-ygopro_add l b = ground arith

module _ (deck : Deck) where
  -- The deck holds no more copies than the quantity of the line.
  abbrev pub ObeysLine : Line → Type 0
  ObeysLine l = copies l.card_id (all_cards_of deck) ≤ l.quantity

  -- The same, for quantities below 3 or equal; a quantity above 3 caps nothing in an EDOPro list.
  abbrev pub ObeysEdoproLine : Line → Type 0
  ObeysEdoproLine l = (3 < l.quantity) ⊎ ObeysLine l

  abbrev Obeys : BanList → Type 0
  Obeys b = ObeysLimits b deck × IsCapped 3 b.all deck

  -- One bucket before and after a value was pushed, or not.
  bucket :
      (top : ℕ) (xs : List ℕ) (id : ℕ) (pushed : Bool)
      → IsCapped top (if pushed then xs ++ id ∷ [] else xs) deck
      → IsCapped top xs deck × ((pushed ≡ false) ⊎ (copies id (all_cards_of deck) ≤ top))
  bucket top xs id true h =
      let (old, new) =
        All-append_left (λ id'. copies id' (all_cards_of deck) ≤ top) xs (id ∷ []) h in
      (old, inr new.0)
  bucket top xs id false h = (h, inl refl)

  edopro_add-Obeys :
      (l : Line) (b : BanList)
      → Obeys (edopro_add (some l.card_id) l.quantity l.points b)
      → Obeys b × ObeysEdoproLine l
  unfolding edopro_add
  edopro_add-Obeys l b ((f, s, m), a) =
      let (f', zero_copies) = bucket 0 b.forbidden l.card_id (nat_eqb l.quantity 0) f in
      let (s', two) = bucket 2 b.semi_limited l.card_id (nat_eqb l.quantity 2) s in
      let (m', one) = bucket 1 b.limited l.card_id (nat_eqb l.quantity 1) m in
      let (a', three) = bucket 3 b.all l.card_id (nat_eqb l.quantity 3) a in
      (((f', s', m'), a'), ground (arith, zero_copies, one, two, three))

  edopro_load-Obeys :
      (ls : List Line) (b : BanList) → Obeys (edopro_load ls b) → Obeys b × All ObeysEdoproLine ls
  unfolding edopro_load
  edopro_load-Obeys [] b h = (h, tt)
  edopro_load-Obeys (l ∷ ls) b h =
      let (h', rest) = edopro_load-Obeys ls (edopro_add (some l.card_id) l.quantity l.points b) h in
      let (start, obeyed) = edopro_add-Obeys l b h' in (start, (obeyed, rest))

  -- A quantity of 3 or more caps a card of a YGOPro list at three copies.
  abbrev pub ObeysYgoproLine : Line → Type 0
  ObeysYgoproLine l = copies l.card_id (all_cards_of deck) ≤ min l.quantity 3

  ygopro_add-Obeys :
      (l : Line) (b : BanList)
      → Obeys (ygopro_add l.card_id l.quantity l.points b)
      → Obeys b × ObeysYgoproLine l
  ygopro_add-Obeys l b ((f, s, m), a) =
      let (in_forbidden, in_semi_limited, in_limited, in_all) = buckets-ygopro_add l b in
      let (f', zero_copies) =
        bucket 0 b.forbidden l.card_id (nat_eqb l.quantity 0) (rw in_forbidden at f) in
      let (s', two) =
        bucket 2 b.semi_limited l.card_id (nat_eqb l.quantity 2) (rw in_semi_limited at s) in
      let (m', one) = bucket 1 b.limited l.card_id (nat_eqb l.quantity 1) (rw in_limited at m) in
      let (a', three) = bucket 3 b.all l.card_id (leb 3 l.quantity) (rw in_all at a) in
      (((f', s', m'), a'), ground (arith, zero_copies, one, two, three))

  ygopro_load-Obeys :
      (ls : List Line) (b : BanList) → Obeys (ygopro_load ls b) → Obeys b × All ObeysYgoproLine ls
  unfolding ygopro_load
  ygopro_load-Obeys [] b h = (h, tt)
  ygopro_load-Obeys (l ∷ ls) b h =
      let (h', rest) = ygopro_load-Obeys ls (ygopro_add l.card_id l.quantity l.points b) h in
      let (start, obeyed) = ygopro_add-Obeys l b h' in (start, (obeyed, rest))

  -- Add any lines to an EDOPro banlist that is not the Genesys list: a deck that `Deck.validate`
  -- accepts against it holds, for each line of quantity 0 to 3, at most that many copies of the
  -- card, its alternate artworks included.
  pub validate-edopro_load :
      (ls : List Line) (b : BanList) (r : DeckRules)
      → is_genesys (edopro_load ls b) ≡ false
      → validate (edopro_load ls b) r deck ≡ none
      → All ObeysEdoproLine ls
  validate-edopro_load ls b r e h = elim ((validate_iff (edopro_load ls b) r deck).0 h) [
    | inl (_, (_, limits, _, three, _)) ↦ (edopro_load-Obeys ls b (limits, three)).1
    | inr (f, _) ↦ cc
  ]

  -- Add any lines to a YGOPro banlist that is not the Genesys list: a deck that
  -- `YGOProDeckValidator.validate` accepts against it holds at most as many copies of the card of
  -- each line as its quantity says, and never more than three.
  pub ygopro_validate-ygopro_load :
      (ls : List Line) (b : BanList) (r : DeckRules) (rule : YgoproRule)
      → is_genesys (ygopro_load ls b) ≡ false
      → ygopro_validate (ygopro_load ls b) r rule deck ≡ none
      → All ObeysYgoproLine ls
  ygopro_validate-ygopro_load ls b r rule e h =
      elim ((ygopro_validate_iff (ygopro_load ls b) r rule deck).0 h) [
        | inl (_, (_, limits, _, _, three, _)) ↦ (ygopro_load-Obeys ls b (limits, three)).1
        | inr (f, _) ↦ cc
      ]
