-- ===== src/BanList.antt =====
-- shared/ban-list/BanList.ts, edopro/ban-list/domain/BanList.ts and
-- ygopro/ban-list/domain/YGOProBanList.ts: what a banlist holds, and how entries enter it.
-- Card ids, quantities and points are naturals; a `NaN` or absent argument is `none`. The 32-bit
-- hash is kept as its bit pattern, below 2 ^ 32.
use Prim.Native.Nat.{bit_or, bit_xor}
use edopro_server_ts.Prelude.{
  ℕ, ◌+◌, ◌*◌, ◌/◌, ◌%◌, ◌^◌, String, Option, none, some, Bool, true, false, List, [], ◌∷◌, ◌++◌,
  if◌then◌else◌,
}
use edopro_server_ts.Prelude.Eq.{◌==◌, nat_eq, string_eq}
use edopro_server_ts.Prelude.Dict.{get, insert}

pub record CreditLimit : Type 0 where
  pub cap : ℕ
  pub cards : List (ℕ × ℕ)

pub record BanList : Type 0 where
  pub forbidden : List ℕ
  pub limited : List ℕ
  pub semi_limited : List ℕ
  pub all : List ℕ
  pub points : List (ℕ × ℕ)
  pub credit_limits : List (String × CreditLimit)
  pub name : Option String
  pub hash : ℕ
  pub whitelisted : Bool

abbrev pub empty : BanList
empty = record {
  forbidden = [];
  limited = [];
  semi_limited = [];
  all = [];
  points = [];
  credit_limits = [];
  name = none;
  hash = 0x7dfcee6a;
  whitelisted = false;
}

-- x << k and x >>> k on 32 bits; only the low five bits of the count are used.
abbrev pub shl32 : ℕ → ℕ → ℕ
shl32 x k = (x * 2 ^ (k % 32)) % 2 ^ 32

abbrev pub shr32 : ℕ → ℕ → ℕ
shr32 x k = (x % 2 ^ 32) / 2 ^ (k % 32)

-- The hash step of `add`; `5 - quantity` counts modulo 32. Card ids are below 2 ^ 31, where `>>`
-- and `>>>` are the same.
pub mix_hash : ℕ → ℕ → ℕ → ℕ
mix_hash hash card_id quantity =
    bit_xor (bit_xor hash (bit_or (shl32 card_id 18) (shr32 card_id 14)))
      (bit_or (shl32 card_id (27 + quantity)) (shr32 card_id (5 + 31 * quantity)))

abbrev pub add_points : ℕ → Option ℕ → List (ℕ × ℕ) → List (ℕ × ℕ)
add_points card_id none m = m
add_points card_id (some p) m = insert card_id p m

-- `EdoproBanList.add`
unfoldable pub edopro_add : Option ℕ → ℕ → Option ℕ → BanList → BanList
unfolding mix_hash insert
edopro_add none quantity points b = b
edopro_add (some card_id) quantity points b = record b {
  forbidden = if quantity == 0 then b.forbidden ++ card_id ∷ [] else b.forbidden;
  limited = if quantity == 1 then b.limited ++ card_id ∷ [] else b.limited;
  semi_limited = if quantity == 2 then b.semi_limited ++ card_id ∷ [] else b.semi_limited;
  all = if quantity == 3 then b.all ++ card_id ∷ [] else b.all;
  points = add_points card_id points b.points;
  hash = mix_hash b.hash card_id quantity;
}

-- The `switch` of `YGOProBanList.add`.
abbrev pub push_by_quantity : ℕ → ℕ → BanList → BanList
push_by_quantity card_id quantity b =
    if quantity == 0
    then record b { forbidden = b.forbidden ++ card_id ∷ [] }
    else if quantity == 1
    then record b { limited = b.limited ++ card_id ∷ [] }
    else if quantity == 2
    then record b { semi_limited = b.semi_limited ++ card_id ∷ [] }
    else record b { all = b.all ++ card_id ∷ [] }

-- `YGOProBanList.add`
unfoldable pub ygopro_add : ℕ → ℕ → Option ℕ → BanList → BanList
unfolding insert
ygopro_add card_id quantity points b =
    let pushed = push_by_quantity card_id quantity b in
    record pushed { points = add_points card_id points b.points }

-- The inner loop of `recomputeWhitelistHash`, over one bucket.
pub mix_bucket : ℕ → ℕ → List ℕ → ℕ
unfolding mix_hash
mix_bucket quantity hash [] = hash
mix_bucket quantity hash (card_id ∷ ids) = mix_bucket quantity (mix_hash hash card_id quantity) ids

pub recompute_whitelist_hash : BanList → BanList
unfolding mix_bucket
recompute_whitelist_hash b =
    let h0 = mix_bucket 0 0x7dfcee6a b.forbidden in
    let h1 = mix_bucket 1 h0 b.limited in
    let h2 = mix_bucket 2 h1 b.semi_limited in
    let h3 = mix_bucket 3 h2 b.all in record b { hash = bit_xor h3 0x0f0f0f0f }

-- The `cards` that a new cap line keeps.
abbrev pub cards_of : Option CreditLimit → List (ℕ × ℕ)
cards_of none = []
cards_of (some limit) = limit.cards

pub add_credit_limit : String → ℕ → BanList → BanList
unfolding get insert
add_credit_limit identifier cap b = record b {
  credit_limits =
      insert identifier (record { cap = cap; cards = cards_of (get identifier b.credit_limits) })
        b.credit_limits;
}

abbrev pub cap_of : Option CreditLimit → ℕ
cap_of none = 1
cap_of (some limit) = limit.cap

pub add_credit_member : String → ℕ → ℕ → BanList → BanList
unfolding get insert
add_credit_member identifier card_id credit b =
    let limit = get identifier b.credit_limits in
    record b {
      credit_limits =
          insert identifier
            (record { cap = cap_of limit; cards = insert card_id credit (cards_of limit) })
            b.credit_limits;
    }

pub while_listed : BanList → BanList
while_listed b = record b { whitelisted = true }

abbrev pub is_genesys : BanList → Bool
is_genesys b = elim b.name [ none ↦ false | some name ↦ name == "Genesys" ]
