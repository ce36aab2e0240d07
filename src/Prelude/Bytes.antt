-- ===== src/Prelude/Bytes.antt =====
-- Buffers as lists of bytes: `subarray`, and the little-endian reads and writes.
use Prim.Native.Nat.{ℕ, zero, suc, ◌+◌, ◌*◌, ◌/◌, ◌%◌, ◌^◌, ◌≤◌, ◌<◌}
use mathlib.Core.Path.{◌≡◌, refl, ap}
use mathlib.Core.List.{List, [], ◌∷◌, ◌++◌}
use native.Mathlib.Omega.{arith}
use edopro_server_ts.Prelude.Lists.{length, All}

module _ {ℓ} {A : Type ℓ} where
  abbrev pub take : ℕ → List A → List A
  take zero xs = []
  take (suc n) [] = []
  take (suc n) (x ∷ xs) = x ∷ take n xs

  abbrev pub drop : ℕ → List A → List A
  drop zero xs = xs
  drop (suc n) [] = []
  drop (suc n) (x ∷ xs) = drop n xs

  pub take_append : (xs ys : List A) → take (length xs) (xs ++ ys) ≡ xs
  take_append [] ys = refl
  take_append (x ∷ xs) ys = ap (λ zs. x ∷ zs) (take_append xs ys)

  pub drop_append : (xs ys : List A) → drop (length xs) (xs ++ ys) ≡ ys
  drop_append [] ys = refl
  drop_append (x ∷ xs) ys = drop_append xs ys

  pub take_all : (n : ℕ) (xs : List A) → length xs ≤ n → take n xs ≡ xs
  take_all zero [] h = refl
  take_all zero (x ∷ xs) h = absurd (omega (arith, h))
  take_all (suc n) [] h = refl
  take_all (suc n) (x ∷ xs) h = ap (λ zs. x ∷ zs) (take_all n xs (omega (arith, h)))

  pub drop_all : (n : ℕ) (xs : List A) → length xs ≤ n → drop n xs ≡ []
  drop_all zero [] h = refl
  drop_all zero (x ∷ xs) h = absurd (omega (arith, h))
  drop_all (suc n) [] h = refl
  drop_all (suc n) (x ∷ xs) h = drop_all n xs (omega (arith, h))

  -- Of two ways to cut a list, the longer first part holds the shorter one.
  pub append_split :
      (xs ys us vs : List A)
      → us ++ vs ≡ xs ++ ys
      → length xs ≤ length us
      → (ws : List A) × (us ≡ xs ++ ws) × (ws ++ vs ≡ ys)
  append_split [] ys us vs e h = (us, refl, e)
  append_split (x ∷ xs) ys [] vs e h = absurd (omega arith)
  append_split (x ∷ xs) ys (u ∷ us) vs e h =
      let heads : u ≡ x = cc in
      let tails : us ++ vs ≡ xs ++ ys = cc in
      let (ws, cut, rest) = append_split xs ys us vs tails (omega arith) in (ws, cc, rest)

-- Every element is a byte.
abbrev pub IsBytes : List ℕ → Type 0
IsBytes = All (λ b. b < 256)

-- `readUInt16LE(0)`, `readUInt32LE(0)`; not called on a shorter buffer.
abbrev pub read_u16 : List ℕ → ℕ
read_u16 (a ∷ b ∷ _) = a + 256 * b
read_u16 (a ∷ []) = 0
read_u16 [] = 0

abbrev pub read_u32 : List ℕ → ℕ
read_u32 (a ∷ b ∷ c ∷ d ∷ _) = a + 256 * b + 65536 * c + 16777216 * d
read_u32 (a ∷ b ∷ c ∷ []) = 0
read_u32 (a ∷ b ∷ []) = 0
read_u32 (a ∷ []) = 0
read_u32 [] = 0

-- The two and four bytes of a number, least significant first.
abbrev pub u16le : ℕ → List ℕ
u16le n = n % 256 ∷ n / 256 % 256 ∷ []

abbrev pub u32le : ℕ → List ℕ
u32le n = n % 256 ∷ n / 256 % 256 ∷ n / 65536 % 256 ∷ n / 16777216 % 256 ∷ []

pub read_u16-u16le : (n : ℕ) (rest : List ℕ) → n < 65536 → read_u16 (u16le n ++ rest) ≡ n
read_u16-u16le n rest h = omega arith

pub read_u32-u32le : (n : ℕ) (rest : List ℕ) → n < 2 ^ 32 → read_u32 (u32le n ++ rest) ≡ n
read_u32-u32le n rest h = omega arith

pub u16le_bytes : (a b : ℕ) → a < 256 → b < 256 → u16le (a + 256 * b) ≡ a ∷ b ∷ []
u16le_bytes a b ha hb =
    let first : (a + 256 * b) % 256 ≡ a = omega (arith, ha, hb) in
    let second : (a + 256 * b) / 256 % 256 ≡ b = omega (arith, ha, hb) in rw (first, second) refl

pub u32le_bytes :
    (a b c d : ℕ)
    → a < 256
    → b < 256
    → c < 256
    → d < 256
    → u32le (a + 256 * b + 65536 * c + 16777216 * d) ≡ a ∷ b ∷ c ∷ d ∷ []
u32le_bytes a b c d ha hb hc hd =
    let n : ℕ = a + 256 * b + 65536 * c + 16777216 * d in
    let first : n % 256 ≡ a = omega (arith, ha, hb, hc, hd) in
    let second : n / 256 % 256 ≡ b = omega (arith, ha, hb, hc, hd) in
    let third : n / 65536 % 256 ≡ c = omega (arith, ha, hb, hc, hd) in
    let fourth : n / 16777216 % 256 ≡ d = omega (arith, ha, hb, hc, hd) in
    rw (first, second, third, fourth) refl
