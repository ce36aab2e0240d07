-- ===== src/Matchmaking/Protocol/Truncate.antt =====
-- `truncateUtf8` cuts between characters.
use mathlib.Core.List.{append-nil}
use edopro_server_ts.Prelude.{
  ℕ, zero, suc, ◌+◌, ◌-◌, ◌≤◌, ◌<◌, ◌≡◌, ◌⊎◌, inl, inr, refl, sym, ap, ◌∙◌, subst, true, false,
  List, [], ◌∷◌, ◌++◌, arith, length, leb, length-append, Bool-cases, All,
}
use edopro_server_ts.Prelude.Bytes.{take}
use edopro_server_ts.Matchmaking.Protocol.{byte_at, is_continuation, cut_point, truncate_utf8}

-- A character in UTF-8: a byte that is not a continuation, and the continuations after it.
pub record Character : Type 0 where
  pub lead : ℕ
  pub more : List ℕ

abbrev pub bytes_of : Character → List ℕ
bytes_of c = c.lead ∷ c.more

abbrev pub text_bytes : List Character → List ℕ
text_bytes [] = []
text_bytes (c ∷ cs) = bytes_of c ++ text_bytes cs

abbrev pub IsWellFormed : Character → Type 0
IsWellFormed c = (is_continuation c.lead ≡ false) × All (λ b. is_continuation b ≡ true) c.more

byte_at-skip : (k : ℕ) (xs ys : List ℕ) → byte_at (length xs + k) (xs ++ ys) ≡ byte_at k ys
byte_at-skip k [] ys = ap (λ n. byte_at n ys) (omega arith)
byte_at-skip k (x ∷ xs) ys =
    let next : suc (length xs) + k ≡ suc (length xs + k) = omega arith in
    rw next (byte_at-skip k xs ys)

byte_at-inside :
    (k : ℕ) (xs ys : List ℕ)
    → All (λ b. is_continuation b ≡ true) xs
    → k < length xs
    → is_continuation (byte_at k (xs ++ ys)) ≡ true
byte_at-inside k [] ys h short = absurd (omega (arith, short))
byte_at-inside zero (x ∷ xs) ys (h, _) short = h
byte_at-inside (suc k) (x ∷ xs) ys (_, h) short = byte_at-inside k xs ys h (omega (arith, short))

-- Inside the first character the cut falls back to the start.
cut_point-inside :
    (m : ℕ) (c : Character) (rest : List ℕ)
    → IsWellFormed c
    → m ≤ length c.more
    → cut_point (bytes_of c ++ rest) m ≡ 0
unfolding cut_point
cut_point-inside zero c rest h short = refl
cut_point-inside (suc m) c rest (lead, more) short =
    rw (byte_at-inside m c.more rest more (omega (arith, short)))
      (cut_point-inside m c rest (lead, more) (omega (arith, short)))

-- After it, the cut is that of the rest.
cut_point-skip :
    (k : ℕ) (c : Character) (rest : List ℕ)
    → is_continuation (byte_at 0 rest) ≡ false
    → cut_point (bytes_of c ++ rest) (suc (length c.more + k))
      ≡ suc (length c.more + cut_point rest k)
unfolding cut_point
cut_point-skip zero c rest h = rw (byte_at-skip 0 c.more rest, h) refl
cut_point-skip (suc k) c rest h =
    let next : length c.more + suc k ≡ suc (length c.more + k) = omega arith in
    elim (Bool-cases (is_continuation (byte_at (suc k) rest))) [
      | inl more ↦ rw (byte_at-skip (suc k) c.more rest, more, next) (cut_point-skip k c rest h)
      | inr ends ↦ rw (byte_at-skip (suc k) c.more rest, ends) refl
    ]

take-append-add : (k : ℕ) (xs ys : List ℕ) → take (length xs + k) (xs ++ ys) ≡ xs ++ take k ys
take-append-add k [] ys = ap (λ n. take n ys) (omega arith)
take-append-add k (x ∷ xs) ys =
    let next : suc (length xs) + k ≡ suc (length xs + k) = omega arith in
    rw next (ap (λ zs. x ∷ zs) (take-append-add k xs ys))

head_lead :
    (cs : List Character)
    → All IsWellFormed cs
    → is_continuation (byte_at 0 (text_bytes cs)) ≡ false
head_lead [] h = refl
head_lead (c ∷ cs) ((lead, _), _) = lead

-- The next character would not have fitted.
abbrev pub NoRoom : ℕ → List Character → Type 0
NoRoom room [] = 1 ≤ 0
NoRoom room (c ∷ _) = room < length (bytes_of c)

-- A cut of a text that is too long.
cut_point-splits :
    (m : ℕ) (cs : List Character)
    → All IsWellFormed cs
    → m < length (text_bytes cs)
    → (kept : List Character) × (dropped : List Character) × (cs ≡ kept ++ dropped)
      × (take (cut_point (text_bytes cs) m) (text_bytes cs) ≡ text_bytes kept)
      × (length (text_bytes kept) ≤ m)
      × NoRoom (m - length (text_bytes kept)) dropped
cut_point-splits m [] h long = absurd (omega (arith, long))
cut_point-splits m (c ∷ cs) (hc, h) long = elim (Bool-cases (leb m (length c.more))) [
  | inl inside ↦
      let cut = cut_point-inside m c (text_bytes cs) hc (ground (arith, inside)) in
      ([], c ∷ cs, refl, rw cut refl, omega arith, ground (arith, inside))
  | inr after ↦
      let k : ℕ = m - suc (length c.more) in
      let split : m ≡ suc (length c.more + k) = ground (arith, after) in
      let (kept, dropped, parts, taken, fits, full) =
        cut_point-splits k cs h
          (omega (arith, split, long, length-append c.more (text_bytes cs))) in
      (
        c ∷ kept,
        dropped,
        ap (λ ds. c ∷ ds) parts,
        rw
            (ap (cut_point (bytes_of c ++ text_bytes cs)) split
              ∙ cut_point-skip k c (text_bytes cs) (head_lead cs h))
            (ap (λ zs. c.lead ∷ zs)
              (take-append-add (cut_point (text_bytes cs) k) c.more (text_bytes cs)
                ∙ ap (λ zs. c.more ++ zs) taken)),
        omega (arith, fits, split, length-append c.more (text_bytes kept)),
        subst (λ room. NoRoom room dropped)
            (omega (arith, split, length-append c.more (text_bytes kept))) full,
      )
]

-- Of a text of well-formed characters, truncation keeps whole characters, no more bytes than asked, and
-- as many characters as fit: all of them, or until the next would not have fitted.
pub truncate_utf8_keeps :
    (cs : List Character) (max_bytes : ℕ)
    → All IsWellFormed cs
    → (kept : List Character) × (dropped : List Character) × (cs ≡ kept ++ dropped)
      × (truncate_utf8 (text_bytes cs) max_bytes ≡ text_bytes kept)
      × (length (text_bytes kept) ≤ max_bytes)
      × ((dropped ≡ []) ⊎ NoRoom (max_bytes - length (text_bytes kept)) dropped)
unfolding truncate_utf8
truncate_utf8_keeps cs max_bytes h = elim (Bool-cases (leb (length (text_bytes cs)) max_bytes)) [
  | inl short ↦ (cs, [], sym (append-nil cs), rw short refl, ground (arith, short), inl refl)
  | inr long ↦
      let (kept, dropped, parts, taken, fits, full) =
        cut_point-splits max_bytes cs h (ground (arith, long)) in
      (kept, dropped, parts, rw long taken, fits, inr full)
]
