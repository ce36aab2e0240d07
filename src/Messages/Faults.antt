-- ===== src/Messages/Faults.antt =====
-- Frames that are not well-formed: when `process` throws, and the sizes from 2 ^ 15 on.
use edopro_server_ts.Prelude.{
  ℕ, suc, ◌+◌, ◌-◌, ◌*◌, ◌≤◌, ◌<◌, ◌≡◌, ◌↔◌, ◌⊎◌, inl, inr, refl, ap, ◌∙◌, none, some, true, List,
  [], ◌∷◌, arith, leb, length, Bool-cases, leb→le,
}
use edopro_server_ts.Prelude.Bytes.{drop, take_all, drop_all, read_u16}
use edopro_server_ts.Messages.{MessageProcessor, is_message_ready, process, process_ready, remember}
use edopro_server_ts.Messages.Framing.{remember-buffer}

-- A buffer of two bytes that announces no byte, or 2 ^ 15 or more.
abbrev pub IsFatal : List ℕ → Type 0
IsFatal [] = 1 ≤ 0
IsFatal (a ∷ []) = 1 ≤ 0
IsFatal (a ∷ b ∷ []) = (a + 256 * b ≡ 0) ⊎ (32768 ≤ a + 256 * b)
IsFatal (a ∷ b ∷ c ∷ _) = 1 ≤ 0

IsFatal-iff : (bs : List ℕ) (p : MessageProcessor) → p.buffer ≡ bs → (process p ≡ none) ↔ IsFatal bs
unfolding process
IsFatal-iff [] p e = rw (e, process) (λ h. cc, λ h. absurd (omega (arith, h)))
IsFatal-iff (a ∷ []) p e = rw (e, process) (λ h. cc, λ h. absurd (omega (arith, h)))
IsFatal-iff (a ∷ b ∷ []) p e = elim (Bool-cases (leb 32768 (a + 256 * b))) [
  | inl long ↦ rw (e, long, process) (λ _. inr (leb→le 32768 (a + 256 * b) long), λ _. refl)
  | inr short ↦ elim (Bool-cases (leb (a + 256 * b) 0)) [
    | inl none_left ↦
        rw (e, short, none_left, process) (λ _. inl (ground (arith, none_left)), λ _. refl)
    | inr some_left ↦
        rw (e, short, some_left, process)
          (λ h. cc, λ h. absurd (ground (arith, h, short, some_left)))
  ]
]
IsFatal-iff (a ∷ b ∷ c ∷ bs) p e = elim (Bool-cases (is_message_ready p)) [
  | inl ready ↦
      rw (ready, process) (rw (e, process_ready) (λ h. cc, λ h. absurd (omega (arith, h))))
  | inr idle ↦ rw (idle, process) (λ h. cc, λ h. absurd (omega (arith, h)))
]

-- Processing throws a `RangeError` exactly when the buffer has two bytes, and they announce no byte or
-- 2 ^ 15 bytes or more.
pub process_throws_iff : (p : MessageProcessor) → (process p ≡ none) ↔ IsFatal p.buffer
process_throws_iff p = IsFatal-iff p.buffer p refl

-- A frame that announces 2 ^ 15 bytes or more is processed as soon as its command is there: with less
-- of its body than it announces, what is there is taken for the whole, and the buffer is emptied.
pub process_cuts_long :
    (a b command : ℕ) (part : List ℕ) (p : MessageProcessor)
    → p.buffer ≡ a ∷ b ∷ command ∷ part
    → 32768 ≤ a + 256 * b
    → suc (length part) < a + 256 * b
    → (q : MessageProcessor) × (is_message_ready p ≡ true)
      × (process p ≡ some q)
      × (q.command ≡ some command)
      × (q.body ≡ part)
      × (q.buffer ≡ [])
unfolding process
process_cuts_long a b command part p e long missing =
    let ready : is_message_ready p ≡ true = rw e (ground arith) in
    (
      record (remember p) {
        size = some (a + 256 * b);
        command = some command;
        body = part;
        raw = some (a ∷ b ∷ command ∷ part);
        buffer = [];
      },
      ready,
      rw (ready, process)
          (ap (λ b. process_ready (read_u16 b) (drop 2 b) (remember p)) e
            ∙ rw (remember-buffer p ∙ e) (
                rw
                  (
                    take_all (a + 256 * b + 2 - 3) part (omega (arith, missing)),
                    take_all (a + 256 * b + 2) (a ∷ b ∷ command ∷ part) (omega (arith, missing)),
                    drop_all (a + 256 * b + 2) (a ∷ b ∷ command ∷ part) (omega (arith, missing)),
                  )
                  refl)),
      refl,
      refl,
      refl,
    )
