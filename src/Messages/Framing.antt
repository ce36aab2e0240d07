-- ===== src/Messages/Framing.antt =====
-- A stream of well-formed frames is read as its messages, however the socket cuts it.
use mathlib.Core.List.{append_assoc, append-nil, flatten}
use edopro_server_ts.Prelude.{
  ℕ, zero, suc, ◌+◌, ◌-◌, ◌/◌, ◌%◌, ◌<◌, ◌≡◌, refl, sym, ap, ◌∙◌, subst, some, true, false, List,
  [], ◌∷◌, ◌++◌, arith, ltb, leb, length, length-append, Bool-cases, inl, inr, All,
}
use edopro_server_ts.Prelude.Bytes.{
  take, drop, take_append, drop_append, append_split, read_u16, u16le,
}
use edopro_server_ts.Messages.{
  MessageProcessor, new_processor, is_message_ready, process, process_ready, remember,
  process_message, handle_message, handle_all, read, Outcome, read_all, after, Event, dispatch,
}

-- A message as it is sent: its size, which counts the command, the command, and the data.
pub record Message : Type 0 where
  pub command : ℕ
  pub body : List ℕ

abbrev pub frame : Message → List ℕ
frame m = u16le (suc (length m.body)) ++ m.command ∷ m.body

abbrev pub stream : List Message → List ℕ
stream [] = []
stream (m ∷ ms) = frame m ++ stream ms

abbrev pub events_of : List Message → List Event
events_of [] = []
events_of (m ∷ ms) = dispatch m.command m.body ++ events_of ms

-- The size fits into a signed number of two bytes.
abbrev pub IsShort : Message → Type 0
IsShort m = length m.body < 32767

frame_size :
    (m : Message) (rest : List ℕ) → IsShort m → read_u16 (frame m ++ rest) ≡ suc (length m.body)
frame_size m rest short = omega (arith, short)

length-frame : (m : Message) → length (frame m) ≡ 3 + length m.body
length-frame m = omega arith

ready-frame :
    (m : Message) (rest : List ℕ) (p : MessageProcessor)
    → IsShort m
    → p.buffer ≡ frame m ++ rest
    → is_message_ready p ≡ true
unfolding is_message_ready
ready-frame m rest p short e =
    rw e (ground (arith, frame_size m rest short, length-append m.body rest))

pub remember-buffer : (p : MessageProcessor) → (remember p).buffer ≡ p.buffer
remember-buffer p = elim (Bool-cases (ltb 0 (length p.body))) [
  | inl some_data ↦ rw (some_data, remember) refl
  | inr no_data ↦ rw (no_data, remember) refl
]

-- The processor once the message, whose frame stands before the rest of the buffer, is processed.
abbrev pub processed : Message → List ℕ → MessageProcessor → MessageProcessor
processed m rest p = record p {
  size = some (suc (length m.body));
  command = some m.command;
  body = m.body;
  raw = some (frame m);
  buffer = rest;
}

process_ready-frame :
    (m : Message) (rest : List ℕ) (r : MessageProcessor)
    → IsShort m
    → r.buffer ≡ frame m ++ rest
    → process_ready (read_u16 (frame m ++ rest)) (m.command ∷ m.body ++ rest) r
      ≡ some (processed m rest r)
process_ready-frame m rest r short e =
    let size = frame_size m rest short in
    let body : take (suc (length m.body) + 2 - 3) (drop 3 (frame m ++ rest)) ≡ m.body =
      rw (three-back (length m.body)) (take_append m.body rest) in
    let raw : take (suc (length m.body) + 2) (frame m ++ rest) ≡ frame m =
      rw (three-on (length m.body))
        (ap (λ xs. u16le (suc (length m.body)) ++ m.command ∷ xs) (take_append m.body rest)) in
    let left : drop (suc (length m.body) + 2) (frame m ++ rest) ≡ rest =
      rw (three-on (length m.body)) (drop_append m.body rest) in
    rw (size, e, body, raw, left) refl
  where
    three-back : (n : ℕ) → suc n + 2 - 3 ≡ n
    three-back n = omega arith

    three-on : (n : ℕ) → suc n + 2 ≡ suc (suc (suc n))
    three-on n = omega arith

process-frame :
    (m : Message) (rest : List ℕ) (p : MessageProcessor)
    → IsShort m
    → p.buffer ≡ frame m ++ rest
    → process p ≡ some (processed m rest (remember p))
unfolding process
process-frame m rest p short e =
    rw (ready-frame m rest p short e, process)
      (ap (λ b. process_ready (read_u16 b) (drop 2 b) (remember p)) e
        ∙ process_ready-frame m rest (remember p) short (remember-buffer p ∙ e))

-- A buffer that holds less than the next frame is not ready.
not_ready :
    (m : Message) (y later bs : List ℕ) (p : MessageProcessor)
    → IsShort m
    → p.buffer ≡ bs
    → bs ++ later ≡ frame m ++ y
    → length bs < 3 + length m.body
    → is_message_ready p ≡ false
unfolding is_message_ready
not_ready m y later [] p short e cut h = rw e refl
not_ready m y later (a ∷ []) p short e cut h = rw e refl
not_ready m y later (a ∷ b ∷ bs) p short e cut h =
    let first : a ≡ suc (length m.body) % 256 = cc in
    let second : b ≡ suc (length m.body) / 256 % 256 = cc in
    rw e (ground (arith, first, second, h, short))

not_ready-nil : (r : MessageProcessor) → r.buffer ≡ [] → is_message_ready r ≡ false
unfolding is_message_ready
not_ready-nil r e = rw e refl

abbrev pub ReadsUpTo : List Message → List ℕ → Outcome → Type 0
ReadsUpTo ms later outcome =
    (done : List Message) × (left : List Message) × (q : MessageProcessor) × (outcome
      ≡ read_all (events_of done) q)
    × (ms ≡ done ++ left)
    × (q.buffer ++ later ≡ stream left)
    × (is_message_ready q ≡ false)

process_message-reads :
    (fuel : ℕ) (ms : List Message) (later : List ℕ) (p : MessageProcessor)
    → All IsShort ms
    → p.buffer ++ later ≡ stream ms
    → length p.buffer < fuel
    → ReadsUpTo ms later (process_message fuel p)
unfolding process_message
process_message-reads zero ms later p short e h = absurd (omega (arith, h))
process_message-reads (suc fuel) [] later p short e h =
    let idle = not_ready-nil p (nil_left p.buffer later e) in
    ([], [], p, rw (idle, process_message) refl, refl, e, idle)
  where
    nil_left : (xs ys : List ℕ) → xs ++ ys ≡ [] → xs ≡ []
    nil_left [] ys e' = refl
    nil_left (x ∷ xs) ys e' = cc
process_message-reads (suc fuel) (m ∷ ms) later p (short, shorts) e h =
    elim (Bool-cases (leb (3 + length m.body) (length p.buffer))) [
      | inr cut ↦
          let idle = not_ready m (stream ms) later p.buffer p short refl e (ground (arith, cut)) in
          ([], m ∷ ms, p, rw (idle, process_message) refl, refl, e, idle)
      | inl whole ↦
          let (ws, cut, rest) =
            append_split (frame m) (stream ms) p.buffer later e (ground (arith, whole)) in
          let next = processed m ws (remember p) in
          let (done, left, q, read, split, kept, idle) =
            process_message-reads fuel ms later next shorts rest
              (omega (arith, h, ap length cut, length-append (frame m) ws)) in
          (
            m ∷ done,
            left,
            q,
            rw (ready-frame m ws p short cut, process-frame m ws p short cut, process_message)
                (ap (after (dispatch m.command m.body)) read),
            ap (λ xs. m ∷ xs) split,
            kept,
            idle,
          )
    ]

events_of-append : (ms ns : List Message) → events_of (ms ++ ns) ≡ events_of ms ++ events_of ns
events_of-append [] ns = refl
events_of-append (m ∷ ms) ns =
    ap (λ es. dispatch m.command m.body ++ es) (events_of-append ms ns)
    ∙ sym (append_assoc (dispatch m.command m.body) (events_of ms) (events_of ns))

All-suffix : (ms ns : List Message) → All IsShort (ms ++ ns) → All IsShort ns
All-suffix [] ns h = h
All-suffix (m ∷ ms) ns (_, h) = All-suffix ms ns h

handle_message-reads :
    (chunk later : List ℕ) (ms : List Message) (p : MessageProcessor)
    → All IsShort ms
    → p.buffer ++ (chunk ++ later) ≡ stream ms
    → ReadsUpTo ms later (handle_message chunk p)
unfolding handle_message
handle_message-reads chunk later ms p short e =
    process_message-reads (suc (length p.buffer + length chunk)) ms later (read chunk p) short
      (append_assoc p.buffer chunk later ∙ e) (omega (arith, length-append p.buffer chunk))

handle_all-reads :
    (chunks : List (List ℕ)) (ms : List Message) (p : MessageProcessor)
    → All IsShort ms
    → is_message_ready p ≡ false
    → p.buffer ++ flatten chunks ≡ stream ms
    → (q : MessageProcessor) × (handle_all chunks p ≡ read_all (events_of ms) q) × (q.buffer ≡ [])
unfolding handle_all flatten
handle_all-reads [] [] p short idle e = (p, refl, sym (append-nil p.buffer) ∙ e)
handle_all-reads [] (m ∷ ms) p (short, _) idle e =
    let ready = ready-frame m (stream ms) p short (sym (append-nil p.buffer) ∙ e) in cc
handle_all-reads (chunk ∷ chunks) ms p short idle e =
    let (done, left, q, reads, split, kept, idle') =
      handle_message-reads chunk (flatten chunks) ms p short e in
    let short_left = All-suffix done left (subst (All IsShort) split short) in
    let (r, rest, empty) = handle_all-reads chunks left q short_left idle' kept in
    (
      r,
      rw (reads, rest, split, handle_all)
          (ap (λ es. read_all es r) (sym (events_of-append done left))),
      empty,
    )

-- However a socket cuts the stream of well-formed frames of less than 2 ^ 15 bytes into chunks, the
-- emitter makes the calls for exactly their messages, in order, ends, and keeps nothing back.
pub handle_all_delivers :
    (chunks : List (List ℕ)) (ms : List Message)
    → All IsShort ms
    → flatten chunks ≡ stream ms
    → (q : MessageProcessor) × (handle_all chunks new_processor ≡ read_all (events_of ms) q)
      × (q.buffer ≡ [])
handle_all_delivers chunks ms short e =
    handle_all-reads chunks ms new_processor short (not_ready-nil new_processor refl) e
