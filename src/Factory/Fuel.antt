-- ===== src/Factory/Fuel.antt =====
-- The loop over the option lines of `decodeMessageOption` in src/communicate/message_factory.cpp
-- ends.
use net_cpp.Base.{
  ℕ, zero, suc, ◌+◌, ◌<◌, ◌≤◌, ◌≡◌, ◌≢◌, ◌⊎◌, ◌∙◌, ap, refl, true, false, [], ◌∷◌, Bool, Bytes,
  length, ◌==◌, arith, inl, inr,
}
use net_cpp.Outcome.{Outcome, ok, reject, throws, fault, ◌>>=◌, bind-eq-ok, ok_inj, at}
use net_cpp.Message.{Message}
use net_cpp.Factory.Decode.{expect, read_until, decode_option, option_loop}

at_outside : (raw : Bytes) (i : ℕ) → length raw ≤ i → at raw i ≡ fault
unfolding at
at_outside [] i h = refl
at_outside (x ∷ xs) zero h = ground arith
at_outside (x ∷ xs) (suc i) h = at_outside xs i (omega (arith, h))

expect-eq : (raw : Bytes) (i c j : ℕ) → expect raw i c ≡ ok j → j ≡ i + 1
unfolding expect
expect-eq raw i c j e = ground arith

read_until-grows : (raw : Bytes) (i c j : ℕ) (s : Bytes) → read_until raw i c ≡ ok (s, j) → i < j
unfolding read_until
read_until-grows raw i c j s e = ground arith

-- An option line is not empty.
decode_option-grows :
    (raw : Bytes) (i j : ℕ) (m n : Message) → decode_option raw i m ≡ ok (j, n) → i < j
unfolding decode_option
decode_option-grows raw i j m n e =
    let ((key, i1), e1, r1) = bind-eq-ok (read_until raw i b'"') _ e in
    let (i2, e2, r2) = bind-eq-ok (expect raw i1 b':') _ r1 in
    let (i3, e3, r3) = bind-eq-ok (expect raw i2 b'"') _ r2 in
    let ((value, i4), e4, r4) = bind-eq-ok (read_until raw i3 b'"') _ r3 in
    let (i5, e5, r5) = bind-eq-ok (expect raw i4 b'\r') _ r4 in
    let (i6, e6, r6) = bind-eq-ok (expect raw i5 b'\n') _ r5 in
    let last : i6 ≡ j = ap (λ (p : ℕ × Message). p.0) (ok_inj r6) in
    omega (
      arith,
      last,
      read_until-grows raw i b'"' i1 key e1,
      expect-eq raw i1 b':' i2 e2,
      expect-eq raw i2 b'"' i3 e3,
      read_until-grows raw i3 b'"' i4 value e4,
      expect-eq raw i4 b'\r' i5 e5,
      expect-eq raw i5 b'\n' i6 e6,
    )

-- A finite run of the loop over the option lines: it reads past the end, it ends at a byte that is
-- no quote, a line is not decoded, or a line is decoded and the loop goes on behind it.
pub data OptionRun (raw : Bytes) : ℕ → Message → Outcome (ℕ × Message) → Type 0 where
  outside : {i : ℕ} {m : Message} → length raw ≤ i → OptionRun raw i m fault
  ended :
      {i c : ℕ} {m : Message}
      → at raw i ≡ ok c
      → (c == b'"') ≡ false
      → OptionRun raw i m (ok (i + 1, m))
  failed :
      {i : ℕ} {m : Message} {r : Outcome (ℕ × Message)}
      → at raw i ≡ ok b'"'
      → decode_option raw (i + 1) m ≡ r
      → ((j : ℕ) (n : Message) → r ≢ ok (j, n))
      → OptionRun raw i m r
  next_line :
      {i j : ℕ} {m n : Message} {r : Outcome (ℕ × Message)}
      → at raw i ≡ ok b'"'
      → decode_option raw (i + 1) m ≡ ok (j, n)
      → OptionRun raw j n r
      → OptionRun raw i m r

at-cases : (raw : Bytes) (i : ℕ) → (length raw ≤ i) ⊎ ((c : ℕ) × (at raw i ≡ ok c))
unfolding at
at-cases [] i = inl (omega arith)
at-cases (x ∷ xs) zero = inr (x, refl)
at-cases (x ∷ xs) (suc i) = elim (at-cases xs i) [ inl h ↦ inl (omega (arith, h)) | inr h ↦ inr h ]

-- What the loop does behind a line.
abbrev behind : ℕ → Bytes → Outcome (ℕ × Message) → Outcome (ℕ × Message)
behind f raw r = r >>= λ (j, n). option_loop f raw j n

line-OptionRun :
    (raw : Bytes) (f i : ℕ) (m : Message) (r : Outcome (ℕ × Message))
    → at raw i ≡ ok b'"'
    → decode_option raw (i + 1) m ≡ r
    → ((j : ℕ) (n : Message)
        → decode_option raw (i + 1) m ≡ ok (j, n)
        → OptionRun raw j n (option_loop f raw j n))
    → OptionRun raw i m (behind f raw r)
line-OptionRun raw f i m (ok (j, n)) a d ih = next_line a d (ih j n d)
line-OptionRun raw f i m reject a d ih = failed a d (λ j n e. cc)
line-OptionRun raw f i m (throws x) a d ih = failed a d (λ j n e. cc)
line-OptionRun raw f i m fault a d ih = failed a d (λ j n e. cc)

char-OptionRun :
    (raw : Bytes) (f i c : ℕ) (m : Message) (quote : Bool)
    → at raw i ≡ ok c
    → (c == b'"') ≡ quote
    → ((j : ℕ) (n : Message)
        → decode_option raw (i + 1) m ≡ ok (j, n)
        → OptionRun raw j n (option_loop f raw j n))
    → OptionRun raw i m
        (elim quote [ true ↦ behind f raw (decode_option raw (i + 1) m) | false ↦ ok (i + 1, m) ])
char-OptionRun raw f i c m true a t ih =
    let same : c ≡ b'"' = ground (arith, t) in
    line-OptionRun raw f i m (decode_option raw (i + 1) m) (a ∙ ap ok same) refl ih
char-OptionRun raw f i c m false a t ih = ended a t

-- `option_loop`, with fuel for each byte that is left and one more, as `decode_options` gives it,
-- makes a finite run of the loop to its end: on every buffer, from every index, the loop ends, and
-- the result is what the lines give.
pub option_loop-OptionRun :
    (raw : Bytes) (f i : ℕ) (m : Message)
    → length raw < i + f
    → OptionRun raw i m (option_loop f raw i m)
unfolding option_loop
option_loop-OptionRun raw zero i m short = outside (omega (arith, short))
option_loop-OptionRun raw (suc f) i m short = elim (at-cases raw i) [
  | inl out ↦ rw (at_outside raw i out) (outside out)
  | inr (c, a) ↦ rw a (
      char-OptionRun raw f i c m (c == b'"') a refl (λ j n d.
        option_loop-OptionRun raw f j n
          (omega (arith, short, decode_option-grows raw (i + 1) j m n d))))
]
