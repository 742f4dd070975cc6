-- ===== src/Factory/RoundTrip/Section.antt =====
-- The option section: its lines, its checksum and the blank line.
use net_cpp.Base.{
  ℕ, suc, ◌+◌, ◌-◌, ◌^◌, ◌<◌, ◌≤◌, ◌≡◌, ◌≢◌, refl, sym, ap, ◌∙◌, List, [], ◌∷◌, ◌++◌, Bytes, All,
  length, length-append, append_assoc, append-nil, arith, ℤ, pos, negsuc, sub_ℕ, eqb_ℤ_iff,
}
use net_cpp.Number.{to_string, decimal, to_int32, InRange}
use net_cpp.Number.RoundTrip.{decimal-All, decimal-cons, stoi-to_string, to_int16_id, InRange-mono}
use net_cpp.Outcome.{ok, At}
use net_cpp.Message.{MessageOption, Message, add_option}
use net_cpp.Message.Laws.{Lacks, DistinctKeys, add_to-absent}
use net_cpp.Factory.Decode.{decode_options}
use net_cpp.Factory.Checksum.{checksum, calculate_options_hash-append, hash_loop-InRange}
use net_cpp.Factory.Cursor.{At-next, expect-At, read_until-At, At-read}
use net_cpp.Factory.RoundTrip.Head.{to_string-no_cr}
use net_cpp.Factory.RoundTrip.Options.{
  PlainOption, lines, add_all, behind_lines, At-lines, option_loop-lines,
}

-- A printed number does not begin with a quote.
to_string-cons : (z : ℤ) → (c : ℕ) × (cs : Bytes) × (to_string z ≡ c ∷ cs) × (c ≢ b'"')
unfolding to_string
to_string-cons (pos n) =
    let (c, cs, e) = decimal-cons n in
    let d = rw e at (decimal-All n) in (c, cs, e, ground (arith, d.0))
to_string-cons (negsuc n) = (b'-', decimal (suc n), refl, ground arith)

DistinctKeys-Lacks :
    (xs os : List MessageOption) (o : MessageOption) → DistinctKeys (xs ++ o ∷ os) → Lacks o.key xs
DistinctKeys-Lacks [] os o d = tt
DistinctKeys-Lacks (x ∷ xs) os o d =
    (λ e. Lacks-mid xs os o x.key d.0 (sym e), DistinctKeys-Lacks xs os o d.1)
  where
    Lacks-mid :
        (xs os : List MessageOption) (o : MessageOption) (k : Bytes)
        → Lacks k (xs ++ o ∷ os)
        → o.key ≢ k
    Lacks-mid [] os o k l = l.0
    Lacks-mid (x ∷ xs) os o k l = Lacks-mid xs os o k l.1

-- Distinct options are appended in order.
pub add_all-options :
    (os : List MessageOption) (m : Message)
    → DistinctKeys (m.options ++ os)
    → add_all os m ≡ record m { options = m.options ++ os }
unfolding add_option
add_all-options [] m d = rw append-nil
add_all-options (o ∷ os) m d =
    let added = add_to-absent o.key o.value m.options (DistinctKeys-Lacks m.options os o d) in
    let assoc = append_assoc m.options (o ∷ []) os in
    rw added
      (add_all-options os (record m { options = m.options ++ o ∷ [] }) (rw assoc d) ∙ rw assoc)

length-lines : (os : List MessageOption) (rest : Bytes) → length os ≤ length (lines os rest)
length-lines [] rest = omega arith
length-lines (o ∷ os) rest = omega (
  arith,
  length-append {0} o.key
      (b'"' ∷ b':' ∷ b'"' ∷ (o.value ++ (b'"' ∷ b'\r' ∷ b'\n' ∷ lines os rest))),
  length-append {0} o.value (b'"' ∷ b'\r' ∷ b'\n' ∷ lines os rest),
  length-lines os rest,
)

-- A section whose checksum is right is read to its end, wherever it starts, if there is a byte
-- before the checksum.
pub decode_options-lines :
    (raw : Bytes) (i : ℕ) (os : List MessageOption) (h : ℤ) (m : Message) (rest front : Bytes)
    → let j = behind_lines os i in
      let digits = to_string h ++ (b'\r' ∷ b'\n' ∷ b'\r' ∷ b'\n' ∷ rest) in
      At raw i (lines os digits)
      → All PlainOption os
      → raw ≡ front ++ digits
      → 0 < length front
      → length front < 2 ^ 31
      → h ≡ checksum front
      → (decode_options raw i m ≡ ok (j + length (to_string h) + 1 + 1 + 1 + 1, add_all os m))
        × At raw (j + length (to_string h) + 1 + 1 + 1 + 1) rest
unfolding decode_options
decode_options-lines raw i os h m rest front a p split some_byte short sum =
    let (c, cs, e, ne) = to_string-cons h in
    let j = behind_lines os i in
    let tail = b'\r' ∷ b'\n' ∷ b'\r' ∷ b'\n' ∷ rest in
    let here = At-lines raw os i m (to_string h ++ tail) a p in
    let back : j + 1 - 1 ≡ j = omega arith in
    let front_end : j ≡ length front =
      omega (arith, here.count, ap length split, length-append {0} front (to_string h ++ tail)) in
    let k = j + length (to_string h) + 1 in
    let a1 = At-read raw j b'\r' (to_string h) _ here in
    let a2 = At-next raw k b'\n' _ a1 in
    let a3 = At-next raw (k + 1) b'\r' _ a2 in
    let range : to_int32 (sub_ℕ (j + 1) 2) ≡ to_int32 (sub_ℕ j 1) = ap to_int32 (ground arith) in
    let hash = rw (← split) at (
      calculate_options_hash-append front (to_string h ++ tail) j front_end (omega arith)
        (omega arith)) in
    let in_range : InRange (2 ^ 15) h =
      rw sum (hash_loop-InRange (length front - 1) 0 (pos 0) front (omega arith)) in
    (
      rw (
        option_loop-lines (suc (length raw)) raw os i c m (cs ++ tail)
            (omega (arith, a.count, length-lines os (to_string h ++ tail))) (rw e at a) p ne,
        back,
        read_until-At raw j b'\r' (to_string h) _ here (to_string-no_cr h),
        expect-At raw k b'\n' _ a1,
        stoi-to_string h (InRange-mono (2 ^ 15) (2 ^ 31) h (omega arith) in_range),
        range,
        hash,
        to_int16_id h in_range,
        (eqb_ℤ_iff (checksum front) h).1 (sym sum),
        expect-At raw (k + 1) b'\r' _ a2,
        expect-At raw (k + 1 + 1) b'\n' _ a3,
      ),
      At-next raw (k + 1 + 1) b'\n' rest a3,
    )
