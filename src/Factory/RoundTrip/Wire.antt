-- ===== src/Factory/RoundTrip/Wire.antt =====
-- The bytes of a whole message, and `decodeMessage` on them.
use net_cpp.Base.{
  ℕ, ◌+◌, ◌^◌, ◌<◌, ◌≤◌, ◌≡◌, refl, ap, List, [], ◌∷◌, ◌++◌, Bytes, All, codes, length,
  length-append, arith, string_eq, take-append, Bool-cases, inl, inr, le→ltb_false,
}
use net_cpp.Number.{to_string, decimal}
use net_cpp.Number.RoundTrip.{stoi-decimal}
use net_cpp.Outcome.{ok, At}
use net_cpp.Message.{
  MessageOption, Message, msg_tail, add_option, add_to, value_in, get_value, push_data, set_head,
  clear,
}
use net_cpp.Message.Laws.{DistinctKeys, add_to-present}
use net_cpp.Sign.{IsPlain}
use net_cpp.Factory.Encode.{head_text, push_options}
use net_cpp.Factory.Decode.{push_from, decode_body, decode_tail, decode_message}
use net_cpp.Factory.Checksum.{checksum}
use net_cpp.Factory.Cursor.{At-next, At-skip, At-front, expect-At, expect_all-At}
use net_cpp.Factory.RoundTrip.Head.{HeadFits, decode_head-head_text}
use net_cpp.Factory.RoundTrip.Options.{PlainOption, lines, push_options-lines, behind_lines}
use net_cpp.Factory.RoundTrip.Section.{add_all-options, decode_options-lines}

-- The option "size" counts the data.
abbrev pub IsSized : Message → Type 0
IsSized m = value_in (codes "size") m.options ≡ ok (decimal (length m.data_bytes))

-- What `decode_body` does before the CRLF: the data comes back, and the option "size" stays.
pub decode_body-At :
    (raw : Bytes) (i : ℕ) (m : Message) (body rest : Bytes)
    → At raw i (body ++ (b'\r' ∷ b'\n' ∷ rest))
    → length body < 2 ^ 31
    → value_in (codes "size") m.options ≡ ok (decimal (length body))
    → m.data_bytes ≡ []
    → decode_body raw i m ≡ ok (i + length body + 1 + 1, record m { data_bytes = body })
unfolding decode_body push_from get_value push_data add_option
decode_body-At raw i m body rest a short sized empty =
    let a1 = At-skip raw i body _ a in
    let a2 = At-next raw (i + length body) b'\r' _ a1 in
    let inside : i + length body ≤ length raw =
      omega (arith, a.count, length-append {0} body (b'\r' ∷ b'\n' ∷ rest)) in
    rw (
      sized,
      stoi-decimal (length body) short,
      le→ltb_false (length raw) (i + length body) inside,
      a.here,
      take-append body (b'\r' ∷ b'\n' ∷ rest),
      empty,
      add_to-present (codes "size") (decimal (length body)) m.options sized,
      expect-At raw (i + length body) b'\r' _ a1,
      expect-At raw (i + length body + 1) b'\n' _ a2,
    )

pub add_to-plain :
    (k v : Bytes) (os : List MessageOption)
    → IsPlain k
    → IsPlain v
    → All PlainOption os
    → All PlainOption (add_to k v os)
unfolding add_to
add_to-plain k v [] pk pv p = ((pk, pv), tt)
add_to-plain k v (o ∷ os) pk pv p = elim (Bool-cases (string_eq o.key k)) [
  | inl e ↦ rw e ((p.0.0, pv), p.1)
  | inr e ↦ rw e (p.0, add_to-plain k v os pk pv p.1)
]

-- What a message needs to survive the wire: numbers that fit their types, the version of the
-- program, options with distinct keys and texts without quotes and NULs, and the size of the data
-- in the option "size", where `pushData` puts it.
pub record Encodable (m : Message) : Type 0 where
  pub fits : HeadFits m
  pub plain : All PlainOption m.options
  pub distinct : DistinctKeys m.options
  pub sized : IsSized m

-- The bytes of a message: the parts that the four encoders append, in order.
module _ (s : Message) where
  abbrev pub front : Bytes
  front = push_options s.options (head_text s)

  abbrev pub body_part : Bytes
  body_part = s.data_bytes ++ (b'\r' ∷ b'\n' ∷ msg_tail)

  abbrev pub sum_part : Bytes
  sum_part = to_string (checksum front) ++ (b'\r' ∷ b'\n' ∷ b'\r' ∷ b'\n' ∷ body_part)

  abbrev pub wire : Bytes
  wire = front ++ sum_part

pub wire-head : (s : Message) → wire s ≡ head_text s ++ lines s.options (sum_part s)
wire-head s = push_options-lines s.options (head_text s) (sum_part s)

pub length-front-le : (s : Message) → 0 < length (front s)
length-front-le s = omega (
  arith,
  ap length (push_options-lines s.options (head_text s) []),
  length-append {0} (front s) [],
  length-append {0} (head_text s) (lines s.options []),
)

-- All parts in turn.
pub decode_message-wire :
    (s n : Message)
    → Encodable s
    → length (front s) < 2 ^ 31
    → length s.data_bytes < 2 ^ 31
    → decode_message (wire s) n ≡ ok (record s { version = n.version })
unfolding decode_message set_head clear decode_tail
decode_message-wire s n good short data_short =
    let raw = wire s in
    let i = length (head_text s) in
    let a1 = At-front raw (head_text s) _ (wire-head s) in
    let headed = set_head s.tid s.type (clear n) in
    let (read, a2) =
      decode_options-lines raw i s.options (checksum (front s)) headed (body_part s) (front s) a1
        good.plain refl (length-front-le s) short refl in
    let j = behind_lines s.options i + length (to_string (checksum (front s))) + 1 + 1 + 1 + 1 in
    let optioned = record headed { options = s.options } in
    let a3 = At-next raw _ b'\r' _ (At-skip raw j s.data_bytes (b'\r' ∷ b'\n' ∷ msg_tail) a2) in
    let a4 = At-next raw _ b'\n' _ a3 in
    rw (
      (rw (← wire-head s) at
          (decode_head-head_text s (clear n) (lines s.options (sum_part s)) good.fits)),
      read,
      add_all-options s.options headed good.distinct,
      decode_body-At raw j optioned s.data_bytes msg_tail a2 data_short good.sized refl,
      expect_all-At raw (j + length s.data_bytes + 1 + 1) msg_tail [] a4,
    )
