-- ===== src/Factory/RoundTrip/Options.antt =====
-- The option lines: `option_loop` behind `push_options`.
use net_cpp.Base.{
  ℕ, zero, suc, ◌+◌, ◌<◌, ◌≡◌, ◌≢◌, refl, ◌∙◌, List, [], ◌∷◌, ◌++◌, Bytes, All, All-mono, length,
  append_assoc, arith, ==_ne,
}
use net_cpp.Outcome.{ok, ◌>>=◌, At, at-At}
use net_cpp.Message.{MessageOption, Message, add_option}
use net_cpp.Sign.{IsPlain}
use net_cpp.Factory.Encode.{option_line, push_options}
use net_cpp.Factory.Decode.{c_str, decode_option, option_loop}
use net_cpp.Factory.Cursor.{At-next, expect-At, read_until-At, At-read}

-- Key and value can be written between quotes.
abbrev pub PlainOption : MessageOption → Type 0
PlainOption o = IsPlain o.key × IsPlain o.value

-- The option lines in front of `rest`.
abbrev pub lines : List MessageOption → Bytes → Bytes
lines [] rest = rest
lines (o ∷ os) rest =
    b'"' ∷ (o.key ++ (b'"' ∷ b':' ∷ b'"' ∷ (o.value ++ (b'"' ∷ b'\r' ∷ b'\n' ∷ lines os rest))))

pub push_options-lines :
    (os : List MessageOption) (raw rest : Bytes)
    → push_options os raw ++ rest ≡ raw ++ lines os rest
unfolding push_options
push_options-lines [] raw rest = refl
push_options-lines (o ∷ os) raw rest =
    push_options-lines os (raw ++ option_line o) rest ∙ simp append_assoc

pub c_str_plain : (s : Bytes) → IsPlain s → c_str s ≡ s
unfolding c_str
c_str_plain [] p = refl
c_str_plain (c ∷ cs) p = ground (arith, c_str_plain cs p.1)

no_quote : (s : Bytes) → IsPlain s → All (λ c. c ≢ b'"') s
no_quote = All-mono (λ c. (c ≢ b'"') × (c ≢ 0)) (λ c. c ≢ b'"') (λ c h. h.0)

-- The index behind the line of an option whose key begins at i.
abbrev pub behind_line : ℕ → MessageOption → ℕ
behind_line i o = i + length o.key + 1 + 1 + 1 + length o.value + 1 + 1 + 1

module _ (raw : Bytes) (i : ℕ) (o : MessageOption) (m : Message) (rest : Bytes) where
  abbrev option_tail : Bytes
  option_tail = b'"' ∷ b'\r' ∷ b'\n' ∷ rest

  abbrev option_text : Bytes
  option_text = o.key ++ (b'"' ∷ b':' ∷ b'"' ∷ (o.value ++ option_tail))

  decode_option-At :
      At raw i option_text
      → PlainOption o
      → (decode_option raw i m ≡ ok (behind_line i o, add_option o.key o.value m))
        × At raw (behind_line i o) rest
  unfolding decode_option
  decode_option-At a0 plain =
      let k = i + length o.key + 1 in
      let a1 = At-read raw i b'"' o.key (b':' ∷ b'"' ∷ (o.value ++ option_tail)) a0 in
      let a2 = At-next raw k b':' _ a1 in
      let a3 = At-next raw (k + 1) b'"' _ a2 in
      let v = k + 1 + 1 + length o.value + 1 in
      let a4 = At-read raw (k + 1 + 1) b'"' o.value (b'\r' ∷ b'\n' ∷ rest) a3 in
      let a5 = At-next raw v b'\r' _ a4 in
      (
        rw (
          read_until-At raw i b'"' o.key _ a0 (no_quote o.key plain.0),
          expect-At raw k b':' _ a1,
          expect-At raw (k + 1) b'"' _ a2,
          read_until-At raw (k + 1 + 1) b'"' o.value _ a3 (no_quote o.value plain.1),
          expect-At raw v b'\r' _ a4,
          expect-At raw (v + 1) b'\n' _ a5,
          c_str_plain o.key plain.0,
          c_str_plain o.value plain.1,
        ),
        At-next raw (v + 1) b'\n' rest a5,
      )

-- `addOption` for each option in turn.
abbrev pub add_all : List MessageOption → Message → Message
add_all [] m = m
add_all (o ∷ os) m = add_all os (add_option o.key o.value m)

abbrev pub behind_lines : List MessageOption → ℕ → ℕ
behind_lines [] i = i
behind_lines (o ∷ os) i = behind_lines os (behind_line (i + 1) o)

pub At-lines :
    (raw : Bytes) (os : List MessageOption) (i : ℕ) (m : Message) (rest : Bytes)
    → At raw i (lines os rest)
    → All PlainOption os
    → At raw (behind_lines os i) rest
At-lines raw [] i m rest a p = a
At-lines raw (o ∷ os) i m rest a p =
    At-lines raw os (behind_line (i + 1) o) m rest
      (decode_option-At raw (i + 1) o m (lines os rest) (At-next raw i b'"' _ a) p.0).1 p.1

pub option_loop-lines :
    (f : ℕ) (raw : Bytes) (os : List MessageOption) (i c : ℕ) (m : Message) (rest : Bytes)
    → length os < f
    → At raw i (lines os (c ∷ rest))
    → All PlainOption os
    → c ≢ b'"'
    → option_loop f raw i m ≡ ok (behind_lines os i + 1, add_all os m)
unfolding option_loop
option_loop-lines zero raw os i c m rest h a p ne = absurd (omega arith)
option_loop-lines (suc f) raw [] i c m rest h a p ne =
    rw (at-At raw i c rest a.here, ◌>>=◌) (rw (==_ne c b'"' ne))
option_loop-lines (suc f) raw (o ∷ os) i c m rest h a p ne =
    let next = At-next raw i b'"' _ a in
    let line = decode_option-At raw (i + 1) o m (lines os (c ∷ rest)) next p.0 in
    rw (at-At raw i b'"' _ a.here, line.0)
      (option_loop-lines f raw os (behind_line (i + 1) o) c (add_option o.key o.value m) rest
        (omega arith) line.1 p.1 ne)
