-- ===== src/Factory/Encode.antt =====
-- `encodeMessage` and its four parts. Each appends to the bytes that are there.
use net_cpp.Base.{List, [], ◌∷◌, ◌++◌, Bytes, codes, sub_ℕ, length}
use net_cpp.Number.{to_string, to_int32}
use net_cpp.Outcome.{Outcome, ok, ◌>>=◌}
use net_cpp.Message.{MessageOption, Message, msg_head, msg_tail, add_option}
use net_cpp.Sign.{Generator, set_raw_data, get_hex}
use net_cpp.Factory.Hash.{calculate_options_hash}

abbrev pub crlf : Bytes
crlf = b'\r' ∷ b'\n' ∷ []

-- The bytes that `encode_head` appends.
abbrev pub head_text : Message → Bytes
head_text m =
    msg_head
    ++ (b' ' ∷ to_string m.version ++ (b' ' ∷ to_string m.type ++ (b' ' ∷ to_string m.tid ++ crlf)))

unfoldable pub encode_head : Message → Bytes → Bytes
encode_head m raw = raw ++ head_text m

-- The line of one option.
abbrev pub option_line : MessageOption → Bytes
option_line o = b'"' ∷ o.key ++ (b'"' ∷ b':' ∷ b'"' ∷ o.value ++ (b'"' ∷ crlf))

-- The loop over the options.
unfoldable pub push_options : List MessageOption → Bytes → Bytes
push_options [] raw = raw
push_options (o ∷ os) raw = push_options os (raw ++ option_line o)

-- The checksum covers all bytes that are there, the head too.
unfoldable pub encode_options : Message → Bytes → Outcome Bytes
unfolding push_options
encode_options m raw = do
  let lines = push_options m.options raw
  sum_hash ← calculate_options_hash lines (to_int32 (sub_ℕ (length lines) 1))
  ok (lines ++ (to_string sum_hash ++ (crlf ++ crlf)))

unfoldable pub encode_body : Message → Bytes → Bytes
encode_body m raw = raw ++ (m.data_bytes ++ crlf)

unfoldable pub encode_tail : Message → Bytes → Bytes
encode_tail m raw = raw ++ msg_tail

-- What `encodeMessage` leaves: the generator, the message with its option "sign", and the bytes.
pub record Encoded : Type 0 where
  pub sign_gen : Generator
  pub message : Message
  pub raw_data : Bytes

module _ (sha256 : Bytes → Bytes) where
  unfoldable pub signed : Generator → Message → Message
  signed g m = add_option (codes "sign") (get_hex sha256 (set_raw_data m.data_bytes g)).1 m

  unfoldable pub encode_message : Generator → Message → Bytes → Outcome Encoded
  unfolding signed
  encode_message g m raw = do
    let s = signed g m
    lines ← encode_options s (encode_head s raw)
    ok (record {
      sign_gen = (get_hex sha256 (set_raw_data m.data_bytes g)).0;
      message = s;
      raw_data = encode_tail s (encode_body s lines);
    })
