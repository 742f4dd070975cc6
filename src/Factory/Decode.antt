-- ===== src/Factory/Decode.antt =====
-- `decodeMessage`, `checkMessageSign` and the parts of them that the parser calls one by one. A
-- position in `raw_data` is a number, and a read outside the vector is a fault. Where a call gives
-- up, the model drops what it had written to the message.
use net_cpp.Base.{
  ℕ, zero, suc, ◌+◌, ◌-◌, Bool, true, false, Option, none, some, [], ◌∷◌, Bytes, codes, string_eq,
  ℤ, pos, negsuc, sub_ℕ, eqb_ℤ, length, take, drop, ltb, ◌==◌, if◌then◌else◌,
}
use net_cpp.Number.{stoi, to_int16, to_int32}
use net_cpp.Outcome.{Outcome, ok, fault, ◌>>=◌, ◌>>◌, require, at}
use net_cpp.Message.{
  Message, msg_version, msg_head, msg_tail, add_option, get_value, push_data, set_head, clear,
}
use net_cpp.Sign.{Generator, set_raw_data, get_hex}
use net_cpp.Factory.Hash.{calculate_options_hash}

-- `if (raw_data[index++] != c) return -1;`
unfoldable pub expect : Bytes → ℕ → ℕ → Outcome ℕ
unfolding at
expect raw i c = do x ← at raw i; require (x == c); ok (i + 1)

-- The same for each char of a text.
unfoldable pub expect_all : Bytes → ℕ → Bytes → Outcome ℕ
unfolding expect
expect_all raw i [] = ok i
expect_all raw i (c ∷ cs) = do j ← expect raw i c; expect_all raw j cs

-- The bytes before the first `stop`.
unfoldable pub before : ℕ → Bytes → Option Bytes
before stop [] = none
before stop (c ∷ cs) =
    if c == stop then some [] else elim (before stop cs) [ none ↦ none | some s ↦ some (c ∷ s) ]

-- `while ((c = raw_data[index++]) != stop) s.push_back(c);`: the text, and the index behind `stop`.
unfoldable pub read_until : Bytes → ℕ → ℕ → Outcome (Bytes × ℕ)
unfolding before
read_until raw i stop = elim (before stop (drop i raw)) [
  | none ↦ fault
  | some s ↦ ok (s, i + length s + 1)
]

unfoldable pub decode_head : Bytes → Message → Outcome (ℕ × Message)
unfolding expect_all read_until stoi
decode_head raw m = do
  i ← expect_all raw 0 msg_head
  i ← expect raw i b' '
  (s_version, i) ← read_until raw i b' '
  version ← stoi s_version
  require (eqb_ℤ (to_int16 version) msg_version)
  (s_type, i) ← read_until raw i b' '
  type ← stoi s_type
  (s_tid, i) ← read_until raw i b'\r'
  tid ← stoi s_tid
  i ← expect raw i b'\n'
  ok (i, set_head tid (to_int16 type) m)

-- `std::string(s.c_str())` ends at the first NUL.
unfoldable pub c_str : Bytes → Bytes
c_str [] = []
c_str (c ∷ cs) = if c == 0 then [] else c ∷ c_str cs

-- The body of the loop over the option lines, behind the opening quote.
unfoldable pub decode_option : Bytes → ℕ → Message → Outcome (ℕ × Message)
unfolding expect read_until c_str
decode_option raw i m = do
  (key, i) ← read_until raw i b'"'
  i ← expect raw i b':'
  i ← expect raw i b'"'
  (value, i) ← read_until raw i b'"'
  i ← expect raw i b'\r'
  i ← expect raw i b'\n'
  ok (i, add_option (c_str key) (c_str value) m)

-- `while (raw_data[index++] == '\"')`: the index behind the first byte that is no quote. Each
-- round goes on by a byte at least, so the fuel does not run out (Factory.Fuel).
unfoldable pub option_loop : ℕ → Bytes → ℕ → Message → Outcome (ℕ × Message)
unfolding decode_option at
option_loop zero raw i m = fault
option_loop (suc f) raw i m = do
  c ← at raw i
  elim (c == b'"') [
    | true ↦ decode_option raw (i + 1) m >>= λ (j, n). option_loop f raw j n
    | false ↦ ok (i + 1, m)
  ]

unfoldable pub decode_options : Bytes → ℕ → Message → Outcome (ℕ × Message)
unfolding option_loop
decode_options raw offset m = do
  (index, m) ← option_loop (suc (length raw)) raw offset m
  let sum_hash_range = to_int32 (sub_ℕ index 2)
  (sum_hash_str, i) ← read_until raw (index - 1) b'\r'
  i ← expect raw i b'\n'
  sum_hash ← stoi sum_hash_str
  sum_hash_check ← calculate_options_hash raw sum_hash_range
  require (eqb_ℤ sum_hash_check (to_int16 sum_hash))
  i ← expect raw i b'\r'
  i ← expect raw i b'\n'
  ok (i, m)

-- `pushData(&raw_data[index], size)`: a negative size is a huge one.
unfoldable pub push_from : Bytes → ℕ → ℤ → Message → Outcome (ℕ × Message)
push_from raw i (negsuc n) m = fault
push_from raw i (pos n) m =
    if ltb (length raw) (i + n) then fault else ok (i + n, push_data (take n (drop i raw)) m)

unfoldable pub decode_body : Bytes → ℕ → Message → Outcome (ℕ × Message)
unfolding push_from
decode_body raw offset m = do
  s_size ← get_value (codes "size") m
  size ← stoi s_size
  (i, m) ← push_from raw offset size m
  i ← expect raw i b'\r'
  i ← expect raw i b'\n'
  ok (i, m)

unfoldable pub decode_tail : Bytes → ℕ → Message → Outcome (ℕ × Message)
decode_tail raw offset m = do i ← expect_all raw offset msg_tail; ok (i, m)

unfoldable pub decode_message : Bytes → Message → Outcome Message
decode_message raw m = do
  (i, m) ← decode_head raw (clear m)
  (i, m) ← decode_options raw i m
  (i, m) ← decode_body raw i m
  (i, m) ← decode_tail raw i m
  ok m

unfoldable pub decode_message_head : Bytes → Message → Outcome Message
decode_message_head raw m = do (i, m) ← decode_head raw m; ok m

unfoldable pub decode_message_option : Bytes → Message → Outcome Message
decode_message_option raw m = do (i, m) ← decode_options raw 0 m; ok m

unfoldable pub decode_message_body : Bytes → Message → Outcome Message
decode_message_body raw m = do (i, m) ← decode_body raw 0 m; ok m

unfoldable pub decode_message_tail : Bytes → Message → Outcome Message
decode_message_tail raw m = do (i, m) ← decode_tail raw 0 m; ok m

-- `checkMessageSign`
unfoldable pub check_message_sign :
    (Bytes → Bytes) → Generator → Message → Outcome (Generator × Bool)
check_message_sign sha256 g m = do
  sign ← get_value (codes "sign") m
  let (g', hex) = get_hex sha256 (set_raw_data m.data_bytes g)
  ok (g', string_eq hex sign)
