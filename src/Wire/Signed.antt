-- ===== src/Wire/Signed.antt =====
-- `SignedRawdata`, `CheckRawMsg` and `ProcessSignedRawMsg`: data between two marks.
use net_cpp.Base.{
  ℕ, ◌+◌, ◌-◌, ◌≡◌, refl, Bool, true, false, [], ◌∷◌, ◌++◌, Bytes, codes, length, string_eq,
  string_eq_iff, length-append, append-nil, ltb, le→ltb_false, if◌then◌else◌, arith,
}
use net_cpp.Outcome.{Outcome, ok, throws, thrown_text, ◌>>=◌, At, At-start}
use net_cpp.Factory.Cursor.{At-skip, At-front}
use net_cpp.Wire.{read, read-At}

-- `raw_data`: `head`, `tail` and `info` by their four bytes, `msg` as none where it is NULL.
pub record RawData : Type 0 where
  pub data_bytes : Bytes
  pub r_id : ℕ
  pub head : Bytes
  pub tail : Bytes
  pub info : Bytes
  pub msg : Bytes
  pub address : Bytes

-- `SignedRawdata`: the first four chars of `info`, with the NUL behind a string.
unfoldable pub signed_rawdata : Bytes → RawData → Outcome RawData
unfolding read
signed_rawdata info r = do
  four ← read (info ++ 0 ∷ []) 0 4
  ok (record r {
    head = codes "NETC";
    tail = codes "CTEN";
    info = four;
    msg = codes "NETC" ++ (four ++ (r.data_bytes ++ codes "CTEN"));
  })

-- `CheckRawMsg` and `CheckNetBox`: the first and the last four bytes. Both compares read outside
-- of a message that is too short.
unfoldable pub check_marks : Bytes → Bytes → Bytes → Outcome Bool
unfolding read
check_marks head tail raw = do
  first ← read raw 0 4
  if string_eq first head
      then (do last ← read raw (length raw - 4) 4; ok (string_eq last tail))
      else ok false

abbrev pub check_raw_msg : Bytes → Outcome Bool
check_raw_msg = check_marks (codes "NETC") (codes "CTEN")

-- `ProcessSignedRawMsg`: for less than 12 bytes `malloc` is asked for nearly 2^64.
unfoldable pub process_signed_raw_msg : Bytes → RawData → Outcome RawData
unfolding read
process_signed_raw_msg raw r = if ltb (length raw) 12 then throws thrown_text else (do
  head ← read raw 0 4
  info ← read raw 4 4
  body ← read raw 8 (length raw - 12)
  tail ← read raw (length raw - 4) 4
  ok (record r { data_bytes = body; head = head; info = info; tail = tail }))

-- A message between its marks.
module _ (head four body tail : Bytes) where
  abbrev pub marked : Bytes
  marked = head ++ (four ++ (body ++ tail))

  At-four : At marked (length head) (four ++ (body ++ tail))
  At-four = At-front marked head (four ++ (body ++ tail)) refl

  At-body : At marked (length head + length four) (body ++ tail)
  At-body = At-skip marked (length head) four (body ++ tail) At-four

  At-tail : At marked (length marked - length tail) (tail ++ [])
  At-tail =
      let a = At-skip marked (length head + length four) body tail At-body in
      let i : length marked - length tail ≡ length head + length four + length body =
        omega (arith, a.count) in
      rw (i, append-nil) a

  pub check_marks-marked :
      length head ≡ 4 → length tail ≡ 4 → check_marks head tail marked ≡ ok true
  unfolding check_marks
  check_marks-marked h t =
      let last = rw t at At-tail in
      rw (
        read-At marked 0 4 head (four ++ (body ++ tail)) (At-start marked) h,
        (string_eq_iff head head).1 refl,
        read-At marked (length marked - 4) 4 tail [] last t,
        (string_eq_iff tail tail).1 refl,
      )

-- What `SignedRawdata` makes of some data, with a text of four chars, passes `CheckRawMsg`, and
-- `ProcessSignedRawMsg` reads the data and the text back from it.
pub process_signed_raw_msg-signed_rawdata :
    (a b c d : ℕ) (r s : RawData)
    → let info = a ∷ b ∷ c ∷ d ∷ [] in
      (q : RawData) × (signed_rawdata info r ≡ ok q)
      × (check_raw_msg q.msg ≡ ok true)
      × (process_signed_raw_msg q.msg s
          ≡ ok (record s {
            data_bytes = r.data_bytes;
            head = codes "NETC";
            info = info;
            tail = codes "CTEN";
          }))
unfolding signed_rawdata process_signed_raw_msg
process_signed_raw_msg-signed_rawdata a b c d r s =
    let head = codes "NETC" in
    let info = a ∷ b ∷ c ∷ d ∷ [] in
    let tail = codes "CTEN" in
    let raw = marked head info r.data_bytes tail in
    let long : length raw ≡ 12 + length r.data_bytes =
      omega (arith, length-append {0} r.data_bytes tail) in
    let size : length raw - 12 ≡ length r.data_bytes = omega (arith, long) in
    (
      record r { head = head; tail = tail; info = info; msg = raw },
      refl,
      check_marks-marked head info r.data_bytes tail refl refl,
      rw (
        le→ltb_false (length raw) 12 (omega (arith, long)),
        read-At raw 0 4 head _ (At-start raw) refl,
        read-At raw 4 4 info _ (At-four head info r.data_bytes tail) refl,
        size,
        read-At raw 8 (length r.data_bytes) r.data_bytes tail (At-body head info r.data_bytes tail)
            refl,
        read-At raw (length raw - 4) 4 tail [] (At-tail head info r.data_bytes tail) refl,
      ),
    )
