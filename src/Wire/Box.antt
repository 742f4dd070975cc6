-- ===== src/Wire/Box.antt =====
-- `net_box`: one of the pieces in which a long message is sent.
use net_cpp.Base.{
  ℕ, ◌+◌, ◌<◌, ◌≡◌, ◌^◌, ◌%◌, refl, ap, sym, ◌∙◌, Bool, true, [], ◌++◌, Bytes, codes, length,
  length-append, take, take-append, append_assoc, append-nil, arith,
}
use net_cpp.Outcome.{Outcome, ok, ◌>>=◌, At, At-start}
use net_cpp.Factory.Cursor.{At-skip, At-front}
use net_cpp.Wire.{to_le, length-to_le, read, read_le, read-At, read_le-At}
use net_cpp.Wire.Signed.{check_marks, check_marks-marked, marked}

-- The fields that travel; `send_data` is what `build` returns. `data_size` is 16 bits wide, and
-- `data_bytes` the block that `data` points to.
pub record NetBox : Type 0 where
  pub b_id : ℕ
  pub idx : ℕ
  pub cnt : ℕ
  pub data_size : ℕ
  pub data_bytes : Bytes

-- `net_box::set`: the size is converted to 16 bits, and as many bytes are copied.
unfoldable pub set_box : Bytes → NetBox → NetBox
set_box buff b =
    let size = length buff % 2 ^ 16 in record b { data_size = size; data_bytes = take size buff }

-- What `build` writes into `send_data`.
abbrev pub box_bytes : NetBox → Bytes
box_bytes b =
    codes "NETB"
    ++ (to_le 8 b.b_id
        ++ (to_le 2 b.idx
            ++ (to_le 2 b.cnt ++ (to_le 2 b.data_size ++ (b.data_bytes ++ codes "BTEN")))))

-- `net_box::build`: what is sent are `sdt_size` bytes, a size of 16 bits.
unfoldable pub build : NetBox → Bytes
build b = let sdt_size = (b.data_size + 22) % 2 ^ 16 in take sdt_size (box_bytes b)

-- `CheckNetBox`
abbrev pub check_net_box : Bytes → Outcome Bool
check_net_box = check_marks (codes "NETB") (codes "BTEN")

-- `ProcessNetBox`: it reads the size that the box states, and not that of the message.
unfoldable pub process_net_box : Bytes → Outcome NetBox
unfolding read read_le
process_net_box raw = do
  head ← read raw 0 4
  b_id ← read_le raw 4 8
  idx ← read_le raw 12 2
  cnt ← read_le raw 14 2
  size ← read_le raw 16 2
  body ← read raw 18 size
  tail ← read raw (18 + size) 4
  ok (record { b_id = b_id; idx = idx; cnt = cnt; data_size = size; data_bytes = body })

-- The numbers fit their types, the size of what is sent too, and the size is that of the data.
pub record IsBox (b : NetBox) : Type 0 where
  pub b_id_fits : b.b_id < 2 ^ 64
  pub idx_fits : b.idx < 2 ^ 16
  pub cnt_fits : b.cnt < 2 ^ 16
  pub size_fits : b.data_size + 22 < 2 ^ 16
  pub sized : length b.data_bytes ≡ b.data_size

-- What `set` makes of up to 65513 bytes is a box with these bytes.
pub set_box-IsBox :
    (buff : Bytes) (b : NetBox)
    → length buff + 22 < 2 ^ 16
    → b.b_id < 2 ^ 64
    → b.idx < 2 ^ 16
    → b.cnt < 2 ^ 16
    → IsBox (set_box buff b) × ((set_box buff b).data_bytes ≡ buff)
unfolding set_box
set_box-IsBox buff b h hb hi hc =
    let size : length buff % 2 ^ 16 ≡ length buff = omega (arith, h) in
    let all : take (length buff) buff ≡ buff = rw append-nil at (take-append buff []) in
    let same : take (length buff % 2 ^ 16) buff ≡ buff = rw size all in
    (
      record {
        b_id_fits = hb;
        idx_fits = hi;
        cnt_fits = hc;
        size_fits = omega (arith, size, h);
        sized = ap length same ∙ sym size;
      },
      same,
    )

length-box_bytes : (b : NetBox) → IsBox b → length (box_bytes b) ≡ b.data_size + 22
length-box_bytes b h =
    let r5 = b.data_bytes ++ codes "BTEN" in
    let r4 = to_le 2 b.data_size ++ r5 in
    let r3 = to_le 2 b.cnt ++ r4 in
    let r2 = to_le 2 b.idx ++ r3 in
    omega (
      arith,
      h.sized,
      length-append (to_le 8 b.b_id) r2,
      length-append (to_le 2 b.idx) r3,
      length-append (to_le 2 b.cnt) r4,
      length-append (to_le 2 b.data_size) r5,
      length-append {0} b.data_bytes (codes "BTEN"),
      length-to_le 8 b.b_id,
      length-to_le 2 b.idx,
      length-to_le 2 b.cnt,
      length-to_le 2 b.data_size,
    )

build-box_bytes : (b : NetBox) → IsBox b → build b ≡ box_bytes b
unfolding build
build-box_bytes b h =
    let size : (b.data_size + 22) % 2 ^ 16 ≡ length (box_bytes b) =
      omega (arith, h.size_fits, length-box_bytes b h) in
    rw size (rw append-nil at (take-append (box_bytes b) []))

-- `CheckNetBox` takes what `build` made of a box, and `ProcessNetBox` reads that box back, for a
-- box whose 22 bytes of marks and numbers and whose data are less than 2^16 bytes together.
pub process_net_box-build :
    (b : NetBox)
    → IsBox b
    → (check_net_box (build b) ≡ ok true) × (process_net_box (build b) ≡ ok b)
unfolding process_net_box
process_net_box-build b h =
    let raw = box_bytes b in
    let body =
      to_le 8 b.b_id
      ++ (to_le 2 b.idx ++ (to_le 2 b.cnt ++ (to_le 2 b.data_size ++ b.data_bytes))) in
    let middle : raw ≡ marked (codes "NETB") [] body (codes "BTEN") = simp append_assoc in
    let r5 = b.data_bytes ++ codes "BTEN" in
    let r4 = to_le 2 b.data_size ++ r5 in
    let r3 = to_le 2 b.cnt ++ r4 in
    let r2 = to_le 2 b.idx ++ r3 in
    let r1 = to_le 8 b.b_id ++ r2 in
    let a1 : At raw 4 r1 = At-front raw (codes "NETB") r1 refl in
    let a2 : At raw 12 r2 = rw (length-to_le 8 b.b_id) at (At-skip raw 4 (to_le 8 b.b_id) r2 a1) in
    let a3 : At raw 14 r3 = rw (length-to_le 2 b.idx) at (At-skip raw 12 (to_le 2 b.idx) r3 a2) in
    let a4 : At raw 16 r4 = rw (length-to_le 2 b.cnt) at (At-skip raw 14 (to_le 2 b.cnt) r4 a3) in
    let a5 : At raw 18 r5 =
      rw (length-to_le 2 b.data_size) at (At-skip raw 16 (to_le 2 b.data_size) r5 a4) in
    let a6 : At raw (18 + b.data_size) (codes "BTEN" ++ []) =
      rw h.sized at (At-skip raw 18 b.data_bytes (codes "BTEN") a5) in
    rw (build-box_bytes b h) (
      ap check_net_box middle ∙ check_marks-marked (codes "NETB") [] body (codes "BTEN") refl refl,
      rw (
        read-At raw 0 4 (codes "NETB") r1 (At-start raw) refl,
        read_le-At raw 4 8 b.b_id r2 a1 h.b_id_fits,
        read_le-At raw 12 2 b.idx r3 a2 h.idx_fits,
        read_le-At raw 14 2 b.cnt r4 a3 h.cnt_fits,
        read_le-At raw 16 2 b.data_size r5 a4 (omega (arith, h.size_fits)),
        read-At raw 18 b.data_size b.data_bytes (codes "BTEN") a5 h.sized,
        read-At raw (18 + b.data_size) 4 (codes "BTEN") [] a6 refl,
      ),
    )
