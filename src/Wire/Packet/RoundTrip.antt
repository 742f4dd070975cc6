-- ===== src/Wire/Packet/RoundTrip.antt =====
-- `Rawdata2Packet` behind `Packet2Rawdata`, and the room that the latter needs.
use net_cpp.Base.{
  ℕ, zero, suc, ◌+◌, ◌^◌, ◌<◌, ◌≤◌, ◌≡◌, refl, ap, sym, ◌∙◌, List, [], ◌∷◌, ◌++◌, Bytes, All,
  length, length-append, append_assoc, append-nil, leb, le→leb, le→ltb_false, lt→ltb, lt→leb_false,
  leb→le, leb_false→lt, if◌then◌else◌, arith, Bool-cases, inl, inr,
}
use net_cpp.Outcome.{Outcome, ok, fault, ◌>>=◌, At, At-start}
use net_cpp.Factory.Cursor.{At-skip}
use net_cpp.Wire.{to_le, length-to_le, read-At, read_le-At}
use net_cpp.Wire.Packet.{
  Packet, add_buff, put, put_buffs, packet_to_rawdata, read_buffs, rawdata_to_packet,
}

-- The blocks of a packet, each behind its size.
abbrev pub blocks : List Bytes → Bytes
blocks [] = []
blocks (b ∷ bs) = to_le 4 (length b) ++ (b ++ blocks bs)

abbrev pub rawdata_of : Packet → Bytes
rawdata_of p = to_le 4 p.type ++ blocks p.buffs

-- The lengths that the program stores in 32 bits.
abbrev pub Fits32 : Packet → Type 0
Fits32 p = (p.type < 2 ^ 32) × All (λ b. length b < 2 ^ 32) p.buffs

-- What remains of the writes, of which `whole` is the outcome.
abbrev filled : ℕ → Bytes → Outcome Bytes
filled bufsiz whole = if leb (length whole) bufsiz then ok whole else fault

put-filled :
    (bufsiz : ℕ) (b out whole : Bytes) (k : Bytes → Outcome Bytes)
    → length (out ++ b) ≤ length whole
    → (length (out ++ b) ≤ bufsiz → k (out ++ b) ≡ filled bufsiz whole)
    → (put bufsiz b out >>= k) ≡ filled bufsiz whole
unfolding put
put-filled bufsiz b out whole k le go =
    let size = length-append {0} out b in
    elim (Bool-cases (leb (length out + length b) bufsiz)) [
      | inl t ↦ rw t (go (omega (arith, size, leb→le _ _ t)))
      | inr t ↦
          rw (t, lt→leb_false (length whole) bufsiz (omega (arith, size, le, leb_false→lt _ _ t)))
    ]

put_buffs-blocks :
    (bufsiz : ℕ) (bs : List Bytes) (out : Bytes)
    → length out ≤ bufsiz
    → put_buffs bufsiz bs out
      ≡ (if leb (length (out ++ blocks bs)) bufsiz then ok (out ++ blocks bs) else fault)
unfolding put_buffs put
put_buffs-blocks bufsiz [] out h = rw (append-nil, le→leb (length out) bufsiz h)
put_buffs-blocks bufsiz (b ∷ bs) out h =
    let n = to_le 4 (length b) in
    let whole = out ++ (n ++ (b ++ blocks bs)) in
    let e1 : whole ≡ (out ++ n) ++ (b ++ blocks bs) = sym (append_assoc out n (b ++ blocks bs)) in
    let e2 : whole ≡ ((out ++ n) ++ b) ++ blocks bs =
      e1 ∙ sym (append_assoc (out ++ n) b (blocks bs)) in
    let grows1 : length (out ++ n) ≤ length whole =
      omega (arith, ap length e1, length-append {0} (out ++ n) (b ++ blocks bs)) in
    let grows2 : length ((out ++ n) ++ b) ≤ length whole =
      omega (arith, ap length e2, length-append {0} ((out ++ n) ++ b) (blocks bs)) in
    put-filled bufsiz n out whole _ grows1 (λ _.
      put-filled bufsiz b (out ++ n) whole _ grows2
        (λ fits. put_buffs-blocks bufsiz bs ((out ++ n) ++ b) fits ∙ ap (filled bufsiz) (sym e2)))

-- `Packet2Rawdata` fills its buffer of BUFSIZ bytes with the type and the blocks, each behind its
-- size, if they fit there, and writes past its end if they do not, for every packet.
pub packet_to_rawdata_lem :
    (bufsiz : ℕ) (p : Packet)
    → 4 ≤ bufsiz
    → packet_to_rawdata bufsiz p
      ≡ (if leb (length (rawdata_of p)) bufsiz then ok (rawdata_of p) else fault)
unfolding packet_to_rawdata put
packet_to_rawdata_lem bufsiz p h =
    let size = length-to_le 4 p.type in
    rw (size, le→leb 4 bufsiz h)
      (put_buffs-blocks bufsiz p.buffs (to_le 4 p.type) (omega (arith, size, h)))

read_buffs-blocks :
    (f : ℕ) (raw : Bytes) (i : ℕ) (bs : List Bytes) (p : Packet)
    → length raw < i + f
    → At raw i (blocks bs)
    → All (λ b. length b < 2 ^ 32) bs
    → read_buffs f raw i p ≡ ok (record p { buffs = p.buffs ++ bs })
unfolding read_buffs add_buff
read_buffs-blocks zero raw i bs p h a small = absurd (omega (arith, h, a.count))
read_buffs-blocks (suc f) raw i [] p h a small =
    rw (le→ltb_false i (length raw) (omega (arith, a.count)), append-nil)
read_buffs-blocks (suc f) raw i (b ∷ bs) p h a small =
    let n = length-to_le 4 (length b) in
    let a1 = rw n at (At-skip raw i (to_le 4 (length b)) _ a) in
    let a2 = At-skip raw (i + 4) b (blocks bs) a1 in
    let inside : i < length raw =
      omega (arith, a.count, n, length-append {0} (to_le 4 (length b)) (b ++ blocks bs)) in
    rw (
      lt→ltb i (length raw) inside,
      read_le-At raw i 4 (length b) _ a small.0,
      read-At raw (i + 4) (length b) b (blocks bs) a1 refl,
      (read_buffs-blocks f raw (i + 4 + length b) bs (add_buff b p) (omega (arith, h)) a2 small.1),
      append_assoc p.buffs (b ∷ []) bs,
    )

-- `Rawdata2Packet` reads the packet back from what `Packet2Rawdata` wrote: it takes the type, and
-- appends the blocks, in order, to those that the packet had. It holds for a type and block sizes
-- of 32 bits that fit into the buffer.
pub rawdata_to_packet-packet_to_rawdata :
    (bufsiz : ℕ) (p q : Packet)
    → 4 ≤ bufsiz
    → Fits32 p
    → length (rawdata_of p) ≤ bufsiz
    → (packet_to_rawdata bufsiz p >>= λ raw. rawdata_to_packet raw q)
      ≡ ok (record q { type = p.type; buffs = q.buffs ++ p.buffs })
unfolding rawdata_to_packet
rawdata_to_packet-packet_to_rawdata bufsiz p q room fits short =
    let raw = rawdata_of p in
    let start : At raw 0 (to_le 4 p.type ++ blocks p.buffs) = At-start raw in
    let a1 =
      rw (length-to_le 4 p.type) at (At-skip raw 0 (to_le 4 p.type) (blocks p.buffs) start) in
    rw (
      packet_to_rawdata_lem bufsiz p room,
      le→leb (length raw) bufsiz short,
      read_le-At raw 0 4 p.type (blocks p.buffs) start fits.0,
      read_buffs-blocks (suc (length raw)) raw 4 p.buffs (record q { type = p.type }) (omega arith)
          a1 fits.1,
    )
