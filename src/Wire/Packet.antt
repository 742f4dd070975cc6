-- ===== src/Wire/Packet.antt =====
-- `Packet2Rawdata` and `Rawdata2Packet`: a packet is a type and a list of blocks.
pub mod RoundTrip
use net_cpp.Base.{
  ℕ, zero, suc, ◌+◌, ◌*◌, ◌^◌, ◌<◌, ◌≤◌, ◌≡◌, refl, ap, sym, ◌∙◌, Bool, true, false, List, [], ◌∷◌,
  ◌++◌, Bytes, All, length, length-append, append_assoc, append-nil, leb, ltb, le→leb,
  if◌then◌else◌, arith, Bool-cases, inl, inr,
}
use net_cpp.Outcome.{Outcome, ok, fault, ◌>>=◌, At, At-start}
use net_cpp.Factory.Cursor.{At-skip}
use net_cpp.Wire.{to_le, length-to_le, read, read_le, read-At, read_le-At}

-- `packet`; `address` is the sockaddr_in by its bytes.
pub record Packet : Type 0 where
  pub type : ℕ
  pub address : Bytes
  pub buffs : List Bytes
  pub if_encrypt : Bool

-- `packet::AddBuff`
unfoldable pub add_buff : Bytes → Packet → Packet
add_buff b p = record p { buffs = p.buffs ++ b ∷ [] }

-- `memcpy(idx, ...); idx += size;` into a buffer of BUFSIZ bytes: `out` is what is written.
unfoldable pub put : ℕ → Bytes → Bytes → Outcome Bytes
put bufsiz b out = if leb (length out + length b) bufsiz then ok (out ++ b) else fault

-- The loop of `Packet2Rawdata`.
unfoldable pub put_buffs : ℕ → List Bytes → Bytes → Outcome Bytes
unfolding put
put_buffs bufsiz [] out = ok out
put_buffs bufsiz (b ∷ bs) out = do
  out ← put bufsiz (to_le 4 (length b)) out
  out ← put bufsiz b out
  put_buffs bufsiz bs out

-- `Packet2Rawdata`: the bytes up to `rdt.size`. BUFSIZ is a constant of the C library.
unfoldable pub packet_to_rawdata : ℕ → Packet → Outcome Bytes
unfolding put_buffs
packet_to_rawdata bufsiz p = do out ← put bufsiz (to_le 4 p.type) []; put_buffs bufsiz p.buffs out

-- The loop of `Rawdata2Packet`. Each round takes four bytes at least.
unfoldable pub read_buffs : ℕ → Bytes → ℕ → Packet → Outcome Packet
unfolding read_le add_buff
read_buffs zero raw i p = fault
read_buffs (suc f) raw i p =
    if ltb i (length raw)
    then (do
      size ← read_le raw i 4
      b ← read raw (i + 4) size
      read_buffs f raw (i + 4 + size) (add_buff b p))
    else ok p

-- `Rawdata2Packet`
unfoldable pub rawdata_to_packet : Bytes → Packet → Outcome Packet
unfolding read_buffs
rawdata_to_packet raw p = do
  type ← read_le raw 0 4
  read_buffs (suc (length raw)) raw 4 (record p { type = type })
