-- ===== src/Wire/Request.antt =====
-- `Request2Packet`, `Packet2Request`, `Respond2Packet` and `Packet2Respond`. An address is the 16
-- bytes of its sockaddr_in. The JSON document of a request does not travel.
pub mod RoundTrip
use net_cpp.Base.{
  ℕ, zero, suc, ◌+◌, ◌%◌, ◌^◌, ◌≡◌, Option, none, some, List, [], ◌∷◌, ◌++◌, Bytes, length, take,
  get_elem?, ◌==◌, if◌then◌else◌,
}
use net_cpp.Outcome.{Outcome, ok, fault, ◌>>=◌}
use net_cpp.Wire.{to_le, read, read_le}
use net_cpp.Wire.Packet.{Packet, add_buff}

-- `request`
pub record Request : Type 0 where
  pub r_id : ℕ
  pub type : Bytes
  pub data_bytes : Bytes
  pub recv_port : ℕ
  pub t_addr : Bytes

-- `respond`
pub record Respond : Type 0 where
  pub r_id : ℕ
  pub type : Bytes
  pub buff : Bytes
  pub t_addr : Bytes

abbrev pub request_type : ℕ
request_type = 100

abbrev pub respond_type : ℕ
respond_type = 101

-- `AddBuff(s.data(), (uint32_t)s.size())`
unfoldable pub add_text : Bytes → Packet → Packet
unfolding add_buff
add_text s p = add_buff (take (length s % 2 ^ 32) s) p

unfoldable pub request_to_packet : Request → Packet → Packet
unfolding add_text add_buff
request_to_packet q p =
    let p0 = record p { address = q.t_addr; type = request_type } in
    let p2 = add_buff (to_le 8 (length q.type)) (add_buff (to_le 8 q.r_id) p0) in
    let p4 =
      add_text q.data_bytes (add_buff (to_le 8 (length q.data_bytes)) (add_text q.type p2)) in
    add_buff (to_le 4 q.recv_port) (add_buff q.t_addr p4)

-- `pkt.buffs[i].second`
unfoldable pub buff_at : Packet → ℕ → Outcome Bytes
buff_at p i = elim (get_elem? p.buffs i) [ none ↦ fault | some b ↦ ok b ]

unfoldable pub packet_to_request : Packet → Request → Outcome Request
unfolding buff_at read read_le
packet_to_request p q =
    if p.type == request_type
    then (do
      b0 ← buff_at p 0
      r_id ← read_le b0 0 8
      b1 ← buff_at p 1
      type_size ← read_le b1 0 8
      b2 ← buff_at p 2
      type ← read b2 0 type_size
      b3 ← buff_at p 3
      data_size ← read_le b3 0 8
      b4 ← buff_at p 4
      body ← read b4 0 data_size
      b5 ← buff_at p 5
      t_addr ← read b5 0 16
      b6 ← buff_at p 6
      recv_port ← read_le b6 0 4
      ok (record {
        r_id = r_id;
        type = type;
        data_bytes = body;
        recv_port = recv_port;
        t_addr = t_addr;
      }))
    else ok q

-- The first block has as many bytes as an `rng::rng64`, and not as `r_id`: those `behind` it too.
unfoldable pub respond_to_packet : Bytes → Respond → Packet → Packet
unfolding add_text add_buff
respond_to_packet behind r p =
    let p0 = record p { type = respond_type; address = r.t_addr } in
    let p2 = add_buff r.t_addr (add_buff (to_le 8 r.r_id ++ behind) p0) in
    add_text r.buff (add_text r.type p2)

-- A C string in a block.
unfoldable pub c_string : Bytes → Outcome Bytes
c_string [] = fault
c_string (c ∷ cs) = if c == 0 then ok [] else (do s ← c_string cs; ok (c ∷ s))

unfoldable pub packet_to_respond : Packet → Respond → Outcome Respond
unfolding buff_at read read_le c_string
packet_to_respond p r = do
  b0 ← buff_at p 0
  r_id ← read_le b0 0 8
  b1 ← buff_at p 1
  t_addr ← read b1 0 16
  b2 ← buff_at p 2
  type ← c_string b2
  b3 ← buff_at p 3
  ok (record { r_id = r_id; type = type; buff = b3; t_addr = t_addr })
