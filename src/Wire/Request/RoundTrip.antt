-- ===== src/Wire/Request/RoundTrip.antt =====
-- Requests and responds through packets.
use net_cpp.Base.{
  ℕ, ◌%◌, ◌^◌, ◌<◌, ◌≡◌, ◌≢◌, refl, [], ◌∷◌, ◌++◌, Bytes, All, length, take, take-append,
  append-nil, ==_ne, arith,
}
use net_cpp.Outcome.{ok, fault, At, At-start}
use net_cpp.Wire.{to_le, read, read_le, read-At, read_le-At}
use net_cpp.Wire.Packet.{Packet, add_buff}
use net_cpp.Wire.Request.{
  Request, Respond, add_text, request_to_packet, buff_at, packet_to_request, respond_to_packet,
  c_string, packet_to_respond,
}

pub read-all : (b : Bytes) (n : ℕ) → length b ≡ n → read b 0 n ≡ ok b
read-all b n e =
    let start : At b 0 (b ++ []) = rw (append-nil b) (At-start b) in read-At b 0 n b [] start e

pub read_le-all : (k n : ℕ) → n < 256 ^ k → read_le (to_le k n) 0 k ≡ ok n
read_le-all k n h =
    let start : At (to_le k n) 0 (to_le k n ++ []) =
      rw (append-nil (to_le k n)) (At-start (to_le k n)) in
    read_le-At (to_le k n) 0 k n [] start h

take-all : (b : Bytes) → length b < 2 ^ 32 → take (length b % 2 ^ 32) b ≡ b
take-all b h =
    let size : length b % 2 ^ 32 ≡ length b = omega (arith, h) in
    let all : take (length b) b ≡ b = rw append-nil at (take-append b []) in rw size all

-- The fields fit their types, and the texts their sizes of 32 bits.
pub record IsRequest (q : Request) : Type 0 where
  pub id_fits : q.r_id < 2 ^ 64
  pub type_fits : length q.type < 2 ^ 32
  pub data_fits : length q.data_bytes < 2 ^ 32
  pub port_fits : q.recv_port < 2 ^ 32
  pub addr_size : length q.t_addr ≡ 16

-- `Packet2Request` reads from a new packet the whole request that `Request2Packet` put into it.
pub packet_to_request-request_to_packet :
    (q r : Request) (p : Packet)
    → IsRequest q
    → p.buffs ≡ []
    → packet_to_request (request_to_packet q p) r ≡ ok q
unfolding request_to_packet packet_to_request buff_at add_text add_buff
packet_to_request-request_to_packet q r p h empty = rw (
  empty,
  take-all q.type h.type_fits,
  take-all q.data_bytes h.data_fits,
  read_le-all 8 q.r_id h.id_fits,
  read_le-all 8 (length q.type) (omega (arith, h.type_fits)),
  read-all q.type (length q.type) refl,
  read_le-all 8 (length q.data_bytes) (omega (arith, h.data_fits)),
  read-all q.data_bytes (length q.data_bytes) refl,
  read-all q.t_addr 16 h.addr_size,
  read_le-all 4 q.recv_port h.port_fits,
)

c_string-fault : (s : Bytes) → All (λ c. c ≢ 0) s → c_string s ≡ fault
unfolding c_string
c_string-fault [] a = refl
c_string-fault (c ∷ cs) a = rw (==_ne c 0 a.0, c_string-fault cs a.1)

-- `Packet2Respond` runs past the end of the type that `Respond2Packet` put into a new packet, since
-- the type goes without its NUL, for every respond with an identifier of 64 bits, an address of 16
-- bytes, and a type of less than 2^32 chars and without NUL.
pub packet_to_respond-respond_to_packet :
    (behind : Bytes) (q r : Respond) (p : Packet)
    → q.r_id < 2 ^ 64
    → length q.t_addr ≡ 16
    → All (λ c. c ≢ 0) q.type
    → length q.type < 2 ^ 32
    → p.buffs ≡ []
    → packet_to_respond (respond_to_packet behind q p) r ≡ fault
unfolding respond_to_packet packet_to_respond buff_at add_text add_buff
packet_to_respond-respond_to_packet behind q r p id addr plain short empty =
    let b0 = to_le 8 q.r_id ++ behind in
    rw (
      empty,
      read_le-At b0 0 8 q.r_id behind (At-start b0) id,
      read-all q.t_addr 16 addr,
      take-all q.type short,
      c_string-fault q.type plain,
    )
