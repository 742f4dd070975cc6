-- ===== src/Wire/Post.antt =====
-- `Post2Packet`, `GetPostInfo`, `Packet2Post`, `Post2SignedRawData`, `SignedRawData2Post` and
-- `ProcessPacket`: posts between the server and a client, with AES-CBC and MD5 as parameters. The
-- JSON document of a post does not travel.
pub mod RoundTrip
use net_cpp.Base.{
  ℕ, zero, suc, ◌+◌, ◌-◌, ◌*◌, ◌/◌, ◌%◌, ◌^◌, Option, none, some, List, [], ◌∷◌, ◌++◌, Bytes, codes,
  string_eq, ◌≡◌, length, take, drop, replicate, false, leb, ◌==◌, if◌then◌else◌,
}
use net_cpp.Outcome.{Outcome, ok, throws, fault, thrown_text, ◌>>=◌}
use net_cpp.Wire.{to_le, read, read_le}
use net_cpp.Wire.Batch.{batch, all_of, batch-into}
use net_cpp.Wire.Packet.{Packet, add_buff, packet_to_rawdata, rawdata_to_packet}
use net_cpp.Wire.Signed.{RawData, signed_rawdata}
use net_cpp.Wire.Request.{Request, buff_at, packet_to_request, request_type}

-- `encrypt_post`: `buff_size` is the length of `buff`.
pub record EncryptPost : Type 0 where
  pub client_id : ℕ
  pub t_addr : Bytes
  pub p_id : ℕ
  pub type : ℕ
  pub buff : Bytes

-- `aes_key256`: its four numbers of 64 bits.
pub record AesKey256 : Type 0 where
  pub key0 : ℕ
  pub key1 : ℕ
  pub key2 : ℕ
  pub key3 : ℕ

abbrev pub encrypt_post_type : ℕ
encrypt_post_type = 102

-- `GetKey`
unfoldable pub get_key : AesKey256 → Bytes
get_key k = to_le 8 k.key0 ++ (to_le 8 k.key1 ++ (to_le 8 k.key2 ++ to_le 8 k.key3))

-- `MakeIV`, then `GetIV`
unfoldable pub get_iv : AesKey256 → Bytes
get_iv k = to_le 8 k.key2 ++ (to_le 8 k.key0 ++ (to_le 8 k.key3 ++ to_le 8 k.key1))

-- `encrypt_post::InitNew`: `rand64` is what the random engine gives, and `type` four chars.
unfoldable pub init_new : ℕ → ℕ → Bytes → Bytes → EncryptPost → Outcome EncryptPost
unfolding read_le
init_new rand64 client_id t_addr type p = do
  t ← read_le type 0 4
  ok (record p { client_id = client_id; t_addr = t_addr; type = t; p_id = rand64 })

-- `encrypt_post::SetBuff`
unfoldable pub set_buff : Bytes → EncryptPost → EncryptPost
set_buff pbuff p = record p { buff = pbuff }

-- Zeros up to a multiple of 16 bytes: the size has 32 bits, and a copy into less room overruns it.
unfoldable pub fill : Bytes → Outcome Bytes
fill b =
    let size = (length b / 16 + 1) * 16 % 2 ^ 32 in
    if length b % 16 == 0
    then ok b
    else if leb (length b) size
    then ok (b ++ replicate (size - length b) 0)
    else fault

-- `new packet()`
abbrev pub new_packet : Packet
new_packet = record { type = 0; address = replicate 16 0; buffs = []; if_encrypt = false }

-- `new encrypt_post()`
abbrev pub new_post : EncryptPost
new_post = record { client_id = 0; t_addr = replicate 16 0; p_id = 0; type = 0; buff = [] }

-- `GetPostInfo`
unfoldable pub get_post_info : Packet → EncryptPost → Outcome EncryptPost
unfolding buff_at read read_le
get_post_info p q = do
  b0 ← buff_at p 0
  client_id ← read_le b0 0 8
  b1 ← buff_at p 1
  p_id ← read_le b1 0 8
  b2 ← buff_at p 2
  t_addr ← read b2 0 16
  ok (record q { client_id = client_id; p_id = p_id; t_addr = t_addr })

-- `client_lst.find(...)`
unfoldable pub find_client : ℕ → List (ℕ × AesKey256) → Option AesKey256
find_client id [] = none
find_client id ((i, k) ∷ cs) = if i == id then some k else find_client id cs

-- `AES_CBC_encrypt_buffer` and `AES_CBC_decrypt_buffer` with a key of 32 bytes and a vector of 16,
-- on whole blocks of 16 bytes, and the 32 hexadecimal digits of an MD5.
module _ (encrypt decrypt : Bytes → Bytes → Bytes → Bytes) (md5 : Bytes → Bytes) where
  -- `Post2Packet`: the post is left with the encrypted bytes.
  unfoldable pub post_to_packet : Packet → EncryptPost → AesKey256 → Outcome (Packet × EncryptPost)
  unfolding add_buff read fill get_key get_iv
  post_to_packet p q k = do
    plain ← fill q.buff
    md5_hex ← read (md5 plain) 0 32
    let secret = encrypt (get_key k) (take 16 (get_iv k)) plain
    let p0 = record p { type = encrypt_post_type; address = q.t_addr }
    let p3 = add_buff q.t_addr (add_buff (to_le 8 q.p_id) (add_buff (to_le 8 q.client_id) p0))
    ok (
      add_buff (to_le 4 q.type) (add_buff md5_hex (add_buff secret p3)),
      record q { buff = secret },
    )

  -- `AES_CBC_decrypt_buffer` works on whole blocks, and past the end of any other buffer.
  decrypt_buffer : AesKey256 → Bytes → Outcome Bytes
  unfolding get_key get_iv
  decrypt_buffer k b =
      if length b % 16 == 0 then ok (decrypt (get_key k) (take 16 (get_iv k)) b) else fault

  -- `Packet2Post`
  unfoldable pub packet_to_post : Packet → EncryptPost → AesKey256 → Outcome EncryptPost
  unfolding buff_at read read_le get_post_info decrypt_buffer
  packet_to_post p q k = do
    q ← get_post_info p q
    b5 ← buff_at p 5
    type ← read_le b5 0 4
    b3 ← buff_at p 3
    b4 ← buff_at p 4
    tmd5 ← read b4 0 32
    plain ← decrypt_buffer k b3
    if string_eq tmd5 (md5 plain)
        then ok (record q { type = type; buff = plain })
        else throws thrown_text

  -- `Post2SignedRawData` of a post: it is left with the encrypted bytes.
  unfoldable pub post_to_signed_raw_data :
      ℕ → EncryptPost → AesKey256 → RawData → Outcome (RawData × EncryptPost)
  unfolding post_to_packet packet_to_rawdata signed_rawdata
  post_to_signed_raw_data bufsiz q k r = do
    (p, q) ← post_to_packet new_packet q k
    body ← packet_to_rawdata bufsiz p
    r ← signed_rawdata (codes "ECYP") (record r { data_bytes = body })
    ok (r, q)

  -- `Post2SignedRawData` of bytes, with a random `p_id` and no client.
  unfoldable pub bytes_to_signed_raw_data :
      ℕ → ℕ → Bytes → Bytes → AesKey256 → RawData → Outcome RawData
  unfolding post_to_signed_raw_data read_le
  bytes_to_signed_raw_data bufsiz rand64 buff info k r = do
    type ← read_le info 0 4
    (r, _) ←
        post_to_signed_raw_data bufsiz (record new_post { buff = buff; type = type; p_id = rand64 })
          k r
    ok r

  -- `SignedRawData2Post`: with another text the post stays.
  unfoldable pub signed_raw_data_to_post : RawData → EncryptPost → AesKey256 → Outcome EncryptPost
  unfolding rawdata_to_packet packet_to_post
  signed_raw_data_to_post r q k =
      if string_eq r.info (codes "ECYP")
      then (do p ← rawdata_to_packet r.data_bytes new_packet; packet_to_post p q k)
      else ok q

  -- A packet in the loop of `ProcessPacket`: the requests that it makes. What `Packet2Post` reads is
  -- dropped. `blank` is what a new request holds.
  unfoldable pub process_one : Request → List (ℕ × AesKey256) → Packet → Outcome (List Request)
  unfolding packet_to_request get_post_info find_client packet_to_post
  process_one blank client_lst p =
      if p.type == request_type
      then (do q ← packet_to_request p blank; ok (record q { t_addr = p.address } ∷ []))
      else if p.type == encrypt_post_type
      then (do
        post ← get_post_info p new_post
        elim (find_client post.client_id client_lst) [
          | none ↦ ok []
          | some k ↦ packet_to_post p post k >>= λ _. ok []
        ])
      else ok []

  -- The loop, with `prm` left: the requests, and what stays in `packets_in`.
  unfoldable pub process_packets :
      ℕ → Request → List (ℕ × AesKey256) → List Packet → Outcome (List Request × List Packet)
  unfolding process_one batch
  process_packets prm blank client_lst = batch (process_one blank client_lst) prm

  -- `ProcessPacket`: the requests go behind those of `req_list`.
  unfoldable pub process_packet :
      Request
      → List (ℕ × AesKey256)
      → List Packet
      → List Request
      → Outcome (List Packet × List Request)
  unfolding process_packets
  process_packet blank client_lst packets_in req_list = do
    (qs, left) ← process_packets 2048 blank client_lst packets_in
    ok (left, req_list ++ qs)

  -- `ProcessPacket` handles the first 2048 packets, in order, leaves the others in their order in the
  -- queue, and appends the requests among them to `req_list`, each with the address that its packet
  -- came from; encrypted posts and other packets add none. It fails exactly where one of the
  -- conversions does, such as a post of a known client whose digest is another.
  pub process_packet-take :
      (blank : Request) (client_lst : List (ℕ × AesKey256)) (ps : List Packet) (qs : List Request)
      → process_packet blank client_lst ps qs ≡ (
          all_of (process_one blank client_lst) (take 2048 ps) >>= λ more.
          ok (drop 2048 ps, qs ++ more))
  unfolding process_packet process_packets
  process_packet-take blank client_lst ps qs = batch-into (process_one blank client_lst) 2048 ps qs
