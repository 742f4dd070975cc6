-- ===== src/Wire/Post/RoundTrip.antt =====
-- A post from `Post2SignedRawData` to `SignedRawData2Post`.
use net_cpp.Base.{
  ℕ, ◌+◌, ◌-◌, ◌*◌, ◌/◌, ◌%◌, ◌^◌, ◌<◌, ◌≤◌, ◌≡◌, refl, ap, ◌∙◌, true, [], ◌∷◌, ◌++◌, Bytes,
  string_eq, string_eq_iff, length, take, replicate, length-append, length-replicate, append-nil,
  le→leb, ◌==◌, Bool-cases, ==_iff, inl, inr, arith,
}
use net_cpp.Outcome.{Outcome, ok, ◌>>=◌}
use net_cpp.Wire.{to_le, length-to_le}
use net_cpp.Wire.Packet.{Packet, add_buff, packet_to_rawdata, rawdata_to_packet}
use net_cpp.Wire.Packet.RoundTrip.{
  rawdata_of, packet_to_rawdata_lem, rawdata_to_packet-packet_to_rawdata,
}
use net_cpp.Wire.Signed.{
  RawData, check_raw_msg, process_signed_raw_msg, process_signed_raw_msg-signed_rawdata,
}
use net_cpp.Wire.Request.{buff_at}
use net_cpp.Wire.Request.RoundTrip.{read-all, read_le-all}
use net_cpp.Wire.Post.{
  EncryptPost, AesKey256, encrypt_post_type, get_key, get_iv, fill, new_packet, get_post_info,
  post_to_packet, decrypt_buffer, packet_to_post, post_to_signed_raw_data, signed_raw_data_to_post,
}

-- The bytes of a post with zeros up to a multiple of 16.
abbrev pub padded : Bytes → Bytes
padded b = b ++ replicate ((16 - length b % 16) % 16) 0

pub length-padded : (b : Bytes) → length (padded b) ≡ length b + (16 - length b % 16) % 16
length-padded b = omega (
  arith,
  length-append {0} b (replicate ((16 - length b % 16) % 16) 0),
  length-replicate {A = ℕ} ((16 - length b % 16) % 16) 0,
)

fill-padded : (b : Bytes) → length b < 2 ^ 32 - 16 → fill b ≡ ok (padded b)
unfolding fill
fill-padded b h = elim (Bool-cases (length b % 16 == 0)) [
  | inl whole ↦
      let z : length b % 16 ≡ 0 = (==_iff _ _).0 whole in
      let none_left : (16 - length b % 16) % 16 ≡ 0 = omega (arith, z) in
      rw (whole, none_left, append-nil)
  | inr part ↦
      let size : (length b / 16 + 1) * 16 % 2 ^ 32 ≡ (length b / 16 + 1) * 16 = omega (arith, h) in
      let room : length b ≤ (length b / 16 + 1) * 16 = omega arith in
      let zeros : (length b / 16 + 1) * 16 - length b ≡ (16 - length b % 16) % 16 =
        ground (arith, part) in
      rw (part, size, le→leb (length b) ((length b / 16 + 1) * 16) room, zeros)
]

-- The fields fit their types, with room for the zeros.
pub record IsPost (q : EncryptPost) : Type 0 where
  pub client_fits : q.client_id < 2 ^ 64
  pub id_fits : q.p_id < 2 ^ 64
  pub type_fits : q.type < 2 ^ 32
  pub addr_size : length q.t_addr ≡ 16
  pub buff_fits : length q.buff < 2 ^ 32 - 16

module _ (encrypt decrypt : Bytes → Bytes → Bytes → Bytes) (md5 : Bytes → Bytes)
    (decrypt-encrypt : (k iv d : Bytes) → length d % 16 ≡ 0 → decrypt k iv (encrypt k iv d) ≡ d)
    (length-encrypt : (k iv d : Bytes) → length (encrypt k iv d) ≡ length d)
    (length-md5 : (d : Bytes) → length (md5 d) ≡ 32) (q : EncryptPost) (k : AesKey256) where
  abbrev pub secret : Bytes
  secret = encrypt (get_key k) (take 16 (get_iv k)) (padded q.buff)

  -- The packet of a post.
  abbrev packet_of : Packet
  packet_of = record new_packet {
    type = encrypt_post_type;
    address = q.t_addr;
    buffs =
        to_le 8 q.client_id
        ∷ to_le 8 q.p_id
        ∷ q.t_addr
        ∷ secret
        ∷ md5 (padded q.buff)
        ∷ to_le 4 q.type
        ∷ [];
  }

  post_to_packet-packet_of :
      IsPost q
      → post_to_packet encrypt decrypt md5 new_packet q k
        ≡ ok (packet_of, record q { buff = secret })
  unfolding post_to_packet add_buff
  post_to_packet-packet_of h =
      rw (fill-padded q.buff h.buff_fits, read-all (md5 (padded q.buff)) 32 (length-md5 _))

  packet_to_post-packet_of :
      (p : Packet) (post : EncryptPost)
      → IsPost q
      → p.buffs ≡ packet_of.buffs
      → packet_to_post encrypt decrypt md5 p post k ≡ ok (record q { buff = padded q.buff })
  unfolding packet_to_post get_post_info buff_at decrypt_buffer
  packet_to_post-packet_of p post h same =
      let whole : length secret % 16 ≡ 0 = omega (
        arith,
        length-encrypt (get_key k) (take 16 (get_iv k)) (padded q.buff),
        length-padded q.buff,
      ) in
      let blocks16 : length (padded q.buff) % 16 ≡ 0 = omega (arith, length-padded q.buff) in
      rw (
        same,
        read_le-all 8 q.client_id h.client_fits,
        read_le-all 8 q.p_id h.id_fits,
        read-all q.t_addr 16 h.addr_size,
        read_le-all 4 q.type h.type_fits,
        read-all (md5 (padded q.buff)) 32 (length-md5 _),
        whole,
        decrypt-encrypt (get_key k) (take 16 (get_iv k)) (padded q.buff) blocks16,
        (string_eq_iff (md5 (padded q.buff)) (md5 (padded q.buff))).1 refl,
      )

  length-rawdata_of : IsPost q → length (rawdata_of packet_of) ≡ 96 + length (padded q.buff)
  length-rawdata_of h = omega (
    arith,
    h.addr_size,
    length-md5 (padded q.buff),
    length-encrypt (get_key k) (take 16 (get_iv k)) (padded q.buff),
    length-to_le,
    length-append {0},
  )

  rawdata_made :
      (bufsiz : ℕ)
      → IsPost q
      → 96 + length (padded q.buff) ≤ bufsiz
      → packet_to_rawdata bufsiz packet_of ≡ ok (rawdata_of packet_of)
  rawdata_made bufsiz h room =
      let size = length-rawdata_of h in
      packet_to_rawdata_lem bufsiz packet_of (omega (arith, room))
      ∙ rw (le→leb (length (rawdata_of packet_of)) bufsiz (omega (arith, size, room)))

  packet_back :
      (bufsiz : ℕ)
      → IsPost q
      → 96 + length (padded q.buff) ≤ bufsiz
      → rawdata_to_packet (rawdata_of packet_of) new_packet
        ≡ ok (record new_packet { type = encrypt_post_type; buffs = packet_of.buffs })
  packet_back bufsiz h room =
      let raw = rawdata_of packet_of in
      let size = length-rawdata_of h in
      let made : packet_to_rawdata bufsiz packet_of ≡ ok raw = rawdata_made bufsiz h room in
      let small : length secret < 2 ^ 32 = omega (
        arith,
        length-encrypt (get_key k) (take 16 (get_iv k)) (padded q.buff),
        length-padded q.buff,
        h.buff_fits,
      ) in
      rw made at (
        rawdata_to_packet-packet_to_rawdata bufsiz packet_of new_packet (omega (arith, room))
          (
            omega arith,
            (
              omega (arith, length-to_le),
              (
                omega (arith, length-to_le),
                (
                  omega (arith, h.addr_size),
                  (
                    small,
                    (omega (arith, length-md5 (padded q.buff)), (omega (arith, length-to_le), tt)),
                  ),
                ),
              ),
            ),
          )
          (omega (arith, size, room)))

  -- A post that `Post2SignedRawData` signs passes `CheckRawMsg`, and `ProcessSignedRawMsg` with
  -- `SignedRawData2Post` and the same key gives it back, its bytes followed by zeros up to a multiple
  -- of 16, while the sender is left with the encrypted bytes. It holds where the fields fit their
  -- types and 96 bytes more than the padded ones fit into BUFSIZ, for a cipher that undoes itself
  -- and keeps lengths, and digests of 32 chars.
  pub signed_raw_data_to_post-post_to_signed_raw_data :
      (bufsiz : ℕ) (post : EncryptPost) (r s : RawData)
      → IsPost q
      → 96 + length (padded q.buff) ≤ bufsiz
      → (out : RawData) × (post_to_signed_raw_data encrypt decrypt md5 bufsiz q k r
          ≡ ok (out, record q { buff = secret }))
        × (check_raw_msg out.msg ≡ ok true)
        × ((process_signed_raw_msg out.msg s >>= λ t.
              signed_raw_data_to_post encrypt decrypt md5 t post k)
            ≡ ok (record q { buff = padded q.buff }))
  unfolding post_to_signed_raw_data signed_raw_data_to_post string_eq
  signed_raw_data_to_post-post_to_signed_raw_data bufsiz post r s h room =
      let raw = rawdata_of packet_of in
      let (out, signs, checks, reads) =
        process_signed_raw_msg-signed_rawdata b'E' b'C' b'Y' b'P' (record r { data_bytes = raw })
          s in
      (
        out,
        rw (post_to_packet-packet_of h) (
            rw (rawdata_made bufsiz h room)
              (ap (λ (o : Outcome RawData). o >>= λ t. ok (t, record q { buff = secret })) signs)),
        checks,
        rw (reads, packet_back bufsiz h room)
            (packet_to_post-packet_of
              (record new_packet { type = encrypt_post_type; buffs = packet_of.buffs }) post h
              refl),
      )
