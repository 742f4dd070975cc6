-- ===== src/Factory/RoundTrip/Whole.antt =====
-- Whole messages: `decodeMessage` and `checkMessageSign` behind `encodeMessage`.
use net_cpp.Base.{
  ◌^◌, ◌<◌, ◌≡◌, refl, sym, ◌∙◌, true, [], Bytes, codes, length, append_assoc, append-nil, arith, ℤ,
  string_eq, string_eq_iff,
}
use net_cpp.Outcome.{ok}
use net_cpp.Message.{Message, add_option, get_value}
use net_cpp.Message.Laws.{add_to-DistinctKeys, value_in-add_to}
use net_cpp.Sign.{
  Generator, IsPlain, hex_bytes-IsPlain, set_raw_data, get_hex, get_hex-set_raw_data,
}
use net_cpp.Factory.Encode.{
  Encoded, encode_head, encode_options, encode_body, encode_tail, signed, encode_message,
}
use net_cpp.Factory.Decode.{decode_message, check_message_sign}
use net_cpp.Factory.Checksum.{calculate_options_hash-append}
use net_cpp.Factory.RoundTrip.Wire.{
  add_to-plain, Encodable, front, wire, length-front-le, decode_message-wire,
}

module _ (sha256 : Bytes → Bytes) (g : Generator) (m : Message) where
  abbrev sign_of : Bytes
  sign_of = (get_hex sha256 (set_raw_data m.data_bytes g)).1

  signed-Encodable : Encodable m → Encodable (signed sha256 g m)
  unfolding signed add_option string_eq
  signed-Encodable good =
      let hex = (get_hex-set_raw_data sha256 m.data_bytes g).0 in
      let plain : IsPlain sign_of = rw hex (hex_bytes-IsPlain (sha256 m.data_bytes)) in
      record {
        fits = record {
          version_is = good.fits.version_is;
          type_range = good.fits.type_range;
          tid_range = good.fits.tid_range;
        };
        plain = add_to-plain (codes "sign") sign_of m.options (ground arith) plain good.plain;
        distinct = add_to-DistinctKeys (codes "sign") sign_of m.options good.distinct;
        sized = value_in-add_to (codes "size") (codes "sign") sign_of m.options ∙ good.sized;
      }

  encode_message-wire :
      length (front (signed sha256 g m)) < 2 ^ 31
      → encode_message sha256 g m []
        ≡ ok (record {
          sign_gen = (get_hex sha256 (set_raw_data m.data_bytes g)).0;
          message = signed sha256 g m;
          raw_data = wire (signed sha256 g m);
        })
  unfolding encode_message encode_options encode_head encode_body encode_tail
  encode_message-wire short =
      let s = signed sha256 g m in
      let hash = rw append-nil at (
        calculate_options_hash-append (front s) [] (length (front s)) refl (length-front-le s)
          short) in
      rw hash (simp append_assoc)

  -- `encodeMessage` into an empty buffer succeeds, and `decodeMessage` reads from the bytes, into
  -- any message, the message that was sent with its option "sign": both numbers of the head, every
  -- option in its place and all data; only the version of the receiving object stays. It holds for
  -- a message whose numbers fit, whose options have distinct keys and plain texts, and whose option
  -- "size" is right, where head and options, and the data, have less than 2^31 bytes.
  pub decode_message-encode_message :
      (n : Message)
      → Encodable m
      → length (front (signed sha256 g m)) < 2 ^ 31
      → length m.data_bytes < 2 ^ 31
      → (e : Encoded) × (encode_message sha256 g m [] ≡ ok e)
        × (e.message ≡ signed sha256 g m)
        × (decode_message e.raw_data n ≡ ok (record e.message { version = n.version }))
  unfolding signed add_option
  decode_message-encode_message n good short data_short =
      let s = signed sha256 g m in
      (
        record {
          sign_gen = (get_hex sha256 (set_raw_data m.data_bytes g)).0;
          message = s;
          raw_data = wire s;
        },
        encode_message-wire short,
        refl,
        decode_message-wire s n (signed-Encodable good) short data_short,
      )

  -- The message that `encodeMessage` signs passes `checkMessageSign` of any factory, whatever
  -- version the received object has.
  pub check_message_sign-signed :
      (h : Generator) (v : ℤ)
      → (r : Generator) × (check_message_sign sha256 h (record (signed sha256 g m) { version = v })
          ≡ ok (r, true))
  unfolding check_message_sign signed add_option get_value
  check_message_sign-signed h v =
      let d = m.data_bytes in
      let same = (get_hex-set_raw_data sha256 d h).0 ∙ sym (get_hex-set_raw_data sha256 d g).0 in
      (
        (get_hex sha256 (set_raw_data d h)).0,
        rw (
          value_in-add_to (codes "sign") (codes "sign") sign_of m.options,
          (string_eq_iff (codes "sign") (codes "sign")).1 refl,
          (string_eq_iff (get_hex sha256 (set_raw_data d h)).1 sign_of).1 same,
        ),
      )
