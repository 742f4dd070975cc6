-- ===== src/Tests/Messages.antt =====
-- Messages, the factory and the digests.
use net_cpp.Base.{
  ◌^◌, ◌<◌, ◌≡◌, refl, true, [], ◌∷◌, ◌++◌, Bytes, pos, codes, length, arith, string_eq,
  if◌then◌else◌,
}
use net_cpp.Number.{decimal, to_string}
use net_cpp.Outcome.{ok, throws, thrown_pointer}
use net_cpp.Message.{
  MessageOption, Message, add_to, add_option, get_value, push_data, new_message, set_head, value_in,
}
use net_cpp.Message.Laws.{DistinctKeys, get_value-add_option, add_to-DistinctKeys}
use net_cpp.Sign.{Generator, new_generator, hex_bytes, set_raw_data, get_hex}
use net_cpp.Factory.Encode.{Encoded, push_options, signed, encode_message}
use net_cpp.Factory.Decode.{option_loop, decode_message, check_message_sign}
use net_cpp.Factory.Fuel.{OptionRun, option_loop-OptionRun}
use net_cpp.Factory.RoundTrip.Head.{HeadFits}
use net_cpp.Factory.RoundTrip.Wire.{Encodable, front}
use net_cpp.Factory.RoundTrip.Whole.{decode_message-encode_message, check_message_sign-signed}

abbrev pub dated : MessageOption
dated = record { key = codes "date"; value = codes "now" }

-- A message with two bytes of data.
abbrev pub small : Message
small = record {
  tid = pos 7;
  version = pos 0;
  type = pos 2;
  options = dated ∷ record { key = codes "size"; value = codes "2" } ∷ [];
  data_bytes = codes "hi";
}

-- Any function of bytes stands for SHA-256 here.
abbrev pub toy_sha : Bytes → Bytes
toy_sha d = d ++ b'!' ∷ []

small-made : push_data (codes "hi") (set_head (pos 7) (pos 2) (new_message (codes "now"))) ≡ small
unfolding push_data new_message set_head
small-made = refl

missing : get_value (codes "sign") small ≡ throws thrown_pointer
unfolding get_value
missing = refl

hex : hex_bytes (codes "hi!") ≡ codes "686921"
unfolding hex_bytes
hex = refl

small-fits : HeadFits small
small-fits = record { version_is = refl; type_range = omega arith; tid_range = omega arith }

pub small-Encodable : Encodable small
unfolding value_in decimal
small-Encodable = record {
  fits = small-fits;
  plain = ground arith;
  distinct = ground arith;
  sized = refl;
}

pub small-short : length (front (signed toy_sha new_generator small)) < 2 ^ 31
unfolding signed push_options add_option get_hex set_raw_data to_string hex_bytes
small-short = omega arith

decode_message-encode_message_example :
    (e : Encoded) × (encode_message toy_sha new_generator small [] ≡ ok e)
    × (e.message ≡ signed toy_sha new_generator small)
    × (decode_message e.raw_data (new_message [])
        ≡ ok (record e.message { version = (new_message []).version }))
decode_message-encode_message_example =
    decode_message-encode_message toy_sha new_generator small (new_message []) small-Encodable
      small-short (omega arith)

check_message_sign-signed_example :
    (r : Generator) × (check_message_sign toy_sha new_generator
        (record (signed toy_sha new_generator small) { version = pos 3 })
      ≡ ok (r, true))
check_message_sign-signed_example =
    check_message_sign-signed toy_sha new_generator small new_generator (pos 3)

get_value-add_option_example :
    get_value (codes "size") (add_option (codes "to") (codes "all") small) ≡ (
      if string_eq (codes "to") (codes "size")
      then ok (codes "all")
      else get_value (codes "size") small)
get_value-add_option_example = get_value-add_option (codes "size") (codes "to") (codes "all") small

add_to-DistinctKeys_example : DistinctKeys (add_to (codes "date") (codes "later") small.options)
add_to-DistinctKeys_example =
    add_to-DistinctKeys (codes "date") (codes "later") small.options (ground arith)

option_loop-OptionRun_example :
    OptionRun
      (push_options small.options [])
      0
      small
      (option_loop 30 (push_options small.options []) 0 small)
unfolding push_options
option_loop-OptionRun_example =
    option_loop-OptionRun (push_options small.options []) 30 0 small (omega arith)
