-- ===== src/Tests/Packets.antt =====
-- Packets and marks.
use net_cpp.Base.{
  ◌≡◌, refl, true, false, [], ◌∷◌, codes, length, arith, leb, string_eq, if◌then◌else◌,
}
use net_cpp.Outcome.{ok, fault, throws, thrown_text, ◌>>=◌}
use net_cpp.Wire.{to_le}
use net_cpp.Wire.Packet.{Packet, packet_to_rawdata, rawdata_to_packet}
use net_cpp.Wire.Packet.RoundTrip.{
  rawdata_of, packet_to_rawdata_lem, rawdata_to_packet-packet_to_rawdata,
}
use net_cpp.Wire.Signed.{
  RawData, check_marks, signed_rawdata, check_raw_msg, process_signed_raw_msg,
  process_signed_raw_msg-signed_rawdata,
}
use net_cpp.Wire.Box.{NetBox, build, check_net_box, process_net_box, process_net_box-build}

abbrev request_packet : Packet
request_packet = record {
  type = 3;
  address = [];
  buffs = codes "hello" ∷ [] ∷ codes "world" ∷ [];
  if_encrypt = false;
}

abbrev empty_packet : Packet
empty_packet = record { type = 0; address = []; buffs = []; if_encrypt = false }

packet_to_rawdata_lem_example : packet_to_rawdata 8192 request_packet ≡ (
    if leb (length (rawdata_of request_packet)) 8192 then ok (rawdata_of request_packet) else fault)
packet_to_rawdata_lem_example = packet_to_rawdata_lem 8192 request_packet (omega arith)

-- The first write behind the end of a small buffer.
too_long : packet_to_rawdata 25 request_packet ≡ fault
unfolding to_le
too_long = packet_to_rawdata_lem 25 request_packet (omega arith)

rawdata_to_packet-packet_to_rawdata_example :
    (packet_to_rawdata 8192 request_packet >>= λ raw. rawdata_to_packet raw empty_packet)
    ≡ ok (record empty_packet { type = 3; buffs = request_packet.buffs })
unfolding to_le
rawdata_to_packet-packet_to_rawdata_example =
    rawdata_to_packet-packet_to_rawdata 8192 request_packet empty_packet (omega arith)
      (omega arith, (omega arith, (omega arith, (omega arith, tt)))) (omega arith)

abbrev blank_raw : RawData
blank_raw = record {
  data_bytes = [];
  r_id = 0;
  head = [];
  tail = [];
  info = [];
  msg = [];
  address = [];
}

process_signed_raw_msg-signed_rawdata_example :
    let r = record blank_raw { data_bytes = codes "data" } in
    (q : RawData) × (signed_rawdata (codes "SPKT") r ≡ ok q)
    × (check_raw_msg q.msg ≡ ok true)
    × (process_signed_raw_msg q.msg blank_raw
        ≡ ok (record blank_raw {
          data_bytes = codes "data";
          head = codes "NETC";
          info = codes "SPKT";
          tail = codes "CTEN";
        }))
process_signed_raw_msg-signed_rawdata_example =
    process_signed_raw_msg-signed_rawdata b'S' b'P' b'K' b'T'
      (record blank_raw { data_bytes = codes "data" }) blank_raw

-- Eight bytes pass the check, and then ask for nearly 2^64.
too_short :
    (check_raw_msg (codes "NETCCTEN") ≡ ok true)
    × (process_signed_raw_msg (codes "NETCCTEN") blank_raw ≡ throws thrown_text)
unfolding process_signed_raw_msg check_marks string_eq
too_short = (refl, refl)

abbrev some_box : NetBox
some_box = record { b_id = 77; idx = 1; cnt = 3; data_size = 3; data_bytes = codes "abc" }

process_net_box-build_example :
    (check_net_box (build some_box) ≡ ok true) × (process_net_box (build some_box) ≡ ok some_box)
process_net_box-build_example = process_net_box-build some_box (record {
  b_id_fits = omega arith;
  idx_fits = omega arith;
  cnt_fits = omega arith;
  size_fits = omega arith;
  sized = refl;
})
