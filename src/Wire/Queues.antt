-- ===== src/Wire/Queues.antt =====
-- `ProcessRawData` and `ProcessSendPackets`: a batch of a queue, without its null pointers, which
-- only the functions themselves leave there and take out. Decryption by RSA is a parameter.
use net_cpp.Base.{
  ◌*◌, ◌/◌, length, ℕ, zero, suc, ◌≡◌, Bool, true, false, List, [], ◌∷◌, ◌++◌, Bytes, codes,
  string_eq, take, drop, if◌then◌else◌,
}
use net_cpp.Outcome.{Outcome, ok, ◌>>=◌}
use net_cpp.Wire.Batch.{batch, all_of, batch-into}
use net_cpp.Wire.Packet.{Packet, packet_to_rawdata, rawdata_to_packet}
use net_cpp.Wire.Signed.{RawData, signed_rawdata}

-- `EncryptRSARawMsg`: eight bytes for each.
unfoldable pub encrypt_rsa_raw_msg : (Bytes → Bytes) → RawData → RawData
encrypt_rsa_raw_msg encrypt r = record r {
  data_bytes = take (length r.data_bytes * 8) (encrypt r.data_bytes);
}

-- `DecryptRSARawMsg`
unfoldable pub decrypt_rsa_raw_msg : (Bytes → Bytes) → RawData → RawData
decrypt_rsa_raw_msg decrypt r = record r {
  data_bytes = take (length r.data_bytes / 8) (decrypt r.data_bytes);
}

-- `new packet()` with its mark.
abbrev new_packet : Bytes → Bool → Packet
new_packet address encrypted = record {
  type = 0;
  address = address;
  buffs = [];
  if_encrypt = encrypted;
}

module _ (decrypt : Bytes → Bytes) where
  -- The branches on `info`: other texts are dropped.
  unfoldable pub raw_packets : RawData → Outcome (List Packet)
  unfolding rawdata_to_packet decrypt_rsa_raw_msg
  raw_packets r =
      if string_eq r.info (codes "SPKT")
      then (do p ← rawdata_to_packet r.data_bytes (new_packet r.address false); ok (p ∷ []))
      else if string_eq r.info (codes "RPKT")
      then (do
        p ← rawdata_to_packet (decrypt_rsa_raw_msg decrypt r).data_bytes (new_packet r.address true)
        ok (p ∷ []))
      else ok []

  -- The loop, with `prm` left: the packets, and what stays in `rawdata_in`.
  unfoldable pub process_raws : ℕ → List RawData → Outcome (List Packet × List RawData)
  unfolding raw_packets batch
  process_raws = batch raw_packets

  -- `ProcessRawData`: the packets go behind those of `packets_in`.
  unfoldable pub process_raw_data :
      List RawData → List Packet → Outcome (List RawData × List Packet)
  unfolding process_raws
  process_raw_data rawdata_in packets_in = do
    (ps, left) ← process_raws 2048 rawdata_in
    ok (left, packets_in ++ ps)

  -- All of a list.
  abbrev pub all_packets : List RawData → Outcome (List Packet)
  all_packets = all_of raw_packets

  -- `ProcessRawData` makes packets of the first 2048 raw data, in order, each by its text, and
  -- leaves the others in their order in the queue; it fails exactly where one of these conversions
  -- does.
  pub process_raw_data-take :
      (rs : List RawData) (ps : List Packet)
      → process_raw_data rs ps
        ≡ (all_packets (take 2048 rs) >>= λ more. ok (drop 2048 rs, ps ++ more))
  unfolding process_raw_data process_raws
  process_raw_data-take rs ps = batch-into raw_packets 2048 rs ps

-- The loop of `ProcessSendPackets`, with `prm` left: what is sent, each to the address of its packet,
-- and what stays in `packets_out`. `fresh` is what `raw_data nrwd` holds at first.
unfoldable pub send_packets :
    ℕ → ℕ → RawData → List Packet → Outcome (List (Bytes × RawData) × List Packet)
unfolding packet_to_rawdata signed_rawdata
send_packets bufsiz prm fresh [] = ok ([], [])
send_packets bufsiz zero fresh (p ∷ ps) = ok ([], p ∷ ps)
send_packets bufsiz (suc prm) fresh (p ∷ ps) = do
  body ← packet_to_rawdata bufsiz p
  r ← signed_rawdata (codes "SPKT") (record fresh { data_bytes = body })
  (sent, left) ← send_packets bufsiz prm fresh ps
  ok ((p.address, r) ∷ sent, left)

-- `ProcessSendPackets`
unfoldable pub process_send_packets :
    ℕ → RawData → List Packet → Outcome (List (Bytes × RawData) × List Packet)
unfolding send_packets
process_send_packets bufsiz fresh ps = send_packets bufsiz 512 fresh ps
