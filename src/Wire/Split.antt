-- ===== src/Wire/Split.antt =====
-- `SentRawdata` (and `Client::SendRawData`, which has the same loop): a message longer than 256
-- bytes goes in boxes of 256 bytes, the last of up to 512.
pub mod Pieces
use net_cpp.Base.{
  ℕ, zero, suc, ◌+◌, ◌-◌, ◌*◌, ◌/◌, ◌%◌, ◌^◌, List, [], ◌∷◌, Bytes, map, length, ltb, if◌then◌else◌,
}
use net_cpp.Outcome.{Outcome, ok, fault, ◌>>=◌}
use net_cpp.Wire.{read}
use net_cpp.Wire.Box.{NetBox, set_box, build}

-- A box before `set`: its index is converted to 16 bits.
abbrev pub new_box : ℕ → ℕ → ℕ → NetBox
new_box r_id cnt tmp_idx = record {
  b_id = r_id;
  idx = tmp_idx % 2 ^ 16;
  cnt = cnt;
  data_size = 0;
  data_bytes = [];
}

-- The loop `while(bidx < trdt->msg_size-1)`. `alls` is above 256 whenever the loop goes on, so
-- that the difference is never negative; a round takes 256 bytes at least.
unfoldable pub split_loop : ℕ → ℕ → ℕ → Bytes → ℕ → ℕ → ℕ → ℕ → Outcome (List NetBox)
unfolding read set_box
split_loop zero r_id cnt msg aidx bidx alls tmp_idx = fault
split_loop (suc f) r_id cnt msg aidx bidx alls tmp_idx =
    if ltb bidx (length msg - 1)
    then (do
      let left = alls - 256
      let last = if ltb 256 left then aidx + 255 else length msg - 1
      buff ← read msg aidx (last - aidx + 1)
      rest ← split_loop f r_id cnt msg (last + 1) last left (tmp_idx + 1)
      ok (set_box buff (new_box r_id cnt tmp_idx) ∷ rest))
    else ok []

-- `tmp_cnt`, as the field `cnt` takes it.
abbrev pub box_count : ℕ → ℕ
box_count msg_size = (msg_size / 256) % 2 ^ 16

-- The boxes of a message that is longer than 256 bytes.
unfoldable pub split_rawdata : ℕ → Bytes → Outcome (List NetBox)
unfolding split_loop
split_rawdata r_id msg =
    split_loop (length msg) r_id (box_count (length msg)) msg 0 0 (length msg) 0

-- `SentRawdata`: what goes to the socket, one datagram after the other.
unfoldable pub sent_rawdata : ℕ → Bytes → Outcome (List Bytes)
unfolding split_rawdata
sent_rawdata r_id msg =
    if ltb 256 (length msg)
    then (do bs ← split_rawdata r_id msg; ok (map build bs))
    else ok (msg ∷ [])

-- `Client::SendRawData`
unfoldable pub send_raw_data : ℕ → Bytes → Outcome (List Bytes)
unfolding sent_rawdata
send_raw_data r_id msg = sent_rawdata r_id msg
