-- ===== src/Tests/Boxes.antt =====
-- A message in two boxes.
use net_cpp.Base.{
  map, ◌≡◌, ◌%◌, ◌==◌, ◌-◌, refl, inl, inr, List, [], ◌∷◌, ◌++◌, Bytes, All, codes, length, arith,
  if◌then◌else◌, replicate, none, pos,
}
use net_cpp.Outcome.{ok, IfOk}
use net_cpp.Wire.{read}
use net_cpp.Wire.Signed.{RawData, signed_rawdata}
use net_cpp.Wire.Box.{NetBox, set_box}
use net_cpp.Wire.Split.{box_count, split_loop, split_rawdata}
use net_cpp.Wire.Split.Pieces.{Pieces, split_rawdata-Pieces}
use net_cpp.Wire.Listener.{BoxListener, receive_box, to_gt_raw_data, box_processor}
use net_cpp.Wire.Listener.Expiry.{Waits, box_processor-Waits}
use net_cpp.Wire.Listener.Filling.{IsListener, receive_box-IsListener}
use net_cpp.Wire.Listener.Places.{Among}
use net_cpp.Wire.Deamon.{Received, server_deamon}
use net_cpp.Wire.Arrival.{datagram, inbox, server_deamon-split_rawdata}

abbrev blank_raw : RawData
blank_raw = record {
  data_bytes = [];
  r_id = 0;
  head = [];
  tail = [];
  info = [];
  msg = [];
  address = [];
}

abbrev long_raw : RawData
long_raw = record blank_raw { data_bytes = replicate 510 7 }

abbrev long_msg : Bytes
long_msg = codes "NETCSPKT" ++ (replicate 510 7 ++ codes "CTEN")

abbrev first_box : NetBox
first_box = record {
  b_id = 5;
  idx = 0;
  cnt = 2;
  data_size = 256;
  data_bytes = codes "NETCSPKT" ++ replicate 248 7;
}

abbrev last_box : NetBox
last_box = record {
  b_id = 5;
  idx = 1;
  cnt = 2;
  data_size = 266;
  data_bytes = replicate 262 7 ++ codes "CTEN";
}

in_two : split_rawdata 5 long_msg ≡ ok (first_box ∷ last_box ∷ [])
unfolding split_rawdata split_loop set_box read
in_two = refl

split_rawdata-Pieces_example :
    (bs : List NetBox) × (split_rawdata 5 long_msg ≡ ok bs)
    × Pieces 5 (box_count (length long_msg)) 0 long_msg bs
    × (length bs ≡ (
        if length long_msg % 256 == 0
        then box_count (length long_msg) - 1
        else box_count (length long_msg)))
split_rawdata-Pieces_example =
    split_rawdata-Pieces 5 long_msg (omega arith) (omega arith) (omega arith)

-- The boxes come in the wrong order, and the last one twice.
known :
    (x : NetBox)
    → Among x (last_box ∷ first_box ∷ last_box ∷ [])
    → Among x (first_box ∷ last_box ∷ [])
known x (inl e) = inr (inl e)
known x (inr (inl e)) = inl e
known x (inr (inr (inl e))) = inr (inl e)
known x (inr (inr (inr e))) = elim e [ ]

all_came :
    (x : NetBox)
    → Among x (first_box ∷ last_box ∷ [])
    → Among x (last_box ∷ first_box ∷ last_box ∷ [])
all_came x (inl e) = inr (inl e)
all_came x (inr (inl e)) = inl e
all_came x (inr (inr e)) = elim e [ ]

abbrev signed_long : RawData
signed_long = record long_raw {
  head = codes "NETC";
  tail = codes "CTEN";
  info = codes "SPKT";
  msg = long_msg;
}

long_signed : signed_rawdata (codes "SPKT") long_raw ≡ ok signed_long
unfolding signed_rawdata
long_signed = refl

abbrev arrived : List Received
arrived = map (datagram [] blank_raw []) (last_box ∷ first_box ∷ last_box ∷ [])

server_deamon-split_rawdata_example :
    (l : BoxListener) × (server_deamon 20 arrived (inbox [] blank_raw [] [])
      ≡ ok (inbox [] blank_raw [] (l ∷ []), []))
    × (l.nbn ≡ l.cnt)
    × (to_gt_raw_data l blank_raw
        ≡ ok (record blank_raw {
          data_bytes = long_raw.data_bytes;
          head = codes "NETC";
          info = codes "SPKT";
          tail = codes "CTEN";
        }))
server_deamon-split_rawdata_example =
    server_deamon-split_rawdata b'S' b'P' b'K' b'T' 5 20 long_raw signed_long blank_raw [] []
      (first_box ∷ last_box ∷ []) last_box (first_box ∷ last_box ∷ []) long_signed (omega arith)
      (omega arith) (omega arith) (omega arith) in_two known all_came (omega arith)

receive_box-IsListener_example : IfOk (All IsListener) (receive_box [] last_box [])
receive_box-IsListener_example = receive_box-IsListener [] last_box [] tt

-- A listener whose clicks have run out, and one that still waits.
abbrev two_listeners : List BoxListener
two_listeners =
    record { b_id = 1; clicks = pos 0; cnt = 2; nbn = 0; address = []; boxs = none ∷ none ∷ [] }
    ∷ record { b_id = 2; clicks = pos 3; cnt = 1; nbn = 0; address = []; boxs = none ∷ [] }
    ∷ []

box_processor-Waits_example :
    IfOk
      (λ (m : List BoxListener × List RawData). All Waits m.0)
      (box_processor (λ i. blank_raw) two_listeners)
box_processor-Waits_example = box_processor-Waits (λ i. blank_raw) two_listeners (refl, (refl, tt))
