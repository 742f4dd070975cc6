-- ===== src/Wire/Listener.antt =====
-- The boxes on their way back to a message: `box_listener`, the part of `serverDeamon` that takes a
-- box, `boxProcessorDeamon` and `CleaningBoxs`. The locks make each of them a step.
pub mod Filling
pub mod Places
pub mod Assembly
pub mod Delivery
pub mod Expiry
use net_cpp.Base.{
  ℕ, zero, suc, ◌+◌, ◌-◌, ◌≡◌, Bool, true, false, ◌&&◌, not, Option, none, some, List, [], ◌∷◌,
  ◌++◌, Bytes, ℤ, pos, negsuc, ◌+ℤ◌, length, get_elem?, set, replicate, take, ltb, ◌==◌,
  if◌then◌else◌,
}
use net_cpp.Outcome.{Outcome, ok, fault, ◌>>=◌}
use net_cpp.Wire.{read}
use net_cpp.Wire.Box.{NetBox}
use net_cpp.Wire.Signed.{RawData, check_raw_msg, process_signed_raw_msg}

-- `box_listener`: a null pointer in `boxs` is none.
pub record BoxListener : Type 0 where
  pub b_id : ℕ
  pub clicks : ℤ
  pub cnt : ℕ
  pub nbn : ℕ
  pub address : Bytes
  pub boxs : List (Option NetBox)

-- A box for a listener that is there. The index is not compared to the number of places.
unfoldable pub take_box : NetBox → BoxListener → Outcome BoxListener
take_box b l = elim (get_elem? l.boxs b.idx) [
  | none ↦ fault
  | some (some old) ↦ ok l
  | some none ↦
      if ltb l.nbn l.cnt
      then ok (record l {
        boxs = set l.boxs b.idx (some b);
        clicks = l.clicks +ℤ pos 5;
        nbn = l.nbn + 1;
      })
      else ok l
]

-- The first box of a message makes a listener.
unfoldable pub new_listener : Bytes → NetBox → Outcome BoxListener
new_listener address b =
    if ltb b.idx b.cnt
    then ok (record {
      b_id = b.b_id;
      clicks = pos 15;
      cnt = b.cnt;
      nbn = 1;
      address = address;
      boxs = set (replicate b.cnt none) b.idx (some b);
    })
    else fault

-- `boxls`, a map from `b_id`, as a list of listeners in the order of their numbers.
unfoldable pub receive_box : Bytes → NetBox → List BoxListener → Outcome (List BoxListener)
unfolding take_box new_listener
receive_box address b [] = do l ← new_listener address b; ok (l ∷ [])
receive_box address b (l ∷ ls) =
    if l.b_id == b.b_id
    then (do l ← take_box b l; ok (l ∷ ls))
    else if ltb b.b_id l.b_id
    then (do new ← new_listener address b; ok (new ∷ l ∷ ls))
    else (do ls ← receive_box address b ls; ok (l ∷ ls))

-- The loops of `TogtRawData`: a null pointer is dereferenced. The sum of the sizes fits in 32 bits,
-- since there are less than 2^16 boxes of less than 2^16 bytes.
unfoldable pub joined : List (Option NetBox) → Outcome Bytes
unfolding read
joined [] = ok []
joined (none ∷ os) = fault
joined (some b ∷ os) = do
  first ← read b.data_bytes 0 b.data_size
  rest ← joined os
  ok (first ++ rest)

-- `TogtRawData`: without its marks the message is dropped, and `trdt` stays as it is.
unfoldable pub to_gt_raw_data : BoxListener → RawData → Outcome RawData
unfolding joined
to_gt_raw_data l r = do
  msg ← joined l.boxs
  good ← check_raw_msg msg
  if good then process_signed_raw_msg msg r else ok r

abbrev pub is_negative : ℤ → Bool
is_negative (pos n) = false
is_negative (negsuc n) = true

-- A listener in the loop of `boxProcessorDeamon`, and the raw data that it completes: `fresh` is
-- what `new raw_data()` gives. The listener's boxes are freed with it.
unfoldable pub process_listener : RawData → BoxListener → Outcome (BoxListener × List RawData)
unfolding to_gt_raw_data
process_listener fresh l =
    if is_negative l.clicks
    then ok (l, [])
    else if l.cnt == l.nbn
    then (do
      r ← to_gt_raw_data l fresh
      ok (record l { clicks = negsuc 0 }, record r { r_id = l.b_id; address = l.address } ∷ []))
    else ok (
      elim l.clicks [
        | pos zero ↦ record l { clicks = negsuc 0 }
        | pos (suc n) ↦ record l { clicks = pos n }
        | negsuc n ↦ l
      ],
      [],
    )

-- `CleaningBoxs`, and the second loop of `boxProcessorDeamon`.
unfoldable pub cleaning_boxs : List BoxListener → List BoxListener
cleaning_boxs [] = []
cleaning_boxs (l ∷ ls) = elim l.clicks [
  | negsuc zero ↦ cleaning_boxs ls
  | negsuc (suc n) ↦ l ∷ cleaning_boxs ls
  | pos n ↦ l ∷ cleaning_boxs ls
]

unfoldable pub process_listeners :
    (ℕ → RawData) → ℕ → List BoxListener → Outcome (List BoxListener × List RawData)
unfolding process_listener
process_listeners fresh i [] = ok ([], [])
process_listeners fresh i (l ∷ ls) = do
  (l, rs) ← process_listener (fresh i) l
  (ls, more) ← process_listeners fresh (i + 1) ls
  ok (l ∷ ls, rs ++ more)

-- `boxProcessorDeamon`: what it appends to `rawdata_in` comes with the listeners.
unfoldable pub box_processor :
    (ℕ → RawData) → List BoxListener → Outcome (List BoxListener × List RawData)
unfolding process_listeners cleaning_boxs
box_processor fresh ls = do (ls, rs) ← process_listeners fresh 0 ls; ok (cleaning_boxs ls, rs)
