-- ===== src/Wire/Listener/Delivery.antt =====
-- From `SentRawdata` to `TogtRawData`.
use net_cpp.Base.{
  ℕ, ◌+◌, ◌<◌, ◌≡◌, ◌^◌, ◌%◌, refl, ap, subst, sym, ◌+ℤ◌, ◌∙◌, true, List, [], ◌∷◌, Bytes, codes,
  length, lt→ltb, arith, inl, inr, pos,
}
use net_cpp.Outcome.{Outcome, ok, ◌>>=◌, ok_inj}
use net_cpp.Wire.Box.{NetBox}
use net_cpp.Wire.Signed.{
  RawData, signed_rawdata, check_raw_msg, process_signed_raw_msg-signed_rawdata,
}
use net_cpp.Wire.Split.{split_rawdata, box_count}
use net_cpp.Wire.Split.Pieces.{Pieces, split_rawdata-Pieces}
use net_cpp.Wire.Listener.{BoxListener, take_box, new_listener, joined, to_gt_raw_data}
use net_cpp.Wire.Listener.Filling.{count-replicate, empty_boxs, get_elem-replicate}
use net_cpp.Wire.Listener.Places.{Among, Holds, Holds-empty, Filled, place}
use net_cpp.Wire.Listener.Assembly.{
  ListensTo, take_boxes, take_box-free, take_boxes-ListensTo, nth_piece, joined-Filled,
}

-- The first box, and the others one after the other.
abbrev pub deliver : Bytes → NetBox → List NetBox → Outcome BoxListener
deliver address first seq = new_listener address first >>= take_boxes seq

-- Every box of a message has its count.
Among-cnt :
    (r_id cnt k : ℕ) (rest : Bytes) (bs : List NetBox) (b : NetBox)
    → Pieces r_id cnt k rest bs
    → Among b bs
    → b.cnt ≡ cnt
Among-cnt r_id cnt k rest [] b p at = elim at [ ]
Among-cnt r_id cnt k rest (x ∷ xs) b p (inl e) = ap (λ (y : NetBox). y.cnt) e ∙ p.2
Among-cnt r_id cnt k rest (x ∷ xs) b p (inr at) =
    let (more, split, pieces) = p.4 in Among-cnt r_id cnt (k + 1) more xs b pieces at

-- The first box is as one that comes to a listener without boxes.
abbrev listener_before : Bytes → NetBox → BoxListener
listener_before address b = record {
  b_id = b.b_id;
  clicks = pos 10;
  cnt = b.cnt;
  nbn = 0;
  address = address;
  boxs = empty_boxs b.cnt;
}

new_listener-take_box :
    (address : Bytes) (b : NetBox)
    → b.idx < b.cnt
    → new_listener address b ≡ take_box b (listener_before address b)
unfolding new_listener ◌+ℤ◌
new_listener-take_box address b h =
    let free = get_elem-replicate b.cnt b.idx h in
    rw (lt→ltb b.idx b.cnt h, take_box-free b (listener_before address b) free (omega (arith, h)))

module _ (r_id cnt : ℕ) (msg address : Bytes) (bs : List NetBox) (first : NetBox)
    (seq : List NetBox) where
  -- Boxes of one message only, and each of them at least once.
  deliver-joined :
      Pieces r_id cnt 0 msg bs
      → length bs ≡ cnt
      → ((b : NetBox) → Among b (first ∷ seq) → Among b bs)
      → ((b : NetBox) → Among b bs → Among b (first ∷ seq))
      → (l : BoxListener) × (deliver address first seq ≡ ok l)
        × (joined l.boxs ≡ ok msg)
        × (l.nbn ≡ l.cnt)
  deliver-joined p n from covers =
      let whole = Among-cnt r_id cnt 0 msg bs first p (from first (inl refl)) ∙ sym n in
      let empty : Holds bs (empty_boxs first.cnt) = rw whole (Holds-empty bs) in
      let (i, e, at) =
        place r_id cnt 0 msg bs (empty_boxs first.cnt) first p empty (from first (inl refl)) in
      let before : ListensTo bs (listener_before address first) = record {
        holds = empty;
        size = whole;
        counted = sym (count-replicate first.cnt);
      } in
      let (l, eq, listens, keeps, fills) =
        take_boxes-ListensTo r_id cnt msg bs p (first ∷ seq) (listener_before address first) before
          from in
      let all : (j : ℕ) → j < length bs → Filled l.boxs j = λ j inside.
        let (b, has, idx) = nth_piece r_id cnt 0 msg bs j p inside in
        subst (Filled l.boxs) (omega (arith, idx)) (fills b (covers b has)) in
      let (is_msg, full) = joined-Filled r_id cnt 0 msg bs l.boxs p listens.holds all in
      let made = new_listener-take_box address first (omega (arith, e, at.inside, whole)) in
      (
        l,
        ap (λ (o : Outcome BoxListener). o >>= take_boxes seq) made ∙ eq,
        is_msg,
        listens.counted ∙ full ∙ sym listens.size,
      )

-- The boxes of a signed message of more than 256 and less than 2^24 bytes, not a multiple of 256,
-- may come in any order and more than once: when each has come, the listener is complete, and
-- `TogtRawData` reads from it the data that `SignedRawdata` signed, and its text.
pub to_gt_raw_data-deliver :
    (a b c d r_id : ℕ) (r q fresh : RawData) (address : Bytes) (bs : List NetBox) (first : NetBox)
    (seq : List NetBox)
    → signed_rawdata (a ∷ b ∷ c ∷ d ∷ []) r ≡ ok q
    → r_id < 2 ^ 64
    → 256 < length q.msg
    → length q.msg < 2 ^ 24
    → 0 < length q.msg % 256
    → split_rawdata r_id q.msg ≡ ok bs
    → ((x : NetBox) → Among x (first ∷ seq) → Among x bs)
    → ((x : NetBox) → Among x bs → Among x (first ∷ seq))
    → (l : BoxListener) × (deliver address first seq ≡ ok l)
      × (l.nbn ≡ l.cnt)
      × (to_gt_raw_data l fresh
          ≡ ok (record fresh {
            data_bytes = r.data_bytes;
            head = codes "NETC";
            info = a ∷ b ∷ c ∷ d ∷ [];
            tail = codes "CTEN";
          }))
unfolding to_gt_raw_data
to_gt_raw_data-deliver a b c d r_id r q fresh address bs first seq sign fits long short uneven split
      from covers =
    let (q', signs, checks, reads) = process_signed_raw_msg-signed_rawdata a b c d r fresh in
    let same : q' ≡ q = ok_inj (sym signs ∙ sign) in
    let checks_q : check_raw_msg q.msg ≡ ok true = rw same at checks in
    let (bs', splits, pieces, n) = split_rawdata-Pieces r_id q.msg fits long short in
    let same_bs : bs' ≡ bs = ok_inj (sym splits ∙ split) in
    let pieces_bs = rw same_bs at pieces in
    let n_bs : length bs ≡ box_count (length q.msg) =
      sym (ap length same_bs) ∙ ground (arith, n, uneven) in
    let (l, eq, is_msg, full) =
      deliver-joined r_id (box_count (length q.msg)) q.msg address bs first seq pieces_bs n_bs from
        covers in
    (l, eq, full, rw (is_msg, checks_q) (rw same at reads))
