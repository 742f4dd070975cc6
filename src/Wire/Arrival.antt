-- ===== src/Wire/Arrival.antt =====
-- From `SentRawdata` over datagrams to the listeners of another server.
use net_cpp.Base.{
  ℕ, zero, suc, ◌+◌, ◌<◌, ◌≤◌, ◌≡◌, ◌^◌, ◌%◌, refl, ap, sym, subst, ◌∙◌, true, List, [], ◌∷◌, Bytes,
  codes, length, map, ◌==◌, All, arith, inl, inr,
}
use net_cpp.Outcome.{ok, ◌>>=◌, bind-eq-ok, ok_inj}
use net_cpp.Wire.Box.{NetBox, IsBox, build, process_net_box-build}
use net_cpp.Wire.Signed.{RawData, signed_rawdata}
use net_cpp.Wire.Split.{split_rawdata, box_count}
use net_cpp.Wire.Split.Pieces.{Pieces, split_rawdata-Pieces}
use net_cpp.Wire.Listener.{BoxListener, take_box, new_listener, receive_box, to_gt_raw_data}
use net_cpp.Wire.Listener.Places.{Among}
use net_cpp.Wire.Listener.Assembly.{take_boxes}
use net_cpp.Wire.Listener.Delivery.{deliver, to_gt_raw_data-deliver}
use net_cpp.Wire.Deamon.{Inbox, Received, got, take_received, server_deamon}

-- A box of the message.
abbrev IsPart : ℕ → NetBox → Type 0
IsPart r_id b = IsBox b × (b.b_id ≡ r_id)

Pieces-IsPart :
    (r_id cnt k : ℕ) (rest : Bytes) (bs : List NetBox) (b : NetBox)
    → Pieces r_id cnt k rest bs
    → Among b bs
    → IsPart r_id b
Pieces-IsPart r_id cnt k rest [] b p at = elim at [ ]
Pieces-IsPart r_id cnt k rest (x ∷ xs) b p (inl e) = subst (IsPart r_id) (sym e) (p.0, p.1)
Pieces-IsPart r_id cnt k rest (x ∷ xs) b p (inr at) =
    let (more, split, pieces) = p.4 in Pieces-IsPart r_id cnt (k + 1) more xs b pieces at

All-parts :
    (r_id : ℕ) (bs seq : List NetBox)
    → ((b : NetBox) → Among b bs → IsPart r_id b)
    → ((b : NetBox) → Among b seq → Among b bs)
    → All (IsPart r_id) seq
All-parts r_id bs [] part from = tt
All-parts r_id bs (x ∷ xs) part from =
    (part x (from x (inl refl)), All-parts r_id bs xs part (λ b i. from b (inr i)))

take_box-b_id : (b : NetBox) (l m : BoxListener) → take_box b l ≡ ok m → m.b_id ≡ l.b_id
unfolding take_box
take_box-b_id b l m e = ground arith

new_listener-b_id :
    (address : Bytes) (b : NetBox) (l : BoxListener)
    → new_listener address b ≡ ok l
    → l.b_id ≡ b.b_id
unfolding new_listener
new_listener-b_id address b l e = ground arith

module _ (address : Bytes) (fresh : RawData) (raws : List RawData) where
  -- A box as it travels, and a server with one listener.
  abbrev pub datagram : NetBox → Received
  datagram b = got (build b) address fresh

  abbrev pub inbox : List BoxListener → Inbox
  inbox ls = record { boxls = ls; rawdata_in = raws }

  take_received-datagram :
      (b : NetBox) (ls : List BoxListener)
      → IsBox b
      → take_received (datagram b) (inbox ls)
        ≡ (receive_box address b ls >>= λ (boxls : List BoxListener). ok (inbox boxls))
  unfolding take_received
  take_received-datagram b ls h =
      let (checks, reads) = process_net_box-build b h in rw (checks, reads) refl

  take_received-listener :
      (b : NetBox) (l k : BoxListener)
      → IsBox b
      → l.b_id ≡ b.b_id
      → take_box b l ≡ ok k
      → take_received (datagram b) (inbox (l ∷ [])) ≡ ok (inbox (k ∷ []))
  unfolding receive_box
  take_received-listener b l k h id e =
      let same : (l.b_id == b.b_id) ≡ true = ground (arith, id) in
      take_received-datagram b (l ∷ []) h ∙ rw (receive_box, same, e) refl

  -- Boxes for one listener, with as many rounds as they take.
  server_deamon-take_boxes :
      (r_id prm : ℕ) (seq : List NetBox) (l m : BoxListener)
      → All (IsPart r_id) seq
      → l.b_id ≡ r_id
      → length seq ≤ prm + 1
      → take_boxes seq l ≡ ok m
      → server_deamon prm (map datagram seq) (inbox (l ∷ [])) ≡ ok (inbox (m ∷ []), [])
  unfolding server_deamon
  server_deamon-take_boxes r_id prm [] l m parts id n e =
      ap (λ k. ok (inbox (k ∷ []), [])) (ok_inj e)
  server_deamon-take_boxes r_id zero (b ∷ []) l m parts id n e =
      let (k, taken, rest) = bind-eq-ok (take_box b l) (take_boxes []) e in
      rw (take_received-listener b l k parts.0.0 (id ∙ sym parts.0.1) taken)
        (ap (λ k. ok (inbox (k ∷ []), [])) (ok_inj rest))
  server_deamon-take_boxes r_id zero (b ∷ c ∷ seq) l m parts id n e = absurd (omega (arith, n))
  server_deamon-take_boxes r_id (suc prm) (b ∷ seq) l m parts id n e =
      let (k, taken, rest) = bind-eq-ok (take_box b l) (take_boxes seq) e in
      rw (take_received-listener b l k parts.0.0 (id ∙ sym parts.0.1) taken) (
        server_deamon-take_boxes r_id prm seq k m parts.1 (take_box-b_id b l k taken ∙ id)
          (omega (arith, n)) rest)

  -- The first box makes the listener.
  take_received-first :
      (b : NetBox) (k : BoxListener)
      → IsBox b
      → new_listener address b ≡ ok k
      → take_received (datagram b) (inbox []) ≡ ok (inbox (k ∷ []))
  unfolding receive_box
  take_received-first b k h e = take_received-datagram b [] h ∙ rw (receive_box, e) refl

  server_deamon-deliver :
      (r_id prm : ℕ) (first : NetBox) (seq : List NetBox) (m : BoxListener)
      → All (IsPart r_id) (first ∷ seq)
      → length seq ≤ prm
      → deliver address first seq ≡ ok m
      → server_deamon prm (map datagram (first ∷ seq)) (inbox []) ≡ ok (inbox (m ∷ []), [])
  unfolding server_deamon
  server_deamon-deliver r_id zero first [] m parts n e =
      let (k, made, rest) = bind-eq-ok (new_listener address first) (take_boxes []) e in
      rw (take_received-first first k parts.0.0 made)
        (ap (λ k. ok (inbox (k ∷ []), [])) (ok_inj rest))
  server_deamon-deliver r_id zero first (c ∷ seq) m parts n e = absurd (omega (arith, n))
  server_deamon-deliver r_id (suc prm) first seq m parts n e =
      let (k, made, rest) = bind-eq-ok (new_listener address first) (take_boxes seq) e in
      rw (take_received-first first k parts.0.0 made) (
        server_deamon-take_boxes r_id prm seq k m parts.1
          (new_listener-b_id address first k made ∙ parts.0.1) (omega (arith, n)) rest)

-- The datagrams of a signed message of more than 256 and less than 2^24 bytes, not a multiple of
-- 256, may come in any order and more than once: when each has come, and no more than the loop of
-- `serverDeamon` takes, a server without listeners has one, which is complete, and `TogtRawData`
-- reads from it the data that `SignedRawdata` signed, and its text.
pub server_deamon-split_rawdata :
    (a b c d r_id prm : ℕ) (r q fresh : RawData) (address : Bytes) (raws : List RawData)
    (bs : List NetBox) (first : NetBox) (seq : List NetBox)
    → signed_rawdata (a ∷ b ∷ c ∷ d ∷ []) r ≡ ok q
    → r_id < 2 ^ 64
    → 256 < length q.msg
    → length q.msg < 2 ^ 24
    → 0 < length q.msg % 256
    → split_rawdata r_id q.msg ≡ ok bs
    → ((x : NetBox) → Among x (first ∷ seq) → Among x bs)
    → ((x : NetBox) → Among x bs → Among x (first ∷ seq))
    → length seq ≤ prm
    → (l : BoxListener) × (server_deamon prm
          (map (datagram address fresh raws) (first ∷ seq))
          (inbox address fresh raws [])
        ≡ ok (inbox address fresh raws (l ∷ []), []))
      × (l.nbn ≡ l.cnt)
      × (to_gt_raw_data l fresh
          ≡ ok (record fresh {
            data_bytes = r.data_bytes;
            head = codes "NETC";
            info = a ∷ b ∷ c ∷ d ∷ [];
            tail = codes "CTEN";
          }))
server_deamon-split_rawdata a b c d r_id prm r q fresh address raws bs first seq sign fits long
      short uneven split from covers n =
    let (l, eq, full, reads) =
      to_gt_raw_data-deliver a b c d r_id r q fresh address bs first seq sign fits long short uneven
        split from covers in
    let (bs', splits, pieces, count) = split_rawdata-Pieces r_id q.msg fits long short in
    let pieces_bs = rw (ok_inj (sym splits ∙ split)) at pieces in
    let parts =
      All-parts r_id bs (first ∷ seq)
        (λ x. Pieces-IsPart r_id (box_count (length q.msg)) 0 q.msg bs x pieces_bs) from in
    (l, server_deamon-deliver address fresh raws r_id prm first seq l parts n eq, full, reads)
