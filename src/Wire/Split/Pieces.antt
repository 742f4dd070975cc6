-- ===== src/Wire/Split/Pieces.antt =====
-- The boxes of a message put together give the message.
use net_cpp.Base.{
  ℕ, zero, suc, ◌+◌, ◌-◌, ◌*◌, ◌/◌, ◌%◌, ◌^◌, ◌≤◌, ◌<◌, ◌≡◌, refl, ap, subst, sym, ◌∙◌, List, [],
  ◌∷◌, ◌++◌, Bytes, length, take, drop, take-append-drop, length-take, length-drop, append-nil, ltb,
  ◌==◌, lt→ltb, le→ltb_false, if◌then◌else◌, arith, Bool-cases, inl, inr, ltb→lt,
}
use net_cpp.Outcome.{ok, At, At-start}
use net_cpp.Factory.Cursor.{At-skip}
use net_cpp.Wire.{read-At}
use net_cpp.Wire.Box.{NetBox, IsBox, set_box, set_box-IsBox}
use net_cpp.Wire.Split.{new_box, split_loop, split_rawdata, box_count}

-- Boxes that carry `rest`, in order, numbered from k on.
abbrev pub Pieces : ℕ → ℕ → ℕ → Bytes → List NetBox → Type 0
Pieces r_id cnt k rest [] = rest ≡ []
Pieces r_id cnt k rest (b ∷ bs) =
    IsBox b
    × (b.b_id ≡ r_id)
    × (b.cnt ≡ cnt)
    × (b.idx ≡ k)
    × ((more : Bytes) × (rest ≡ b.data_bytes ++ more) × Pieces r_id cnt (k + 1) more bs)

module _ (r_id cnt : ℕ) (msg : Bytes) (id_fits : r_id < 2 ^ 64) (cnt_fits : cnt < 2 ^ 16) where
  -- One round, where the bytes from aidx on are `buff` and `more`.
  round-Pieces :
      (f aidx bidx alls k last n : ℕ) (rest buff more : Bytes)
      → bidx < length msg - 1
      → last ≡ (if ltb 256 (alls - 256) then aidx + 255 else length msg - 1)
      → last + 1 ≡ aidx + length buff
      → 0 < length buff
      → length buff + 22 < 2 ^ 16
      → k < 2 ^ 16
      → At msg aidx rest
      → rest ≡ buff ++ more
      → ((bs : List NetBox) × (split_loop f r_id cnt msg (last + 1) last (alls - 256) (k + 1)
            ≡ ok bs)
          × Pieces r_id cnt (k + 1) more bs
          × (length bs ≡ n))
      → (bs : List NetBox) × (split_loop (suc f) r_id cnt msg aidx bidx alls k ≡ ok bs)
        × Pieces r_id cnt k rest bs
        × (length bs ≡ suc n)
  unfolding split_loop set_box
  round-Pieces f aidx bidx alls k last n rest buff more on e l pos small k_fits a split
        (bs, eq, pieces, count) =
      let empty = new_box r_id cnt k in
      let k_same : k % 2 ^ 16 ≡ k = omega (arith, k_fits) in
      let (is_box, same) = set_box-IsBox buff empty small id_fits (omega arith) cnt_fits in
      let size : length buff ≡ last - aidx + 1 = omega (arith, l, pos) in
      (
        set_box buff empty ∷ bs,
        rw (
          lt→ltb bidx (length msg - 1) on,
          ← e,
          read-At msg aidx (last - aidx + 1) buff more (rw split at a) size,
          eq,
        ),
        (is_box, refl, refl, k_same, (more, split ∙ ap (λ s. s ++ more) (sym same), pieces)),
        ap suc count,
      )

  split_loop-end :
      (f aidx bidx alls k : ℕ)
      → 0 < f
      → length msg - 1 ≤ bidx
      → split_loop f r_id cnt msg aidx bidx alls k ≡ ok []
  unfolding split_loop
  split_loop-end zero aidx bidx alls k pos off = absurd (omega (arith, pos))
  split_loop-end (suc f) aidx bidx alls k pos off = rw (le→ltb_false bidx (length msg - 1) off)

  split_loop-Pieces :
      (f aidx bidx k : ℕ) (rest : Bytes)
      → At msg aidx rest
      → 256 < length rest
      → length rest ≤ f
      → bidx < length msg - 1
      → 256 * k + length rest < 2 ^ 24
      → (bs : List NetBox) × (split_loop f r_id cnt msg aidx bidx (length rest) k ≡ ok bs)
        × Pieces r_id cnt k rest bs
        × (length bs ≡ (length rest - 1) / 256)
  split_loop-Pieces zero aidx bidx k rest a long fuel on small = absurd (omega (arith, long, fuel))
  split_loop-Pieces (suc f) aidx bidx k rest a long fuel on small =
      elim (Bool-cases (ltb 256 (length rest - 256))) [
        | inl more ↦
            let buff = take 256 rest in
            let split : rest ≡ buff ++ drop 256 rest = sym (take-append-drop 256 rest) in
            let size : length buff ≡ 256 = omega (arith, length-take 256 rest, long) in
            let left : length rest - 256 ≡ length (drop 256 rest) = sym (length-drop 256 rest) in
            let longer = ltb→lt 256 (length rest - 256) more in
            let next = rw size at (At-skip msg aidx buff (drop 256 rest) (rw split at a)) in
            let step : aidx + 256 ≡ aidx + 255 + 1 = omega arith in
            let next' : At msg (aidx + 255 + 1) (drop 256 rest) =
              subst (λ j. At msg j (drop 256 rest)) step next in
            let ih =
              split_loop-Pieces f (aidx + 255 + 1) (aidx + 255) (k + 1) (drop 256 rest) next'
                (omega (arith, longer, left)) (omega (arith, left, fuel, long))
                (omega (arith, a.count, longer)) (omega (arith, left, small, longer)) in
            let (bs, eq, pieces, count) =
              round-Pieces f aidx bidx (length rest) k (aidx + 255)
                ((length (drop 256 rest) - 1) / 256) rest buff (drop 256 rest) on (rw more)
                (omega (arith, size)) (omega (arith, size)) (omega (arith, size))
                (omega (arith, small)) a split (rw left ih) in
            (bs, eq, pieces, omega (arith, count, left, longer))
        | inr done ↦
            let ends =
              split_loop-end f (length msg - 1 + 1) (length msg - 1) (length rest - 256) (k + 1)
                (omega (arith, long, fuel)) (omega arith) in
            let short : length rest ≤ 512 = ground arith in
            let (bs, eq, pieces, count) =
              round-Pieces f aidx bidx (length rest) k (length msg - 1) 0 rest rest [] on (rw done)
                (omega (arith, a.count, long)) (omega (arith, long)) (omega (arith, short))
                (omega (arith, small)) a (sym (append-nil rest)) ([], ends, refl, refl) in
            (bs, eq, pieces, omega (arith, count, long, short))
      ]

-- A message of more than 256 bytes, and less than 2^24, is split without a read outside of it, into
-- boxes that carry its bytes in order, with the number of the message, the count that the message
-- gets and the indices from 0 on. Their number is that count, or one less where the length of
-- the message is a multiple of 256.
pub split_rawdata-Pieces :
    (r_id : ℕ) (msg : Bytes)
    → r_id < 2 ^ 64
    → 256 < length msg
    → length msg < 2 ^ 24
    → (bs : List NetBox) × (split_rawdata r_id msg ≡ ok bs)
      × Pieces r_id (box_count (length msg)) 0 msg bs
      × (length bs
          ≡ (if length msg % 256 == 0 then box_count (length msg) - 1 else box_count (length msg)))
unfolding split_rawdata
split_rawdata-Pieces r_id msg fits long short =
    let (bs, eq, pieces, count) =
      split_loop-Pieces r_id (box_count (length msg)) msg fits (omega arith) (length msg) 0 0 0 msg
        (At-start msg) long (omega arith) (omega (arith, long)) (omega (arith, short)) in
    (bs, eq, pieces, ground (arith, count, long, short))
