-- ===== src/Wire/Listener/Assembly.antt =====
-- The boxes of one message, in any order and with repetitions, give the message.
use net_cpp.Base.{
  ℕ, zero, suc, ◌+◌, ◌<◌, ◌≡◌, refl, ap, sym, subst, ◌∙◌, Option, none, some, List, [], ◌∷◌, ◌++◌,
  Bytes, length, get_elem?, set, arith, inl, inr, pos, ◌+ℤ◌, append-nil,
}
use net_cpp.Outcome.{Outcome, ok, ◌>>=◌, At, At-start, bind_ok}
use net_cpp.Wire.{read-At}
use net_cpp.Wire.Box.{NetBox}
use net_cpp.Wire.Split.Pieces.{Pieces}
use net_cpp.Wire.Listener.{BoxListener, take_box, joined}
use net_cpp.Wire.Listener.Filling.{count, count-set}
use net_cpp.Wire.Listener.Places.{Among, Holds, Holds-length, Filled, place}

Filled-set :
    (os : List (Option NetBox)) (i j : ℕ) (b : NetBox) → Filled os i → Filled (set os j (some b)) i
Filled-set [] i j b f = f
Filled-set (o ∷ os) zero zero b f = (b, refl)
Filled-set (o ∷ os) zero (suc j) b f = f
Filled-set (o ∷ os) (suc i) zero b f = f
Filled-set (o ∷ os) (suc i) (suc j) b f = Filled-set os i j b f

Filled-here :
    (os : List (Option NetBox)) (j : ℕ) (b : NetBox) → j < length os → Filled (set os j (some b)) j
Filled-here [] j b h = absurd (omega (arith, h))
Filled-here (o ∷ os) zero b h = (b, refl)
Filled-here (o ∷ os) (suc j) b h = Filled-here os j b (omega (arith, h))

-- A listener for these boxes.
pub record ListensTo (bs : List NetBox) (l : BoxListener) : Type 0 where
  pub holds : Holds bs l.boxs
  pub size : l.cnt ≡ length bs
  pub counted : l.nbn ≡ count l.boxs

-- What a box of the message does to the listener.
record Takes (bs : List NetBox) (b : NetBox) (l m : BoxListener) : Type 0 where
  listens : ListensTo bs m
  filled : Filled m.boxs b.idx
  keeps : (i : ℕ) → Filled l.boxs i → Filled m.boxs i

abbrev pub put_in : NetBox → BoxListener → BoxListener
put_in b l = record l {
  boxs = set l.boxs b.idx (some b);
  clicks = l.clicks +ℤ pos 5;
  nbn = l.nbn + 1;
}

take_box-again :
    (b c : NetBox) (l : BoxListener) → get_elem? l.boxs b.idx ≡ some (some c) → take_box b l ≡ ok l
unfolding take_box
take_box-again b c l h = ground arith

pub take_box-free :
    (b : NetBox) (l : BoxListener)
    → get_elem? l.boxs b.idx ≡ some none
    → l.nbn < l.cnt
    → take_box b l ≡ ok (put_in b l)
unfolding take_box
take_box-free b l h room = ground arith

-- Boxes one after the other.
abbrev pub take_boxes : List NetBox → BoxListener → Outcome BoxListener
take_boxes [] l = ok l
take_boxes (b ∷ seq) l = take_box b l >>= take_boxes seq

module _ (r_id cnt : ℕ) (msg : Bytes) (bs : List NetBox) (p : Pieces r_id cnt 0 msg bs) where
  take_box-Takes :
      (b : NetBox) (l : BoxListener)
      → ListensTo bs l
      → Among b bs
      → (m : BoxListener) × (take_box b l ≡ ok m) × Takes bs b l m
  take_box-Takes b l h m =
      let (i, e, at) = place r_id cnt 0 msg bs l.boxs b p h.holds m in
      let here : b.idx ≡ i = omega (arith, e) in
      elim at.found [
        | inl (c, f) ↦
            let there : get_elem? l.boxs b.idx ≡ some (some c) = rw here f in
            (
              l,
              take_box-again b c l there,
              record { listens = h; filled = (c, there); keeps = λ j g. g },
            )
        | inr f ↦
            let there : get_elem? l.boxs b.idx ≡ some none = rw here f in
            let (more, below) = count-set l.boxs b.idx b there in
            let places = Holds-length bs l.boxs h.holds in
            let room : l.nbn < l.cnt = omega (arith, below, places, h.size, h.counted) in
            (
              put_in b l,
              take_box-free b l there room,
              record {
                listens = record {
                  holds = subst (λ j. Holds bs (set l.boxs j (some b))) (sym here) at.kept;
                  size = h.size;
                  counted = omega (arith, more, h.counted);
                };
                filled = Filled-here l.boxs b.idx b (omega (arith, here, at.inside, places));
                keeps = λ j g. Filled-set l.boxs j b.idx b g;
              },
            )
      ]

  pub take_boxes-ListensTo :
      (seq : List NetBox) (l : BoxListener)
      → ListensTo bs l
      → ((b : NetBox) → Among b seq → Among b bs)
      → (m : BoxListener) × (take_boxes seq l ≡ ok m)
        × ListensTo bs m
        × ((i : ℕ) → Filled l.boxs i → Filled m.boxs i)
        × ((b : NetBox) → Among b seq → Filled m.boxs b.idx)
  take_boxes-ListensTo [] l h from = (l, refl, h, λ i f. f, λ b e. elim e [ ])
  take_boxes-ListensTo (x ∷ seq) l h from =
      let (k, e, takes) = take_box-Takes x l h (from x (inl refl)) in
      let (m, eq, listens, keeps, fills) =
        take_boxes-ListensTo seq k takes.listens (λ b i. from b (inr i)) in
      let all : (b : NetBox) → Among b (x ∷ seq) → Filled m.boxs b.idx = λ b at. elim at [
        | inl same ↦
            subst (λ (y : NetBox). Filled m.boxs y.idx) (sym same) (keeps x.idx takes.filled)
        | inr i ↦ fills b i
      ] in
      (
        m,
        bind_ok (take_box x l) (take_boxes seq) k e ∙ eq,
        listens,
        λ i f. keeps i (takes.keeps i f),
        all,
      )

-- The i-th box has the index i.
pub nth_piece :
    (r_id cnt k : ℕ) (rest : Bytes) (bs : List NetBox) (i : ℕ)
    → Pieces r_id cnt k rest bs
    → i < length bs
    → (b : NetBox) × Among b bs × (b.idx ≡ k + i)
nth_piece r_id cnt k rest [] i p h = absurd (omega (arith, h))
nth_piece r_id cnt k rest (b ∷ bs) zero p h = (b, inl refl, p.3 ∙ omega arith)
nth_piece r_id cnt k rest (b ∷ bs) (suc i) p h =
    let (more, split, pieces) = p.4 in
    let (c, at, e) = nth_piece r_id cnt (k + 1) more bs i pieces (omega (arith, h)) in
    (c, inr at, omega (arith, e))

-- Where no place is free, all boxes are there, and joined they are the message.
pub joined-Filled :
    (r_id cnt k : ℕ) (rest : Bytes) (bs : List NetBox) (os : List (Option NetBox))
    → Pieces r_id cnt k rest bs
    → Holds bs os
    → ((i : ℕ) → i < length bs → Filled os i)
    → (joined os ≡ ok rest) × (count os ≡ length bs)
unfolding joined
joined-Filled r_id cnt k rest [] [] p h f = (ap ok (sym p), refl)
joined-Filled r_id cnt k rest [] (o ∷ os) p h f = elim h [ ]
joined-Filled r_id cnt k rest (b ∷ bs) [] p h f = elim h [ ]
joined-Filled r_id cnt k rest (b ∷ bs) (none ∷ os) p h f = let (c, taken) = f 0 (omega arith) in cc
joined-Filled r_id cnt k rest (b ∷ bs) (some c ∷ os) p h f =
    let (more, split, pieces) = p.4 in
    let (all, n) =
      joined-Filled r_id cnt (k + 1) more bs os pieces h.1 (λ i l. f (suc i) (omega (arith, l))) in
    let start : At c.data_bytes 0 (c.data_bytes ++ []) =
      rw (append-nil c.data_bytes) (At-start c.data_bytes) in
    let sized : length c.data_bytes ≡ c.data_size =
      ap (λ (y : NetBox). length y.data_bytes) h.0
      ∙ p.0.sized
      ∙ sym (ap (λ (y : NetBox). y.data_size) h.0) in
    (
      rw (read-At c.data_bytes 0 c.data_size c.data_bytes [] start sized, all)
          (ap (λ (y : NetBox). ok (y.data_bytes ++ more)) h.0 ∙ ap ok (sym split)),
      ap suc n,
    )
