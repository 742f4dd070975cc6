-- ===== src/Wire/Listener/Places.antt =====
-- The places of the boxes of one message.
use net_cpp.Base.{
  ℕ, suc, ◌+◌, ◌<◌, ◌≡◌, ◌⊎◌, refl, ap, ◌∙◌, Option, none, some, List, [], ◌∷◌, Bytes, length,
  get_elem?, set, arith, inl, inr,
}
use net_cpp.Wire.Box.{NetBox}
use net_cpp.Wire.Split.Pieces.{Pieces}
use net_cpp.Wire.Listener.Filling.{empty_boxs}

-- One of the boxes.
abbrev pub Among : NetBox → List NetBox → Type 0
Among b [] = ⊥
Among b (x ∷ xs) = (b ≡ x) ⊎ Among b xs

abbrev pub MayBe : NetBox → Option NetBox → Type 0
MayBe b none = Unit
MayBe b (some c) = c ≡ b

-- Each place is free or holds the box that belongs there.
abbrev pub Holds : List NetBox → List (Option NetBox) → Type 0
Holds [] [] = Unit
Holds [] (o ∷ os) = ⊥
Holds (b ∷ bs) [] = ⊥
Holds (b ∷ bs) (o ∷ os) = MayBe b o × Holds bs os

pub Holds-empty : (bs : List NetBox) → Holds bs (empty_boxs (length bs))
Holds-empty [] = tt
Holds-empty (b ∷ bs) = (tt, Holds-empty bs)

pub Holds-length :
    (bs : List NetBox) (os : List (Option NetBox)) → Holds bs os → length os ≡ length bs
Holds-length [] [] h = refl
Holds-length [] (o ∷ os) h = elim h [ ]
Holds-length (b ∷ bs) [] h = elim h [ ]
Holds-length (b ∷ bs) (o ∷ os) h = ap suc (Holds-length bs os h.1)

abbrev pub Filled : List (Option NetBox) → ℕ → Type 0
Filled os i = (c : NetBox) × (get_elem? os i ≡ some (some c))

-- The place of a box of the message.
pub record Placed (bs : List NetBox) (os : List (Option NetBox)) (b : NetBox) (i : ℕ) : Type 0 where
  pub inside : i < length bs
  pub kept : Holds bs (set os i (some b))
  pub found : Filled os i ⊎ (get_elem? os i ≡ some none)

pub place :
    (r_id cnt k : ℕ) (rest : Bytes) (bs : List NetBox) (os : List (Option NetBox)) (b : NetBox)
    → Pieces r_id cnt k rest bs
    → Holds bs os
    → Among b bs
    → (i : ℕ) × (b.idx ≡ k + i) × Placed bs os b i
place r_id cnt k rest [] os b p h m = elim m [ ]
place r_id cnt k rest (x ∷ xs) [] b p h m = elim h [ ]
place r_id cnt k rest (x ∷ xs) (none ∷ os) b p h (inl e) = (
  0,
  ap (λ (y : NetBox). y.idx) e ∙ p.3 ∙ omega arith,
  record { inside = omega arith; kept = (e, h.1); found = inr refl },
)
place r_id cnt k rest (x ∷ xs) (some c ∷ os) b p h (inl e) = (
  0,
  ap (λ (y : NetBox). y.idx) e ∙ p.3 ∙ omega arith,
  record { inside = omega arith; kept = (e, h.1); found = inl (c, refl) },
)
place r_id cnt k rest (x ∷ xs) (o ∷ os) b p h (inr m) =
    let (more, split, pieces) = p.4 in
    let (i, e, at) = place r_id cnt (k + 1) more xs os b pieces h.1 m in
    (
      suc i,
      omega (arith, e),
      record { inside = omega (arith, at.inside); kept = (h.0, at.kept); found = at.found },
    )
