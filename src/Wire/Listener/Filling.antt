-- ===== src/Wire/Listener/Filling.antt =====
-- A listener counts its boxes.
use net_cpp.Base.{
  ℕ, zero, suc, ◌≤◌, ◌<◌, ◌≡◌, refl, ap, sym, ◌∙◌, Option, none, some, List, [], ◌∷◌, Bytes, All,
  length, get_elem?, set, replicate, length-set, length-replicate, ltb, arith, Bool-cases, inl, inr,
  ltb→lt,
}
use net_cpp.Outcome.{ok, IfOk, bind-IfOk}
use net_cpp.Wire.Box.{NetBox}
use net_cpp.Wire.Listener.{BoxListener, take_box, new_listener, receive_box}

-- The boxes that have come.
abbrev pub count : List (Option NetBox) → ℕ
count [] = 0
count (none ∷ os) = count os
count (some b ∷ os) = suc (count os)

-- As many places as the message has boxes, and `nbn` counts those that are taken.
pub record IsListener (l : BoxListener) : Type 0 where
  pub places : length l.boxs ≡ l.cnt
  pub counted : l.nbn ≡ count l.boxs

count-le : (os : List (Option NetBox)) → count os ≤ length os
count-le [] = omega arith
count-le (none ∷ os) = omega (arith, count-le os)
count-le (some b ∷ os) = omega (arith, count-le os)

pub count-set :
    (os : List (Option NetBox)) (i : ℕ) (b : NetBox)
    → get_elem? os i ≡ some none
    → (count (set os i (some b)) ≡ suc (count os)) × (count os < length os)
count-set [] i b h = cc
count-set (none ∷ os) zero b h = ground (arith, count-le os)
count-set (some c ∷ os) zero b h = cc
count-set (none ∷ os) (suc i) b h = ground (arith, count-set os i b h)
count-set (some c ∷ os) (suc i) b h = ground (arith, count-set os i b h)

abbrev pub empty_boxs : ℕ → List (Option NetBox)
empty_boxs n = replicate n none

pub count-replicate : (n : ℕ) → count (replicate n none) ≡ 0
count-replicate zero = refl
count-replicate (suc n) = count-replicate n

pub get_elem-replicate : (n i : ℕ) → i < n → get_elem? (empty_boxs n) i ≡ some none
get_elem-replicate zero i h = absurd (omega (arith, h))
get_elem-replicate (suc n) zero h = refl
get_elem-replicate (suc n) (suc i) h = get_elem-replicate n i (omega (arith, h))

take_box-IsListener : (b : NetBox) (l : BoxListener) → IsListener l → IfOk IsListener (take_box b l)
unfolding take_box
take_box-IsListener b l h =
    ground (arith, count-set l.boxs b.idx b, length-set l.boxs b.idx (some b))

new_listener-IsListener : (address : Bytes) (b : NetBox) → IfOk IsListener (new_listener address b)
unfolding new_listener
new_listener-IsListener address b = elim (Bool-cases (ltb b.idx b.cnt)) [
  | inl t ↦
      let os : List (Option NetBox) = replicate b.cnt none in
      let counts = count-set os b.idx b (get_elem-replicate b.cnt b.idx (ltb→lt b.idx b.cnt t)) in
      rw t (record {
        places = length-set os b.idx (some b) ∙ length-replicate b.cnt none;
        counted = sym (counts.0 ∙ ap suc (count-replicate b.cnt));
      })
  | inr t ↦ rw t tt
]

-- Whatever box comes, each listener of the server still has a place for each box of its message,
-- and `nbn` is the number of places that are taken, where the step does not run outside of `boxs`.
pub receive_box-IsListener :
    (address : Bytes) (b : NetBox) (ls : List BoxListener)
    → All IsListener ls
    → IfOk (All IsListener) (receive_box address b ls)
unfolding receive_box
receive_box-IsListener address b [] h =
    bind-IfOk IsListener (All IsListener) (new_listener address b) _
      (new_listener-IsListener address b) (λ l good. (good, tt))
receive_box-IsListener address b (l ∷ ls) h =
    let taken =
      bind-IfOk IsListener (All IsListener) (take_box b l) (λ m. ok (m ∷ ls))
        (take_box-IsListener b l h.0) (λ m good. (good, h.1)) in
    let made =
      bind-IfOk IsListener (All IsListener) (new_listener address b) (λ m. ok (m ∷ l ∷ ls))
        (new_listener-IsListener address b) (λ m good. (good, h)) in
    let passed =
      bind-IfOk (All IsListener) (All IsListener) (receive_box address b ls) (λ ms. ok (l ∷ ms))
        (receive_box-IsListener address b ls h.1) (λ ms good. (h.0, good)) in
    ground arith
