-- ===== src/Tcp/Marks.antt =====
-- The marks of the frames that `SendRAW` sends.
use net_cpp.Base.{
  ℕ, zero, suc, ◌+◌, ◌-◌, ◌≤◌, ◌≡◌, refl, subst, sym, Bool, false, List, [], ◌∷◌, ◌++◌, Bytes,
  codes, length, take, drop, append_assoc, length-take, length-drop, take-append, drop-append,
  Bool-cases, inl, inr, length-append, ltb, le→ltb_false, ◌==◌, if◌then◌else◌, arith,
}
use net_cpp.Outcome.{Outcome, ok, bind-eq-ok, ok_inj}
use net_cpp.Wire.{read}
use net_cpp.Tcp.{end_mark, is_got, on_answer, send_loop}
use net_cpp.Tcp.Frames.{payload, length-end_mark}

-- The mark of the first frame, or of another.
abbrev pub front_mark : Bool → Bytes
front_mark first = if first then codes "DSAT" else codes "DCST"

-- The frames of a message, or what is left of them: a last frame stands at the end.
abbrev pub IsFrames : Bool → List Bytes → Type 0
IsFrames first [] = Unit
IsFrames first (f ∷ fs) =
    (body : Bytes) × (b : Bool) × (f ≡ front_mark first ++ (body ++ end_mark b))
    × (b ≡ false → fs ≡ [])
    × IsFrames false fs

on_answer-ok {ℓ} :
    {A : Type ℓ} (answers : List Bytes) (k : List Bytes → Outcome A) (a : A)
    → on_answer answers k ≡ ok a
    → (more : List Bytes) × (k more ≡ ok a)
on_answer-ok [] k a e = cc
on_answer-ok (x ∷ more) k a e = elim (Bool-cases (is_got x)) [
  | inl got ↦ (more, rw got at e)
  | inr other ↦ cc (rw other at e)
]

module _ (msg : Bytes) where
  send_loop-past :
      (f idx : ℕ) (answers fs : List Bytes)
      → length msg ≤ idx
      → send_loop f msg idx answers ≡ ok fs
      → fs ≡ []
  unfolding send_loop
  send_loop-past zero idx answers fs past e = cc
  send_loop-past (suc f) idx answers fs past e =
      let off : ltb idx (length msg - 1) ≡ false =
        le→ltb_false idx (length msg - 1) (omega (arith, past)) in
      sym (ok_inj (rw off at e))

  pub send_loop-IsFrames :
      (f idx : ℕ) (answers fs : List Bytes)
      → send_loop f msg idx answers ≡ ok fs
      → IsFrames (idx == 0) fs
  unfolding send_loop
  send_loop-IsFrames zero idx answers fs e = cc
  send_loop-IsFrames (suc f) idx answers fs e = elim (Bool-cases (ltb idx (length msg - 1))) [
    | inr off ↦ subst (IsFrames (idx == 0)) (ok_inj (rw off at e)) tt
    | inl on ↦
        let goes_on = ltb (idx + 1000) (length msg - 1) in
        let nidx = if goes_on then idx + 1000 else length msg - 1 in
        let step : (nidx + 1 == 0) ≡ false = ground arith in
        let (body, e1, r1) = bind-eq-ok (read msg idx (nidx - idx + 1)) _ (rw on at e) in
        let (rest, e2, r2) = bind-eq-ok (on_answer answers (send_loop f msg (nidx + 1))) _ r1 in
        let (more, e3) = on_answer-ok answers (send_loop f msg (nidx + 1)) rest e2 in
        subst (IsFrames (idx == 0)) (ok_inj r2) (
          body,
          goes_on,
          refl,
          (λ stops. send_loop-past f (nidx + 1) more rest (ground (arith, stops)) e3),
          subst (λ first. IsFrames first rest) step (send_loop-IsFrames f (nidx + 1) more rest e3),
        )
  ]

abbrev pub Marked : Bytes → Bytes → ℕ → Bytes → Type 0
Marked front back n f = (take 4 f ≡ front) × (drop (length f - 4) f ≡ back) × (length f ≡ n + 8)

pub mark-ends :
    (f front body back : Bytes)
    → length front ≡ 4
    → length back ≡ 4
    → f ≡ front ++ (body ++ back)
    → Marked front back (length body) f
mark-ends f front body back hf hb is =
    let size : length (front ++ (body ++ back)) ≡ length body + 8 =
      omega (arith, length-append {0} front (body ++ back), length-append {0} body back, hf, hb) in
    let before : length (front ++ (body ++ back)) - 4 ≡ length (front ++ body) =
      omega (arith, size, length-append {0} front body, hf) in
    subst (Marked front back (length body)) (sym is) (
      rw hf at (take-append front (body ++ back)),
      rw (before, ← append_assoc front body back) (drop-append (front ++ body) back),
      size,
    )

pub length-front_mark : (first : Bool) → length (front_mark first) ≡ 4
length-front_mark first = ground arith

pub big_frame :
    (first goes : Bool) (f body : Bytes)
    → f ≡ front_mark first ++ (body ++ end_mark goes)
    → 8 ≤ length f
big_frame first goes f body is =
    let len =
      (mark-ends f (front_mark first) body (end_mark goes) (length-front_mark first)
        (length-end_mark goes) is).2 in
    omega (arith, len)

pub length-payload : (f : Bytes) → length (payload f) ≡ length f - 8
length-payload f = omega (arith, length-take (length f - 8) (drop 4 f), length-drop 4 f)
