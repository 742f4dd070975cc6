-- ===== src/Factory/Checksum.antt =====
-- Laws of the option checksum.
use net_cpp.Base.{
  ℕ, ◌+◌, ◌-◌, ◌^◌, ◌<◌, ◌≤◌, ◌≡◌, [], ◌∷◌, ◌++◌, Bytes, ℤ, pos, ◌+ℤ◌, sub_ℕ, length, length-append,
  leb, arith, Bool-cases, inl, inr,
}
use net_cpp.Number.{to_int16, to_int32, signed_char, InRange}
use net_cpp.Number.RoundTrip.{to_int16-InRange, rem_int16, to_int32_id}
use net_cpp.Outcome.{ok}
use net_cpp.Factory.Hash.{hash_step, hash_loop, calculate_options_hash}

-- The `%= 65535` has no effect: the checksum is the sum of the signed chars modulo 2^16.
pub hash_step_lem : (h : ℤ) (c : ℕ) → hash_step h c ≡ to_int16 (h +ℤ signed_char c)
unfolding hash_step
hash_step_lem h c =
    rem_int16 (to_int16 (h +ℤ signed_char c)) (to_int16-InRange (h +ℤ signed_char c))

pub hash_step-InRange : (h : ℤ) (c : ℕ) → InRange (2 ^ 15) (hash_step h c)
hash_step-InRange h c = rw (hash_step_lem h c) (to_int16-InRange (h +ℤ signed_char c))

pub hash_loop-InRange :
    (e i : ℕ) (h : ℤ) (cs : Bytes) → InRange (2 ^ 15) h → InRange (2 ^ 15) (hash_loop e i h cs)
unfolding hash_loop
hash_loop-InRange e i h [] r = r
hash_loop-InRange e i h (c ∷ cs) r = elim (Bool-cases (leb e i)) [
  | inl t ↦ rw t (hash_step-InRange h c)
  | inr t ↦ rw t (hash_loop-InRange e (i + 1) (hash_step h c) cs (hash_step-InRange h c))
]

-- Bytes behind the end index do not count.
pub hash_loop-append :
    (e i : ℕ) (h : ℤ) (xs ys : Bytes)
    → i ≤ e
    → i + length xs ≡ e + 1
    → hash_loop e i h (xs ++ ys) ≡ hash_loop e i h xs
unfolding hash_loop
hash_loop-append e i h [] ys le n = absurd (omega arith)
hash_loop-append e i h (x ∷ xs) ys le n = elim (Bool-cases (leb e i)) [
  | inl t ↦ rw t
  | inr t ↦ rw t (hash_loop-append e (i + 1) (hash_step h x) xs ys (ground arith) (omega arith))
]

-- The checksum of all of xs.
abbrev pub checksum : Bytes → ℤ
checksum xs = hash_loop (length xs - 1) 0 (pos 0) xs

-- `calculate_options_hash(raw, n - 1)` for n at least 1: the checksum of the first n bytes.
pub calculate_options_hash-append :
    (xs ys : Bytes) (n : ℕ)
    → n ≡ length xs
    → 0 < n
    → n < 2 ^ 31
    → calculate_options_hash (xs ++ ys) (to_int32 (sub_ℕ n 1)) ≡ ok (checksum xs)
unfolding calculate_options_hash
calculate_options_hash-append xs ys n e p h =
    let range : sub_ℕ n 1 ≡ pos (length xs - 1) = ground arith in
    rw (range, to_int32_id (pos (length xs - 1)) (omega arith))
      (ground (
        arith,
        length-append {0} xs ys,
        hash_loop-append (length xs - 1) 0 (pos 0) xs ys (omega arith) (omega arith),
      ))
