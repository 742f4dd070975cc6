-- ===== src/Number/RoundTrip.antt =====
-- What `to_string` prints is read back by `stoi` and `stoul`.
use net_cpp.Base.{
  ℕ, zero, suc, ◌+◌, ◌/◌, ◌%◌, ◌^◌, ◌<◌, ◌≤◌, ◌≡◌, ◌∙◌, ap, true, false, [], ◌∷◌, Bytes, All,
  length, ℤ, pos, negsuc, ltb, arith, Bool-cases, inl, inr, rem,
}
use net_cpp.Outcome.{ok}
use net_cpp.Number.{
  is_digit, decimal_onto, decimal, to_string, take_number, skip_space, digits_value, signed_digits,
  int_range, ulong_range, stoi, stoul, to_int16, to_int32, low_word, signed_word, InRange,
}

abbrev pub IsDigit : ℕ → Type 0
IsDigit c = is_digit c ≡ true

take_number-decimal_onto :
    (f n : ℕ) (out : Bytes) → n < f → take_number 0 (decimal_onto f n out) ≡ take_number n out
unfolding decimal_onto take_number
take_number-decimal_onto zero n out h = elim h [ ]
take_number-decimal_onto (suc f) n out h =
    ground (arith, take_number-decimal_onto f (n / 10) ((b'0' + n % 10) ∷ out))

pub take_number-decimal : (n : ℕ) → take_number 0 (decimal n) ≡ n
unfolding decimal take_number
take_number-decimal n = take_number-decimal_onto (suc n) n [] (omega arith)

decimal_onto-All :
    (f n : ℕ) (out : Bytes) → n < f → All IsDigit out → All IsDigit (decimal_onto f n out)
unfolding decimal_onto
decimal_onto-All zero n out h a = elim h [ ]
decimal_onto-All (suc f) n out h a =
    ground (arith, decimal_onto-All f (n / 10) ((b'0' + n % 10) ∷ out))

pub decimal-All : (n : ℕ) → All IsDigit (decimal n)
unfolding decimal
decimal-All n = decimal_onto-All (suc n) n [] (omega arith) tt

length-decimal_onto : (f n : ℕ) (out : Bytes) → length (decimal_onto f n out) ≤ f + length out
unfolding decimal_onto
length-decimal_onto zero n out = omega arith
length-decimal_onto (suc f) n out =
    ground (arith, length-decimal_onto f (n / 10) ((b'0' + n % 10) ∷ out))

pub length-to_string : (z : ℤ) → InRange (2 ^ 31) z → length (to_string z) < 2 ^ 64
unfolding to_string decimal
length-to_string (pos n) h = omega (arith, h, length-decimal_onto (suc n) n [])
length-to_string (negsuc n) h = omega (arith, h, length-decimal_onto (suc (suc n)) (suc n) [])

decimal_onto-cons :
    (f n : ℕ) (out : Bytes) → n < f → (c : ℕ) × (cs : Bytes) × (decimal_onto f n out ≡ c ∷ cs)
unfolding decimal_onto
decimal_onto-cons zero n out h = elim h [ ]
decimal_onto-cons (suc f) n out h = elim (Bool-cases (ltb n 10)) [
  | inl e ↦ (b'0' + n, out, rw e)
  | inr e ↦ rw e (decimal_onto-cons f (n / 10) ((b'0' + n % 10) ∷ out) (ground arith))
]

pub decimal-cons : (n : ℕ) → (c : ℕ) × (cs : Bytes) × (decimal n ≡ c ∷ cs)
unfolding decimal
decimal-cons n = decimal_onto-cons (suc n) n [] (omega arith)

pub signed_digits-decimal :
    (c : ℕ) (cs : Bytes)
    → IsDigit c
    → signed_digits (skip_space (c ∷ cs)) ≡ ok (false, take_number 0 (c ∷ cs))
unfolding signed_digits digits_value skip_space
signed_digits-decimal c cs h = ground arith

signed_digits-minus :
    (c : ℕ) (cs : Bytes)
    → IsDigit c
    → signed_digits (skip_space (b'-' ∷ c ∷ cs)) ≡ ok (true, take_number 0 (c ∷ cs))
unfolding signed_digits digits_value skip_space
signed_digits-minus c cs h = ground arith

pub signed_digits_pos : (n : ℕ) → signed_digits (skip_space (decimal n)) ≡ ok (false, n)
signed_digits_pos n =
    let (c, cs, e) = decimal-cons n in
    let d = decimal-All n in
    rw e (
      signed_digits-decimal c cs (rw e at d).0
      ∙ ap (λ v. ok (false, v)) (rw e at (take_number-decimal n)))

pub signed_digits_neg : (n : ℕ) → signed_digits (skip_space (b'-' ∷ decimal n)) ≡ ok (true, n)
signed_digits_neg n =
    let (c, cs, e) = decimal-cons n in
    let d = decimal-All n in
    rw e (
      signed_digits-minus c cs (rw e at d).0
      ∙ ap (λ v. ok (true, v)) (rw e at (take_number-decimal n)))

-- An int is read back from its decimal print.
pub stoi-to_string : (z : ℤ) → InRange (2 ^ 31) z → stoi (to_string z) ≡ ok z
unfolding stoi to_string int_range
stoi-to_string (pos n) h = rw (signed_digits_pos n) (ground arith)
stoi-to_string (negsuc n) h = rw (signed_digits_neg (suc n)) (ground arith)

pub stoul-decimal : (n : ℕ) → n < 2 ^ 64 → stoul (decimal n) ≡ ok n
unfolding stoul ulong_range
stoul-decimal n h = rw (signed_digits_pos n) (ground arith)

pub stoi-decimal : (n : ℕ) → n < 2 ^ 31 → stoi (decimal n) ≡ ok (pos n)
unfolding to_string
stoi-decimal n h = stoi-to_string (pos n) h

pub to_int16_id : (z : ℤ) → InRange (2 ^ 15) z → to_int16 z ≡ z
unfolding to_int16 low_word signed_word
to_int16_id (pos n) h = ground arith
to_int16_id (negsuc n) h = ground arith

pub to_int32_id : (z : ℤ) → InRange (2 ^ 31) z → to_int32 z ≡ z
unfolding to_int32 low_word signed_word
to_int32_id (pos n) h = ground arith
to_int32_id (negsuc n) h = ground arith

pub to_int16-InRange : (z : ℤ) → InRange (2 ^ 15) (to_int16 z)
unfolding to_int16 low_word signed_word
to_int16-InRange (pos n) = ground arith
to_int16-InRange (negsuc n) = ground arith

-- The `%= 65535` of the option checksum changes nothing: an int16_t is smaller than that.
pub rem_int16 : (z : ℤ) → InRange (2 ^ 15) z → rem z 65535 ≡ z
unfolding rem
rem_int16 (pos n) h = ground arith
rem_int16 (negsuc n) h = ground arith

pub InRange-mono : (a b : ℕ) (z : ℤ) → a ≤ b → InRange a z → InRange b z
InRange-mono a b (pos n) h r = omega arith
InRange-mono a b (negsuc n) h r = omega arith
