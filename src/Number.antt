-- ===== src/Number.antt =====
-- `std::to_string`, `std::stoi` and `std::stoul` on the integer types that the program uses, and
-- the conversions between the types.
pub mod RoundTrip
use net_cpp.Base.{
  ℕ, zero, suc, ◌+◌, ◌-◌, ◌*◌, ◌/◌, ◌%◌, ◌^◌, ◌<◌, ◌≡◌, refl, Bool, true, false, ◌&&◌, ◌||◌, List,
  [], ◌∷◌, Bytes, ℤ, pos, negsuc, ltb, leb, ◌==◌, if◌then◌else◌,
}
use net_cpp.Outcome.{Outcome, ok, throws, invalid_argument, out_of_range, ◌>>=◌}

abbrev pub is_digit : ℕ → Bool
is_digit c = leb b'0' c && leb c b'9'

-- `isspace` in the C locale.
abbrev pub is_space : ℕ → Bool
is_space c = c == 32 || (leb 9 c && leb c 13)

decimal_onto : ℕ → ℕ → Bytes → Bytes
decimal_onto zero n out = out
decimal_onto (suc f) n out =
    let more = decimal_onto f (n / 10) ((b'0' + n % 10) ∷ out) in
    if ltb n 10 then (b'0' + n) ∷ out else more

-- The decimal digits of n: n + 1 rounds are enough.
unfoldable pub decimal : ℕ → Bytes
unfolding decimal_onto
decimal n = decimal_onto (suc n) n []

-- `std::to_string` of a signed integer.
unfoldable pub to_string : ℤ → Bytes
unfolding decimal
to_string (pos n) = decimal n
to_string (negsuc n) = b'-' ∷ decimal (suc n)

-- The number that the leading digits stand for, after the digits that gave v.
unfoldable pub take_number : ℕ → Bytes → ℕ
take_number v [] = v
take_number v (c ∷ cs) = if is_digit c then take_number (v * 10 + (c - b'0')) cs else v

unfoldable pub skip_space : Bytes → Bytes
skip_space [] = []
skip_space (c ∷ cs) = if is_space c then skip_space cs else c ∷ cs

-- At least one digit must follow the sign.
digits_value : Bytes → Outcome ℕ
digits_value [] = throws invalid_argument
digits_value (c ∷ cs) = if is_digit c then ok (take_number 0 (c ∷ cs)) else throws invalid_argument

-- An optional sign, then digits: the flag says that the sign is minus.
unfoldable pub signed_digits : Bytes → Outcome (Bool × ℕ)
unfolding digits_value
signed_digits [] = throws invalid_argument
signed_digits (c ∷ cs) =
    if c == b'-'
    then (do v ← digits_value cs; ok (true, v))
    else if c == b'+'
    then (do v ← digits_value cs; ok (false, v))
    else (do v ← digits_value (c ∷ cs); ok (false, v))

unfoldable pub int_range : Bool → ℕ → Outcome ℤ
int_range true zero = ok (pos 0)
int_range true (suc n) = if ltb n (2 ^ 31) then ok (negsuc n) else throws out_of_range
int_range false v = if ltb v (2 ^ 31) then ok (pos v) else throws out_of_range

-- `std::stoi`
unfoldable pub stoi : Bytes → Outcome ℤ
unfolding skip_space signed_digits int_range take_number
stoi s = do (minus, v) ← signed_digits (skip_space s); int_range minus v

ulong_range : Bool → ℕ → Outcome ℕ
ulong_range minus v =
    if ltb v (2 ^ 64) then ok (if minus then (2 ^ 64 - v) % 2 ^ 64 else v) else throws out_of_range

-- `std::stoul`, where unsigned long has 64 bits. A minus sign negates modulo 2^64.
unfoldable pub stoul : Bytes → Outcome ℕ
unfolding skip_space signed_digits ulong_range take_number
stoul s = do (minus, v) ← signed_digits (skip_space s); ulong_range minus v

-- The value modulo 2^w, and the signed integer that a pattern of w bits stands for.
unfoldable pub low_word : ℕ → ℤ → ℕ
low_word m (pos n) = n % m
low_word m (negsuc n) = m - 1 - n % m

signed_word : ℕ → ℕ → ℤ
signed_word m w = if ltb w (m / 2) then pos w else negsuc (m - 1 - w)

-- The conversion to int16_t.
unfoldable pub to_int16 : ℤ → ℤ
unfolding low_word signed_word
to_int16 z = signed_word (2 ^ 16) (low_word (2 ^ 16) z)

-- The conversion to int32_t.
unfoldable pub to_int32 : ℤ → ℤ
unfolding low_word signed_word
to_int32 z = signed_word (2 ^ 32) (low_word (2 ^ 32) z)

-- A char as an int: plain char is signed on the platforms that the program is built for.
unfoldable pub signed_char : ℕ → ℤ
signed_char c = if ltb c 128 then pos c else negsuc (255 - c)

-- From -b to b - 1.
abbrev pub InRange : ℕ → ℤ → Type 0
InRange b (pos n) = n < b
InRange b (negsuc n) = n < b
