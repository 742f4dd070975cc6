-- ===== src/Instruct/Address.antt =====
-- `checkValidIP` of src/addr.cpp: an address as four numbers with dots between.
use net_cpp.Base.{
  ℕ, ◌≤◌, ◌≡◌, Bool, false, ◌&&◌, [], ◌∷◌, ◌++◌, Bytes, string_eq, ℤ, pos, negsuc, leb, ◌==◌,
  if◌then◌else◌,
}
use net_cpp.Outcome.{Outcome, ok, reject, throws, fault, ◌>>=◌}
use net_cpp.Number.{is_digit, to_string, skip_space, signed_digits, int_range}
use net_cpp.Factory.Decode.{c_str}

-- What "%d" of `sscanf` leaves behind an optional sign and digits.
unfoldable pub after_digits : Bytes → Bytes
after_digits [] = []
after_digits (c ∷ cs) = if is_digit c then after_digits cs else c ∷ cs

unfoldable pub after_sign : Bytes → Bytes
after_sign [] = []
after_sign (c ∷ cs) = if c == b'-' then cs else if c == b'+' then cs else c ∷ cs

-- A number that no int holds is undefined.
unfoldable pub scanned : Outcome (Bool × ℕ) → Bytes → Outcome (ℤ × Bytes)
unfolding int_range
scanned (ok (minus, n)) rest = elim (int_range minus n) [
  | ok z ↦ ok (z, rest)
  | reject ↦ fault
  | throws e ↦ fault
  | fault ↦ fault
]
scanned _ rest = reject

-- "%d" of `sscanf`: the int and what stands behind it, or no match.
unfoldable pub scan_int : Bytes → Outcome (ℤ × Bytes)
unfolding scanned skip_space signed_digits after_digits after_sign
scan_int s = let t = skip_space s in scanned (signed_digits t) (after_digits (after_sign t))

-- "." of `sscanf`
unfoldable pub scan_dot : Bytes → Outcome Bytes
scan_dot [] = reject
scan_dot (c ∷ cs) = if c == b'.' then ok cs else reject

unfoldable pub scan_address : Bytes → Outcome (ℤ × ℤ × ℤ × ℤ)
unfolding scan_int scan_dot
scan_address s = do
  (a, s) ← scan_int s
  s ← scan_dot s
  (b, s) ← scan_int s
  s ← scan_dot s
  (c, s) ← scan_int s
  s ← scan_dot s
  (d, s) ← scan_int s
  ok (a, b, c, d)

abbrev pub in_byte : ℤ → Bool
in_byte (pos n) = leb n 255
in_byte (negsuc n) = false

-- `sprintf(temp, "%d.%d.%d.%d", ...)`
unfoldable pub dotted : ℤ × ℤ × ℤ × ℤ → Bytes
unfolding to_string
dotted (a, b, c, d) =
    to_string a ++ (b'.' ∷ (to_string b ++ (b'.' ∷ (to_string c ++ (b'.' ∷ to_string d)))))

unfoldable pub is_address : Outcome (ℤ × ℤ × ℤ × ℤ) → Bytes → Outcome Bool
unfolding dotted string_eq
is_address (ok (a, b, c, d)) s =
    ok (in_byte a && in_byte b && in_byte c && in_byte d && string_eq (dotted (a, b, c, d)) s)
is_address reject s = ok false
is_address (throws e) s = throws e
is_address fault s = fault

-- `Addr::checkValidIP`
unfoldable pub check_valid_ip : Bytes → Outcome Bool
unfolding c_str scan_address is_address
check_valid_ip ipaddr = is_address (scan_address (c_str ipaddr)) (c_str ipaddr)

-- Four bytes in decimal with dots between.
abbrev pub IsDotted : Bytes → Type 0
IsDotted s =
    (a b c d : ℕ) × (a ≤ 255)
    × (b ≤ 255)
    × (c ≤ 255)
    × (d ≤ 255)
    × (s ≡ dotted (pos a, pos b, pos c, pos d))
