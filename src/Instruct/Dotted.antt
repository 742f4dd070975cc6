-- ===== src/Instruct/Dotted.antt =====
-- The addresses that `checkValidIP` accepts.
use net_cpp.Base.{
  ℕ, ◌+◌, ◌*◌, ◌-◌, ◌≤◌, ◌<◌, ◌^◌, ◌≡◌, ◌↔◌, refl, sym, ap, subst, append-nil, ◌∙◌, Bool, true,
  false, ◌&&◌, [], ◌∷◌, ◌++◌, Bytes, string_eq_iff, All, ℤ, pos, negsuc, lt→ltb, arith,
}
use net_cpp.Outcome.{Outcome, ok, reject, throws, fault, ok_inj}
use net_cpp.Number.{is_digit, decimal, to_string, take_number, skip_space, int_range}
use net_cpp.Number.RoundTrip.{
  IsDigit, decimal-All, decimal-cons, take_number-decimal, signed_digits-decimal,
}
use net_cpp.Factory.Decode.{c_str}
use net_cpp.Instruct.Address.{
  after_digits, after_sign, scanned, scan_int, scan_dot, scan_address, in_byte, dotted, is_address,
  check_valid_ip, IsDotted,
}

-- No digit is first.
abbrev Stops : Bytes → Type 0
Stops [] = Unit
Stops (c ∷ cs) = is_digit c ≡ false

take_number-Stops :
    (ds rest : Bytes) (v : ℕ)
    → All IsDigit ds
    → Stops rest
    → take_number v (ds ++ rest) ≡ take_number v ds
unfolding take_number
take_number-Stops [] [] v h s = refl
take_number-Stops [] (c ∷ cs) v h s = rw s refl
take_number-Stops (d ∷ ds) rest v h s =
    rw h.0 (take_number-Stops ds rest (v * 10 + (d - b'0')) h.1 s)

after_digits-Stops :
    (ds rest : Bytes) → All IsDigit ds → Stops rest → after_digits (ds ++ rest) ≡ rest
unfolding after_digits
after_digits-Stops [] [] h s = refl
after_digits-Stops [] (c ∷ cs) h s = rw s refl
after_digits-Stops (d ∷ ds) rest h s = rw h.0 (after_digits-Stops ds rest h.1 s)

digit-first :
    (c : ℕ) (cs : Bytes)
    → IsDigit c
    → (skip_space (c ∷ cs) ≡ c ∷ cs) × (after_sign (c ∷ cs) ≡ c ∷ cs)
unfolding skip_space after_sign
digit-first c cs h = (ground arith, ground arith)

pub skip_space-decimal : (n : ℕ) → (c : ℕ) × (cs : Bytes) × (skip_space (decimal n) ≡ c ∷ cs)
skip_space-decimal n =
    let (c, cs, e) = decimal-cons n in
    (c, cs, ap skip_space e ∙ (digit-first c cs (rw e at (decimal-All n)).0).0)

scan_int-digits :
    (c : ℕ) (cs rest : Bytes)
    → All IsDigit (c ∷ cs)
    → Stops rest
    → scan_int ((c ∷ cs) ++ rest) ≡ scanned (ok (false, take_number 0 (c ∷ cs))) rest
unfolding scan_int after_digits
scan_int-digits c cs rest h s =
    let (same, kept) = digit-first c (cs ++ rest) h.0 in
    rw (signed_digits-decimal c (cs ++ rest) h.0) (
      ap (λ v. scanned (ok (false, v)) (after_digits (after_sign (skip_space (c ∷ (cs ++ rest))))))
        (take_number-Stops (c ∷ cs) rest 0 h s)
      ∙ ap (scanned (ok (false, take_number 0 (c ∷ cs))))
          (ap after_digits (ap after_sign same ∙ kept) ∙ after_digits-Stops (c ∷ cs) rest h s))

scanned-small :
    (n : ℕ) (rest : Bytes) → n < 2 ^ 31 → scanned (ok (false, n)) rest ≡ ok (pos n, rest)
unfolding scanned int_range
scanned-small n rest h = rw (scanned, int_range, lt→ltb n (2 ^ 31) h) refl

scan_int-decimal :
    (n : ℕ) (rest : Bytes)
    → n < 2 ^ 31
    → Stops rest
    → scan_int (decimal n ++ rest) ≡ ok (pos n, rest)
scan_int-decimal n rest small s =
    let (c, cs, e) = decimal-cons n in
    let d = decimal-All n in
    let value = take_number-decimal n in
    rw e (scan_int-digits c cs rest (rw e at d) s ∙ rw (rw e at value) (scanned-small n rest small))

scan_int-last : (n : ℕ) → n < 2 ^ 31 → scan_int (decimal n) ≡ ok (pos n, [])
scan_int-last n h = rw (append-nil (decimal n)) at (scan_int-decimal n [] h tt)

scan_address-dotted :
    (a b c d : ℕ)
    → a ≤ 255
    → b ≤ 255
    → c ≤ 255
    → d ≤ 255
    → scan_address (dotted (pos a, pos b, pos c, pos d)) ≡ ok (pos a, pos b, pos c, pos d)
unfolding scan_address dotted to_string scan_dot
scan_address-dotted a b c d ha hb hc hd =
    let two = decimal c ++ (b'.' ∷ decimal d) in
    let three = decimal b ++ (b'.' ∷ two) in
    rw
      (
        scan_int-decimal a (b'.' ∷ three) (omega (arith, ha)) refl,
        scan_int-decimal b (b'.' ∷ two) (omega (arith, hb)) refl,
        scan_int-decimal c (b'.' ∷ decimal d) (omega (arith, hc)) refl,
        scan_int-last d (omega (arith, hd)),
      )
      refl

byte_of : (z : ℤ) → in_byte z ≡ true → (n : ℕ) × (z ≡ pos n) × (n ≤ 255)
byte_of (pos n) h = (n, refl, ground (arith, h))
byte_of (negsuc n) h = cc

all_true :
    (p q r s t : Bool)
    → (p && q && r && s && t) ≡ true
    → (p ≡ true) × (q ≡ true) × (r ≡ true) × (s ≡ true) × (t ≡ true)
all_true p q r s t h = (ground arith, ground arith, ground arith, ground arith, ground arith)

dotted-bytes :
    (n m k l : ℕ) {a b c d : ℤ}
    → a ≡ pos n
    → b ≡ pos m
    → c ≡ pos k
    → d ≡ pos l
    → dotted (a, b, c, d) ≡ dotted (pos n, pos m, pos k, pos l)
dotted-bytes n m k l p q r s = cc

-- A test that succeeds has found four bytes.
is_address-IsDotted :
    (r : Outcome (ℤ × ℤ × ℤ × ℤ)) (s : Bytes) → is_address r s ≡ ok true → IsDotted s
unfolding is_address
is_address-IsDotted (ok (a, b, c, d)) s e =
    let (a1, b1, c1, d1, same) = all_true _ _ _ _ _ (ok_inj e) in
    let (n, an, ha) = byte_of a a1 in
    let (m, bm, hb) = byte_of b b1 in
    let (k, ck, hc) = byte_of c c1 in
    let (l, dl, hd) = byte_of d d1 in
    (
      n,
      m,
      k,
      l,
      ha,
      hb,
      hc,
      hd,
      sym ((string_eq_iff (dotted (a, b, c, d)) s).0 same) ∙ dotted-bytes n m k l an bm ck dl,
    )
is_address-IsDotted reject s e = cc
is_address-IsDotted (throws x) s e = cc
is_address-IsDotted fault s e = cc

is_address-dotted :
    (a b c d : ℕ)
    → a ≤ 255
    → b ≤ 255
    → c ≤ 255
    → d ≤ 255
    → let s = dotted (pos a, pos b, pos c, pos d) in is_address (scan_address s) s ≡ ok true
unfolding is_address
is_address-dotted a b c d ha hb hc hd =
    let s = dotted (pos a, pos b, pos c, pos d) in
    rw (scan_address-dotted a b c d ha hb hc hd)
      (rw ((string_eq_iff s s).1 refl) (ground (arith, ha, hb, hc, hd)))

-- `checkValidIP` accepts exactly the texts, up to a NUL, that are four numbers of at most 255 in
-- decimal without leading zeros, with dots between.
pub check_valid_ip_iff :
    (ipaddr : Bytes) → (check_valid_ip ipaddr ≡ ok true) ↔ IsDotted (c_str ipaddr)
unfolding check_valid_ip
check_valid_ip_iff ipaddr = (
  is_address-IsDotted (scan_address (c_str ipaddr)) (c_str ipaddr),
  λ (a, b, c, d, ha, hb, hc, hd, e).
      subst (λ s. is_address (scan_address s) s ≡ ok true) (sym e)
        (is_address-dotted a b c d ha hb hc hd),
)
