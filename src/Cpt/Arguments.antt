-- ===== src/Cpt/Arguments.antt =====
-- Lists of parameters, written and read back.
use net_cpp.Base.{
  Bool, true, false, ℕ, suc, ◌+◌, ◌-◌, ◌^◌, ◌<◌, ◌≡◌, ◌≢◌, refl, ap, ◌∙◌, some, List, [], ◌∷◌, ◌++◌,
  Bytes, All, All-mono, All-append, length, length-append, append_assoc, append-nil, ℤ, pos, negsuc,
  leb, lt→ltb, Bool-cases, inl, inr, if◌then◌else◌, arith,
}
use net_cpp.Number.{skip_space, signed_digits, to_string, decimal, InRange}
use net_cpp.Number.RoundTrip.{
  IsDigit, decimal-All, length-to_string, signed_digits_pos, signed_digits_neg,
}
use net_cpp.Outcome.{ok}
use net_cpp.Settings.{find_char, substr, sub_size, contains, read_stn}
use net_cpp.Settings.Finding.{
  substr-between, substr-behind, sub_size-eq, some_inj, find_char-none, find_char-append,
  substr-append,
}
use net_cpp.Settings.Text.{first_key}
use net_cpp.Cpt.{
  CptFuncArgs, read_text, stream_value, stream_int, between, stn_keys, deal_brackets, deal_arg,
}

-- A parameter as it is written: `type` with its name behind it, or with a size in brackets between.
pub data Written : Type 0 where
  scalar : Bytes → Bytes → Written
  array : Bytes → ℤ → Bytes → Written

abbrev pub written_text : Written → Bytes
written_text (scalar type key) = type ++ key
written_text (array type size key) = type ++ (b'[' ∷ (to_string size ++ (b']' ∷ key)))

abbrev pub written_args : Written → CptFuncArgs
written_args (scalar type key) = record { type = type; size = pos 1; key = key }
written_args (array type size key) = record { type = type; size = size; key = key }

-- No bracket and no comma.
abbrev pub IsWord : Bytes → Type 0
IsWord s = All (λ c. (c ≢ b'[') × (c ≢ b']') × (c ≢ b',')) s

-- The size is an int, and the type of a scalar the first keyword that stands in its text.
abbrev pub IsWritten : Written → Type 0
IsWritten (scalar type key) =
    IsWord type × IsWord key × (first_key stn_keys (type ++ key) ≡ some type)
IsWritten (array type size key) = IsWord type × IsWord key × InRange (2 ^ 31) size

decimal-IsWord : (n : ℕ) → IsWord (decimal n)
decimal-IsWord n =
    All-mono IsDigit _ (λ c (d : IsDigit c). (ground arith, ground arith, ground arith)) (decimal n)
      (decimal-All n)

to_string-IsWord : (z : ℤ) → IsWord (to_string z)
unfolding to_string
to_string-IsWord (pos n) = decimal-IsWord n
to_string-IsWord (negsuc n) = ((omega arith, omega arith, omega arith), decimal-IsWord (suc n))

read_text-number :
    (old : ℤ) (s : Bytes) (minus : Bool) (n : ℕ)
    → signed_digits s ≡ ok (minus, n)
    → read_text old s ≡ stream_value (ok (minus, n))
unfolding read_text signed_digits
read_text-number old [] minus n e = cc
read_text-number old (c ∷ cs) minus n e = ap stream_value e

stream_int-to_string : (old z : ℤ) → InRange (2 ^ 31) z → stream_int old (to_string z) ≡ z
unfolding stream_int to_string
stream_int-to_string old (pos n) h =
    read_text-number old (skip_space (decimal n)) false n (signed_digits_pos n)
    ∙ rw (lt→ltb n (2 ^ 31) h)
stream_int-to_string old (negsuc n) h =
    read_text-number old (skip_space (b'-' ∷ decimal (suc n))) true (suc n)
      (signed_digits_neg (suc n))
    ∙ rw (lt→ltb n (2 ^ 31) h)

pub stream_int-decimal : (old : ℤ) (n : ℕ) → n < 2 ^ 31 → stream_int old (decimal n) ≡ pos n
unfolding to_string
stream_int-decimal old n h = stream_int-to_string old (pos n) h

read_stn-first_key :
    (keys : List Bytes) (type key : Bytes)
    → first_key keys (type ++ key) ≡ some type
    → (r : ℤ) × (read_stn keys (type ++ key) ≡ ok (record { key = type; value = key }, r))
unfolding read_stn
read_stn-first_key [] type key h = absurd (cc)
read_stn-first_key (k ∷ ks) type key h = elim (Bool-cases (contains k (type ++ key))) [
  | inl e ↦
      let same : k ≡ type = some_inj (rw e at h) in
      let size : length (type ++ key) - length type ≡ length key =
        omega (arith, length-append {0} type key) in
      let value : substr (type ++ key) (length type) (length key) ≡ ok key =
        rw append-nil at (substr-append type key [] (length type) (length key) refl refl) in
      (if leb (length type) 0 then negsuc 0 else pos 0, rw (e, same, size, value))
  | inr e ↦ rw e (read_stn-first_key ks type key (rw e at h))
]

between-append :
    (a b rest : Bytes) (c : ℕ) {j : ℕ}
    → length b < 2 ^ 64
    → j ≡ length a + 1 + length b
    → between (a ++ (c ∷ (b ++ rest))) (length a) j ≡ ok b
unfolding between
between-append a b rest c {j} h e =
    substr-between a b rest c (length a + 1) (sub_size j (length a + 1)) refl
      (sub_size-eq j (length a + 1) (length b) e h)

word-open : (s : Bytes) → IsWord s → All (λ c. c ≢ b'[') s
word-open s h = All-mono _ _ (λ c (e : (c ≢ b'[') × (c ≢ b']') × (c ≢ b',')). e.0) s h

word-close : (s : Bytes) → IsWord s → All (λ c. c ≢ b']') s
word-close s h = All-mono _ _ (λ c (e : (c ≢ b'[') × (c ≢ b']') × (c ≢ b',')). e.1) s h

word-sep : (s : Bytes) → IsWord s → All (λ c. c ≢ b',') s
word-sep s h = All-mono _ _ (λ c (e : (c ≢ b'[') × (c ≢ b']') × (c ≢ b',')). e.2) s h

deal_arg-scalar :
    (type key : Bytes)
    → IsWritten (scalar type key)
    → deal_arg (written_text (scalar type key)) ≡ ok (written_args (scalar type key))
unfolding deal_arg deal_brackets
deal_arg-scalar type key h =
    let word = All-append _ type key h.0 h.1 in
    let (r, e) = read_stn-first_key stn_keys type key h.2 in
    rw
      (
        find_char-none b'[' (type ++ key)
            (All-mono _ _ (λ c (e : (c ≢ b'[') × (c ≢ b']') × (c ≢ b',')). e.0) (type ++ key) word),
        find_char-none b']' (type ++ key)
            (All-mono _ _ (λ c (e : (c ≢ b'[') × (c ≢ b']') × (c ≢ b',')). e.1) (type ++ key) word),
      )
      (rw e)

deal_arg-array :
    (type : Bytes) (size : ℤ) (key : Bytes)
    → IsWritten (array type size key)
    → deal_arg (written_text (array type size key)) ≡ ok (written_args (array type size key))
unfolding deal_arg deal_brackets
deal_arg-array type size key h =
    let num = to_string size in
    let num_word = to_string-IsWord size in
    let front = type ++ (b'[' ∷ num) in
    let arg = written_text (array type size key) in
    let split : arg ≡ front ++ (b']' ∷ key) = simp append_assoc in
    let front_size : length front ≡ length type + 1 + length num =
      omega (arith, length-append {0} type (b'[' ∷ num)) in
    let total : length arg ≡ length front + 1 + length key =
      ap length split ∙ omega (arith, length-append {0} front (b']' ∷ key)) in
    let opens : find_char b'[' arg ≡ some (length type) =
      find_char-append b'[' type _ (word-open type h.0) in
    let no_close : All (λ c. c ≢ b']') front =
      All-append _ type (b'[' ∷ num) (word-close type h.0) (omega arith, word-close num num_word) in
    let closes : find_char b']' arg ≡ some (length front) =
      ap (find_char b']') split ∙ find_char-append b']' front key no_close in
    let sized : between arg (length type) (length front) ≡ ok num =
      between-append type num (b']' ∷ key) b'[' (length-to_string size h.2) front_size in
    let typed : substr arg 0 (length type) ≡ ok type =
      substr-append [] type (b'[' ∷ (num ++ (b']' ∷ key))) 0 (length type) refl refl in
    let keyed : substr arg (length front + 1) (length arg - length front - 1) ≡ ok key =
      ap (λ t. substr t (length front + 1) (length arg - length front - 1)) split
      ∙ substr-behind front key b']' _ _ refl (omega (arith, total)) in
    rw (opens, closes) (rw sized (rw typed (rw keyed (rw (stream_int-to_string (pos 1) size h.2)))))

pub deal_arg-written_text :
    (w : Written) → IsWritten w → deal_arg (written_text w) ≡ ok (written_args w)
deal_arg-written_text (scalar type key) h = deal_arg-scalar type key h
deal_arg-written_text (array type size key) h = deal_arg-array type size key h

-- The text of a parameter has no comma.
pub no_comma : (w : Written) → IsWritten w → All (λ c. c ≢ b',') (written_text w)
no_comma (scalar type key) h = word-sep (type ++ key) (All-append _ type key h.0 h.1)
no_comma (array type size key) h =
    let num = to_string size in
    All-append _ type _ (word-sep type h.0) (
      omega arith,
      All-append _ num (b']' ∷ key) (word-sep num (to_string-IsWord size))
          (omega arith, word-sep key h.1),
    )
