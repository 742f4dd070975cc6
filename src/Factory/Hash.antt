-- ===== src/Factory/Hash.antt =====
-- `calculate_options_hash`: the sum of the chars up to an index, as an int16_t.
use net_cpp.Base.{
  ℕ, ◌+◌, [], ◌∷◌, Bytes, ℤ, pos, negsuc, ◌+ℤ◌, rem, ltb, leb, length, if◌then◌else◌,
}
use net_cpp.Number.{to_int16, signed_char}
use net_cpp.Outcome.{Outcome, ok, throws, runtime_error}

-- `sum_hash += static_cast<int16_t>(c); sum_hash %= 65535;`
unfoldable pub hash_step : ℤ → ℕ → ℤ
hash_step h c = rem (to_int16 (h +ℤ signed_char c)) 65535

-- The loop: `if (index++ >= end_index) break;` comes after the sum.
unfoldable pub hash_loop : ℕ → ℕ → ℤ → Bytes → ℤ
hash_loop end_index index h [] = h
hash_loop end_index index h (c ∷ cs) =
    let rest = hash_loop end_index (index + 1) (hash_step h c) cs in
    if leb end_index index then hash_step h c else rest

-- A negative end index is a huge number where it is compared to the size.
unfoldable pub calculate_options_hash : Bytes → ℤ → Outcome ℤ
unfolding hash_loop
calculate_options_hash raw (negsuc n) = throws runtime_error
calculate_options_hash raw (pos end_index) =
    if ltb (length raw) end_index
    then throws runtime_error
    else ok (hash_loop end_index 0 (pos 0) raw)
