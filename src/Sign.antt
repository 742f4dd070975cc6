-- ===== src/Sign.antt =====
-- src/utils/sha256_generator.cpp: the digest of a message in hexadecimal, computed once. OpenSSL's
-- SHA-256 is a parameter.
use net_cpp.Base.{
  ℕ, ◌+◌, ◌-◌, ◌≢◌, ◌/◌, ◌%◌, ◌≡◌, refl, Bool, true, false, [], ◌∷◌, Bytes, All, ltb, if◌then◌else◌,
  arith,
}

hex_digit : ℕ → ℕ
hex_digit n = if ltb n 10 then b'0' + n else b'a' + n - 10

-- `sprintf("%02x")` of each byte.
unfoldable pub hex_bytes : Bytes → Bytes
unfolding hex_digit
hex_bytes [] = []
hex_bytes (c ∷ cs) = hex_digit (c / 16) ∷ hex_digit (c % 16) ∷ hex_bytes cs

-- `SHA256Generator`: the bytes that `raw_data` and `raw_data_size` point to, by value.
pub record Generator : Type 0 where
  pub if_generate : Bool
  pub raw_data : Bytes
  pub sha256_data : Bytes

abbrev pub new_generator : Generator
new_generator = record { if_generate = false; raw_data = []; sha256_data = [] }

-- `setRawData`
unfoldable pub set_raw_data : Bytes → Generator → Generator
set_raw_data d g = record g { raw_data = d; if_generate = false }

module _ (sha256 : Bytes → Bytes) where
  -- `generate`
  generate : Generator → Generator
  generate g = record g { sha256_data = hex_bytes (sha256 g.raw_data); if_generate = true }

  -- `getHex`
  unfoldable pub get_hex : Generator → Generator × Bytes
  unfolding generate
  get_hex g = if g.if_generate then (g, g.sha256_data) else (generate g, (generate g).sha256_data)

  -- The digest of the data set last, whatever the generator held before; a second call gives it
  -- again and changes nothing.
  pub get_hex-set_raw_data :
      (d : Bytes) (g : Generator)
      → let r = get_hex (set_raw_data d g) in (r.1 ≡ hex_bytes (sha256 d)) × (get_hex r.0 ≡ r)
  unfolding get_hex set_raw_data
  get_hex-set_raw_data d g = (refl, refl)

-- A text that can stand between quotes in an option line, and passes through a C string.
abbrev pub IsPlain : Bytes → Type 0
IsPlain s = All (λ c. (c ≢ b'"') × (c ≢ 0)) s

pub hex_bytes-IsPlain : (s : Bytes) → IsPlain (hex_bytes s)
unfolding hex_bytes
hex_bytes-IsPlain [] = tt
hex_bytes-IsPlain (c ∷ cs) =
    ((ground arith, ground arith), ((ground arith, ground arith), hex_bytes-IsPlain cs))
