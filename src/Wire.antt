-- ===== src/Wire.antt =====
-- What src/server.cpp sends over UDP: memory blocks as bytes, written and read with memcpy.
-- Integers are little-endian, as on the machines that the program is built for.
pub mod Packet
pub mod Signed
pub mod Box
pub mod Split
pub mod Listener
pub mod Deamon
pub mod Arrival
pub mod Request
pub mod Batch
pub mod Queues
pub mod Post
use net_cpp.Base.{
  ℕ, zero, suc, ◌+◌, ◌*◌, ◌/◌, ◌%◌, ◌^◌, ◌<◌, ◌≤◌, ◌≡◌, refl, ap, sym, ◌∙◌, [], ◌∷◌, ◌++◌, Bytes,
  length, take, drop, take-append, length-append, leb, le→leb, if◌then◌else◌, arith,
}
use net_cpp.Outcome.{Outcome, ok, fault, ◌>>=◌, At}

-- The k bytes of an integer.
unfoldable pub to_le : ℕ → ℕ → Bytes
to_le zero n = []
to_le (suc k) n = n % 256 ∷ to_le k (n / 256)

unfoldable pub from_le : Bytes → ℕ
from_le [] = 0
from_le (c ∷ cs) = c + 256 * from_le cs

pub length-to_le : (k n : ℕ) → length (to_le k n) ≡ k
unfolding to_le
length-to_le zero n = refl
length-to_le (suc k) n = ap suc (length-to_le k (n / 256))

pub from_le-to_le : (k n : ℕ) → n < 256 ^ k → from_le (to_le k n) ≡ n
unfolding to_le from_le
from_le-to_le zero n h = omega (arith, h)
from_le-to_le (suc k) n h = omega (arith, from_le-to_le k (n / 256) (omega (arith, h)))

-- `memcpy(out, idx, n)`: n bytes from the index i on.
unfoldable pub read : Bytes → ℕ → ℕ → Outcome Bytes
read raw i n = if leb (i + n) (length raw) then ok (take n (drop i raw)) else fault

-- The same into an integer of n bytes.
unfoldable pub read_le : Bytes → ℕ → ℕ → Outcome ℕ
unfolding read from_le
read_le raw i n = do b ← read raw i n; ok (from_le b)

pub read-At :
    (raw : Bytes) (i n : ℕ) (s rest : Bytes)
    → At raw i (s ++ rest)
    → length s ≡ n
    → read raw i n ≡ ok s
unfolding read
read-At raw i n s rest a e =
    let inside : i + n ≤ length raw = omega (arith, a.count, length-append {0} s rest, e) in
    rw (le→leb (i + n) (length raw) inside, a.here, ← e, take-append s rest)

pub read_le-At :
    (raw : Bytes) (i k n : ℕ) (rest : Bytes)
    → At raw i (to_le k n ++ rest)
    → n < 256 ^ k
    → read_le raw i k ≡ ok n
unfolding read_le
read_le-At raw i k n rest a h =
    rw (read-At raw i k (to_le k n) rest a (length-to_le k n), from_le-to_le k n h)
