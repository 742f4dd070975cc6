-- ===== src/Memory/Counting.antt =====
-- The count of a block: it lives as long as someone holds it.
use net_cpp.Base.{
  ℕ, suc, ◌+◌, ◌<◌, ◌^◌, ◌≡◌, ◌≢◌, refl, Option, none, some, [], ◌∷◌, All, pos, ==_ne,
}
use net_cpp.Outcome.{Outcome, ok, reject, throws, fault, ◌>>=◌}
use net_cpp.Memory.{
  int_max, BlockInfo, Entry, BlocksPool, find, b_malloc, b_get, b_free, b_protect, b_noprotect,
}

abbrev pub Fresh : ℕ → BlocksPool → Type 0
Fresh ptr es = All (λ (e : Entry). e.ptr ≢ ptr) es

-- A block is held at least once, and its count is an int.
abbrev IsHeld : BlockInfo → Type 0
IsHeld b = (n : ℕ) × (b.lock ≡ pos (suc n)) × (n + 1 < 2 ^ 31)

-- The addresses are distinct, and each block is held at least once.
abbrev pub IsPool : BlocksPool → Type 0
IsPool [] = Unit
IsPool (e ∷ es) = (Fresh e.ptr es × IsHeld e.block) × IsPool es

-- What a program does with the pool.
pub data PoolStep : Type 0 where
  mallocs : Option ℕ → ℕ → PoolStep
  gets protects unprotects frees : ℕ → PoolStep

abbrev pub pool_step : PoolStep → BlocksPool → Outcome BlocksPool
pool_step (mallocs got size) p = ok (b_malloc got size p).0
pool_step (gets ptr) p = b_get ptr p >>= λ (q, a). ok q
pool_step (protects ptr) p = b_protect ptr p
pool_step (unprotects ptr) p = b_noprotect ptr p
pool_step (frees ptr) p = b_free ptr p >>= λ (q, a). ok q

-- The allocator gives an address that is not in use.
abbrev pub IsFresh : PoolStep → BlocksPool → Type 0
IsFresh (mallocs (some ptr) size) p = Fresh ptr p
IsFresh _ p = Unit

-- The address is not one of the pool, where that is asked for.
abbrev IsUnknown : PoolStep → BlocksPool → Type 0
IsUnknown (protects ptr) p = find ptr p ≡ none
IsUnknown (unprotects ptr) p = find ptr p ≡ none
IsUnknown _ p = ⊥

-- The count of the block that is taken is the greatest int.
abbrev IsFull : PoolStep → BlocksPool → Type 0
IsFull (gets ptr) p = (b : BlockInfo) × (find ptr p ≡ some b) × (b.lock ≡ int_max)
IsFull _ p = ⊥

-- What is left is a pool, or the operation was called where it cannot be.
abbrev pub Keeps : PoolStep → BlocksPool → Outcome BlocksPool → Type 0
Keeps s p (ok q) = IsPool q
Keeps s p (throws x) = IsUnknown s p
Keeps s p fault = IsFull s p
Keeps s p reject = ⊥

pub Fresh-find : (a : ℕ) (p : BlocksPool) → Fresh a p → find a p ≡ none
unfolding find
Fresh-find a [] h = refl
Fresh-find a (e ∷ es) h = rw (==_ne e.ptr a h.0) (Fresh-find a es h.1)
