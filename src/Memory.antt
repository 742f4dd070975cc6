-- ===== src/Memory.antt =====
-- include/memory.h and include/memory_type.h: a pool of counted blocks. An address is a number; what
-- malloc gives, none for NULL, is an argument. The pool does not look into the blocks.
pub mod Counting
pub mod Balance
use net_cpp.Base.{
  ℕ, zero, suc, ◌+◌, ◌-◌, ◌^◌, ◌%◌, ◌≡◌, Bool, true, false, not, ◌&&◌, Option, none, some, List, [],
  ◌∷◌, ℤ, pos, negsuc, ◌+ℤ◌, eqb_ℤ, ◌==◌, ltb, if◌then◌else◌,
}
use net_cpp.Outcome.{Outcome, ok, throws, thrown_text, fault, ◌>>=◌}

-- `block_info`
pub record BlockInfo : Type 0 where
  pub size : ℕ
  pub lock : ℤ
  pub pted : Bool
  pub pvle : ℕ

-- An entry of the map `blocks_list`.
pub record Entry : Type 0 where
  pub ptr : ℕ
  pub block : BlockInfo

abbrev pub BlocksPool : Type 0
BlocksPool = List Entry

-- `blocks_list.find(ptr)`
unfoldable pub find : ℕ → BlocksPool → Option BlockInfo
find ptr [] = none
find ptr (e ∷ es) = if e.ptr == ptr then some e.block else find ptr es

-- `blk->second = f(blk->second)` for the entry found.
unfoldable pub update : ℕ → (BlockInfo → BlockInfo) → BlocksPool → BlocksPool
update ptr f [] = []
update ptr f (e ∷ es) =
    if e.ptr == ptr then record e { block = f e.block } ∷ es else e ∷ update ptr f es

-- `blocks_list.erase(blk)`
unfoldable pub erase : ℕ → BlocksPool → BlocksPool
erase ptr [] = []
erase ptr (e ∷ es) = if e.ptr == ptr then es else e ∷ erase ptr es

-- `blocks_list.insert(...)`: an entry that is there stays.
unfoldable pub insert : ℕ → BlockInfo → BlocksPool → BlocksPool
unfolding find
insert ptr b p = elim (find ptr p) [ none ↦ record { ptr = ptr; block = b } ∷ p | some old ↦ p ]

unfoldable pub b_malloc : Option ℕ → ℕ → BlocksPool → BlocksPool × Option ℕ
unfolding insert
b_malloc none size p = (p, none)
b_malloc (some ptr) size p = (
  insert ptr (record { size = size % 2 ^ 32; lock = pos 1; pted = false; pvle = ptr }) p,
  some ptr,
)

-- `bp_malloc`, and `bv_malloc` for the size of its type: the copy into a null pointer.
unfoldable pub bp_malloc : Option ℕ → ℕ → BlocksPool → Outcome (BlocksPool × ℕ)
unfolding b_malloc
bp_malloc got size p =
    let (q, ptr) = b_malloc got size p in elim ptr [ none ↦ fault | some a ↦ ok (q, a) ]

-- `size`: the end of the map is dereferenced for an unknown address.
unfoldable pub block_size : ℕ → BlocksPool → Outcome ℕ
unfolding find
block_size ptr p = elim (find ptr p) [ none ↦ fault | some b ↦ ok b.size ]

-- The greatest int: `lock++` on it is undefined.
abbrev pub int_max : ℤ
int_max = pos (2 ^ 31 - 1)

abbrev pub int_min : ℤ
int_min = negsuc (2 ^ 31 - 1)

-- `b_get`
unfoldable pub b_get : ℕ → BlocksPool → Outcome (BlocksPool × Option ℕ)
unfolding find update eqb_ℤ
b_get ptr p = elim (find ptr p) [
  | none ↦ ok (p, none)
  | some b ↦
      if eqb_ℤ b.lock int_max
      then fault
      else ok (update ptr (λ b. record b { lock = b.lock +ℤ pos 1 }) p, some ptr)
]

unfoldable pub b_protect : ℕ → BlocksPool → Outcome BlocksPool
unfolding find update
b_protect ptr p = elim (find ptr p) [
  | none ↦ throws thrown_text
  | some b ↦ ok (update ptr (λ b. record b { pted = true }) p)
]

unfoldable pub b_noprotect : ℕ → BlocksPool → Outcome BlocksPool
unfolding find update
b_noprotect ptr p = elim (find ptr p) [
  | none ↦ throws thrown_text
  | some b ↦ ok (update ptr (λ b. record b { pted = false }) p)
]

-- `b_free`, with the address that it gives to `free`: `lock--` on the least int is undefined.
unfoldable pub b_free : ℕ → BlocksPool → Outcome (BlocksPool × Option ℕ)
unfolding find update erase eqb_ℤ
b_free ptr p = elim (find ptr p) [
  | none ↦ ok (p, none)
  | some b ↦
      if b.pted
      then ok (p, none)
      else if eqb_ℤ b.lock int_min
      then fault
      else if eqb_ℤ (b.lock +ℤ negsuc 0) (pos 0)
      then ok (erase ptr p, some ptr)
      else ok (update ptr (λ b. record b { lock = b.lock +ℤ negsuc 0 }) p, none)
]
