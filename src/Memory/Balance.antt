-- ===== src/Memory/Balance.antt =====
-- A block that is taken n times more and given back n + 1 times.
use net_cpp.Base.{
  ℕ, zero, suc, ◌+◌, ◌-◌, ◌%◌, ◌^◌, ◌<◌, ◌≡◌, refl, sym, ap, ◌∙◌, false, Option, none, some, List,
  [], ◌∷◌, ◌++◌, pos, ◌+ℤ◌, eqb_ℤ, ==_refl, arith,
}
use net_cpp.Outcome.{Outcome, ok, fault, ◌>>=◌}
use net_cpp.Memory.{BlocksPool, find, update, erase, insert, b_malloc, b_get, b_free}
use net_cpp.Memory.Counting.{Fresh, Fresh-find}

-- n calls of `b_get`.
abbrev pub get_times : ℕ → ℕ → BlocksPool → Outcome BlocksPool
get_times zero ptr p = ok p
get_times (suc n) ptr p = b_get ptr p >>= λ (q, a). get_times n ptr q

-- The addresses that one call gives to `free`.
abbrev pub freed : Option ℕ → List ℕ
freed none = []
freed (some a) = a ∷ []

-- n calls of `b_free`, and the addresses that they give to `free`.
abbrev pub free_times : ℕ → ℕ → BlocksPool → Outcome (BlocksPool × List ℕ)
free_times zero ptr p = ok (p, [])
free_times (suc n) ptr p =
    b_free ptr p >>= λ (q, a). free_times n ptr q >>= λ (r, more). ok (r, freed a ++ more)

module _ (ptr size : ℕ) (p : BlocksPool) where
  -- The pool with a block that is held k + 1 times.
  abbrev held : ℕ → BlocksPool
  held k =
      record {
        ptr = ptr;
        block = record { size = size; lock = pos (suc k); pted = false; pvle = ptr };
      }
      ∷ p

  b_get-held : (k : ℕ) → k + 2 < 2 ^ 31 → b_get ptr (held k) ≡ ok (held (suc k), some ptr)
  unfolding b_get find update ◌+ℤ◌ eqb_ℤ
  b_get-held k h = ground (arith, ==_refl ptr)

  b_get-full : b_get ptr (held (2 ^ 31 - 2)) ≡ fault
  unfolding b_get find eqb_ℤ
  b_get-full = ground (arith, ==_refl ptr)

  b_free-held : (k : ℕ) → b_free ptr (held (suc k)) ≡ ok (held k, none)
  unfolding b_free find update ◌+ℤ◌ eqb_ℤ
  b_free-held k = ground (arith, ==_refl ptr)

  b_free-last : b_free ptr (held 0) ≡ ok (p, some ptr)
  unfolding b_free find erase ◌+ℤ◌ eqb_ℤ
  b_free-last = ground (arith, ==_refl ptr)

  get_times-held : (n k : ℕ) → n + k + 1 < 2 ^ 31 → get_times n ptr (held k) ≡ ok (held (n + k))
  get_times-held zero k h = ap (λ j. ok (held j)) (omega arith)
  get_times-held (suc n) k h =
      let e : n + suc k ≡ suc n + k = omega arith in
      rw (b_get-held k (omega (arith, h)))
        (get_times-held n (suc k) (omega (arith, h)) ∙ ap (λ j. ok (held j)) e)

  free_times-held : (n : ℕ) → free_times (suc n) ptr (held n) ≡ ok (p, ptr ∷ [])
  free_times-held zero = rw b_free-last
  free_times-held (suc n) = rw (b_free-held n, free_times-held n) refl

  free_times-early : (n k : ℕ) → free_times n ptr (held (n + k)) ≡ ok (held k, [])
  free_times-early zero k = ap (λ (j : ℕ). ok (held j, [])) (omega arith)
  free_times-early (suc n) k =
      let e : suc n + k ≡ suc (n + k) = omega arith in
      rw (e, b_free-held (n + k), free_times-early n k) refl

-- A block that comes from `b_malloc` at an address that was not in the pool can be taken n times
-- more by `b_get`, if its count n + 1 is an int. It then lives through n calls of `b_free`, which
-- give no address to `free`; one more gives its address to `free`, once, and leaves the pool as it
-- was before.
pub free_times-get_times :
    (ptr size n : ℕ) (p : BlocksPool)
    → Fresh ptr p
    → n + 1 < 2 ^ 31
    → (q r : BlocksPool) × (get_times n ptr (b_malloc (some ptr) size p).0 ≡ ok q)
      × (free_times n ptr q ≡ ok (r, []))
      × (free_times (suc n) ptr q ≡ ok (p, ptr ∷ []))
unfolding b_malloc insert
free_times-get_times ptr size n p fresh fits =
    let s = size % 2 ^ 32 in
    let start : (b_malloc (some ptr) size p).0 ≡ held ptr s p 0 =
      rw (Fresh-find ptr p fresh, insert) in
    let same : n + 0 ≡ n = omega arith in
    (
      held ptr s p n,
      held ptr s p 0,
      ap (get_times n ptr) start
          ∙ get_times-held ptr s p n 0 (omega (arith, fits))
          ∙ ap (λ j. ok (held ptr s p j)) same,
      ap (λ j. free_times n ptr (held ptr s p j)) (sym same) ∙ free_times-early ptr s p n 0,
      free_times-held ptr s p n,
    )
