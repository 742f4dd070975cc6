-- ===== src/Settings/Totality.antt =====
-- That the loops of `read_blocks` end.
use net_cpp.Base.{
  ℕ, zero, suc, ◌+◌, ◌-◌, ◌<◌, ◌≤◌, ◌≡◌, ◌≢◌, refl, subst, Option, none, some, List, [], ◌∷◌, Bytes,
  length, take, drop, length-take, length-drop, ℤ, pos, negsuc, ◌+ℤ◌, leb, if◌then◌else◌,
  Bool-cases, inl, inr, arith,
}
use net_cpp.Outcome.{Outcome, ok, reject, throws, thrown_text, fault, ◌>>=◌, bind_ext, ok_inj}
use net_cpp.Settings.{
  find_char, scan_block, substr, block_head, named_head, Found, finished, statement, block,
  next_setting, rest_from, Settings, after_setting, read_blocks, if_name_illegal, contains,
  found_block, found_setting, found_to,
}

-- A call that returns with the property or throws.
abbrev Safe : {A : Type 0} → (A → Type 0) → Outcome A → Type 0
Safe P (ok a) = P a
Safe P reject = ⊥
Safe P (throws e) = Unit
Safe P fault = ⊥

bind-Safe :
    {A B : Type 0} (P : A → Type 0) (Q : B → Type 0) (m : Outcome A) (f : A → Outcome B)
    → Safe P m
    → ((a : A) → P a → Safe Q (f a))
    → Safe Q (m >>= f)
bind-Safe P Q (ok a) f h k = k a h
bind-Safe P Q reject f h k = elim h [ ]
bind-Safe P Q (throws e) f h k = tt
bind-Safe P Q fault f h k = elim h [ ]

Safe-eq : {A : Type 0} (P : A → Type 0) (m : Outcome A) (a : A) → Safe P m → m ≡ ok a → P a
Safe-eq P (ok b) a h e = subst P (ok_inj e) h
Safe-eq P reject a h e = absurd h
Safe-eq P (throws x) a h e = absurd (cc)
Safe-eq P fault a h e = absurd h

abbrev Any : {A : Type 0} → A → Type 0
Any a = Unit

substr-Safe : (s : Bytes) (i n : ℕ) → Safe (λ t. length t ≤ length s - i) (substr s i n)
unfolding substr
substr-Safe s i n = elim (Bool-cases (leb i (length s))) [
  | inl e ↦ rw e (omega (arith, length-take n (drop i s), length-drop i s))
  | inr e ↦ rw e tt
]

legal :
    (k n : Bytes)
    → Safe {A = Option (Bytes × Bytes)} Any
        (if if_name_illegal n then ok (some (k, n)) else throws thrown_text)
legal k n = elim (Bool-cases (if_name_illegal n)) [ inl e ↦ rw e tt | inr e ↦ rw e tt ]

block_head-Safe : (keys : List Bytes) (s : Bytes) (i : ℕ) → Safe Any (block_head keys s i)
unfolding block_head
block_head-Safe [] s i = tt
block_head-Safe (key ∷ keys) s i = elim (Bool-cases (contains key (take i s))) [
  | inl e ↦ rw e (
      bind-Safe _ Any (substr s 0 (length key)) _ (substr-Safe s 0 (length key)) (λ k _.
        bind-Safe _ Any (substr s (length key) (i - length key)) _
          (substr-Safe s (length key) (i - length key)) (λ n _. legal k n)))
  | inr e ↦ rw e (block_head-Safe keys s i)
]

named_head-Safe : (h : Option (Bytes × Bytes)) → Safe Any (named_head h)
unfolding named_head
named_head-Safe none = tt
named_head-Safe (some ([], n)) = tt
named_head-Safe (some (k ∷ ks, n)) = tt

length-scan_block : (b : ℤ) (s : Bytes) → length (scan_block b s) ≤ length s
unfolding scan_block
length-scan_block b [] = omega arith
length-scan_block b (c ∷ cs) = ground (
  arith,
  length-scan_block (b +ℤ pos 1) cs,
  length-scan_block (b +ℤ negsuc 0) cs,
  length-scan_block b cs,
)

-- A round leaves less than it took.
abbrev Shorter : Bytes → Found → Type 0
Shorter s finished = Unit
Shorter s (statement t curs_idx) = 0 < curs_idx
Shorter s (block k n t curs_idx) = (length t < length s) × (0 < curs_idx)

found_block-Shorter :
    (keys : List Bytes) (s : Bytes) (blq_idx : ℕ)
    → 0 < length s
    → Safe (Shorter s) (found_block keys s blq_idx)
unfolding found_block
found_block-Shorter keys s i h =
    let p = scan_block (pos 1) s in
    bind-Safe Any (Shorter s) (block_head keys p i) _ (block_head-Safe keys p i) (λ found _.
      bind-Safe Any (Shorter s) (named_head found) _ (named_head-Safe found) (λ (k, n) _.
        bind-Safe (λ t. length t ≤ length p - (i + 1)) (Shorter s) _ _ (substr-Safe p (i + 1) _)
          (λ t small. (omega (arith, small, h, length-scan_block (pos 1) s), omega arith))))

found_setting-Shorter :
    (keys : List Bytes) (s : Bytes) (sem_idx : ℕ) (blq : Option ℕ)
    → 0 < length s
    → Safe (Shorter s) (found_setting keys s sem_idx blq)
unfolding found_setting
found_setting-Shorter keys s j none h = omega arith
found_setting-Shorter keys s j (some i) h = found_block-Shorter keys s i h

found_to-Shorter :
    (keys : List Bytes) (s : Bytes) (sem : Option ℕ)
    → 0 < length s
    → Safe (Shorter s) (found_to keys s sem)
unfolding found_to
found_to-Shorter keys s none h = tt
found_to-Shorter keys s (some j) h = found_setting-Shorter keys s j _ h

next_setting-Shorter :
    (keys : List Bytes) (s : Bytes) → 0 < length s → Safe (Shorter s) (next_setting keys s)
unfolding next_setting
next_setting-Shorter keys s h = found_to-Shorter keys s (find_char b';' s) h

rest_from-Safe : (s : Bytes) (i : ℕ) → Safe (λ t. length t ≤ length s - i) (rest_from s i)
rest_from-Safe s i = substr-Safe s i (length s - i)

after_setting-Safe :
    (rec : Bytes → Outcome Settings) (s : Bytes) (found : Found)
    → Shorter s found
    → 0 < length s
    → ((t : Bytes) → length t < length s → Safe Any (rec t))
    → Safe Any (after_setting rec s found)
unfolding after_setting
after_setting-Safe rec s finished h pos_size safe = tt
after_setting-Safe rec s (statement t i) h pos_size safe =
    bind-Safe (λ r. length r ≤ length s - i) Any (rest_from s i) _ (rest_from-Safe s i)
      (λ r small.
        bind-Safe Any Any (rec r) _ (safe r (omega (arith, small, h, pos_size))) (λ more _. tt))
after_setting-Safe rec s (block k n t i) h pos_size safe =
    bind-Safe Any Any (rec t) _ (safe t h.0) (λ childs _.
      bind-Safe (λ r. length r ≤ length s - i) Any (rest_from s i) _ (rest_from-Safe s i)
        (λ r small.
          bind-Safe Any Any (rec r) _ (safe r (omega (arith, small, h.1, pos_size)))
            (λ more _. tt)))

after_setting-ext :
    (r1 r2 : Bytes → Outcome Settings) (s : Bytes) (found : Found)
    → Shorter s found
    → 0 < length s
    → ((t : Bytes) → length t < length s → r1 t ≡ r2 t)
    → after_setting r1 s found ≡ after_setting r2 s found
unfolding after_setting
after_setting-ext r1 r2 s finished h pos_size same = refl
after_setting-ext r1 r2 s (statement t i) h pos_size same = bind_ext (rest_from s i) _ _ (λ r e.
    let small = Safe-eq (λ r. length r ≤ length s - i) _ r (rest_from-Safe s i) e in
    rw (same r (omega (arith, small, h, pos_size))) refl)
after_setting-ext r1 r2 s (block k n t i) h pos_size same = rw (same t h.0) (
    bind_ext (r2 t) _ _ (λ childs _. bind_ext (rest_from s i) _ _ (λ r e.
      let small = Safe-eq (λ r. length r ≤ length s - i) _ r (rest_from-Safe s i) e in
      rw (same r (omega (arith, small, h.1, pos_size))) refl)))

read_blocks-Safe :
    (f : ℕ) (keys : List Bytes) (s : Bytes) → length s < f → Safe Any (read_blocks f keys s)
unfolding read_blocks
read_blocks-Safe zero keys s h = absurd (omega (arith, h))
read_blocks-Safe (suc f) keys [] h = tt
read_blocks-Safe (suc f) keys (c ∷ cs) h =
    let s = c ∷ cs in
    bind-Safe (Shorter s) Any (next_setting keys s) _ (next_setting-Shorter keys s (omega arith))
      (λ found small.
        after_setting-Safe (read_blocks f keys) s found small (omega arith)
          (λ t less. read_blocks-Safe f keys t (omega (arith, less, h))))

read_blocks-fuel :
    (f g : ℕ) (keys : List Bytes) (s : Bytes)
    → length s < f
    → length s < g
    → read_blocks f keys s ≡ read_blocks g keys s
unfolding read_blocks
read_blocks-fuel zero g keys s h k = absurd (omega (arith, h))
read_blocks-fuel (suc f) zero keys s h k = absurd (omega (arith, k))
read_blocks-fuel (suc f) (suc g) keys [] h k = refl
read_blocks-fuel (suc f) (suc g) keys (c ∷ cs) h k =
    let s = c ∷ cs in
    bind_ext (next_setting keys s) _ _ (λ found e.
      after_setting-ext (read_blocks f keys) (read_blocks g keys) s found
        (Safe-eq (Shorter s) _ found (next_setting-Shorter keys s (omega arith)) e) (omega arith)
        (λ t less. read_blocks-fuel f g keys t (omega (arith, less, h)) (omega (arith, less, k))))

-- `read_blocks` ends on every text, by settings or by an exception: fuel of more than the text's
-- chars does not run out, and the result does not depend on how much more it is.
pub read_blocks-total :
    (f : ℕ) (keys : List Bytes) (s : Bytes)
    → length s < f
    → (read_blocks f keys s ≢ fault)
      × (read_blocks f keys s ≢ reject)
      × (read_blocks f keys s ≡ read_blocks (suc (length s)) keys s)
read_blocks-total f keys s h = (
  λ e. subst (Safe Any) e (read_blocks-Safe f keys s h),
  λ e. subst (Safe Any) e (read_blocks-Safe f keys s h),
  read_blocks-fuel f (suc (length s)) keys s h (omega arith),
)
