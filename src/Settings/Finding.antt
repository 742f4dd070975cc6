-- ===== src/Settings/Finding.antt =====
-- What the operations of std::string find in a text that is known in parts.
use net_cpp.Base.{
  drop, none, append_assoc, ap, sym, ◌∙◌, ◌^◌, ◌<◌, ℕ, suc, ◌+◌, ◌-◌, ◌≤◌, ◌≡◌, ◌≢◌, refl, ap, none,
  some, [], ◌∷◌, ◌++◌, Bytes, All, length, take, take-append, drop-append, length-append,
  append-nil, le→leb, ◌==◌, ==_ne, ==_refl, Bool-cases, inl, inr, arith,
}
use net_cpp.Outcome.{ok}
use net_cpp.Settings.{find_char_from, sub_size, find_char, rfind_char, substr, rest_from}

pub find_char-none : (c : ℕ) (s : Bytes) → All (λ x. x ≢ c) s → find_char c s ≡ none
unfolding find_char
find_char-none c [] h = refl
find_char-none c (x ∷ xs) h = rw (==_ne x c h.0, find_char-none c xs h.1)

pub find_char-append :
    (c : ℕ) (s rest : Bytes) → All (λ x. x ≢ c) s → find_char c (s ++ (c ∷ rest)) ≡ some (length s)
unfolding find_char
find_char-append c [] rest h = rw (==_refl c)
find_char-append c (x ∷ xs) rest h = rw (==_ne x c h.0, find_char-append c xs rest h.1)

pub find_char-some :
    (c : ℕ) (more rest : Bytes) → (k : ℕ) × (find_char c (more ++ (c ∷ rest)) ≡ some k)
unfolding find_char
find_char-some c [] rest = (0, rw (==_refl c))
find_char-some c (x ∷ more) rest =
    let (k, p) = find_char-some c more rest in
    elim (Bool-cases (x == c)) [ inl e ↦ (0, rw e) | inr e ↦ (suc k, rw (e, p)) ]

-- A char that does not stand in the first part is found behind it.
pub find_char-behind :
    (c x : ℕ) (s more rest : Bytes)
    → All (λ y. y ≢ c) s
    → x ≢ c
    → (k : ℕ) × (find_char c (s ++ (x ∷ (more ++ (c ∷ rest)))) ≡ some (length s + suc k))
unfolding find_char
find_char-behind c x [] more rest h ne =
    let (k, p) = find_char-some c more rest in (k, rw (==_ne x c ne, p) (ap some (omega arith)))
find_char-behind c x (y ∷ s) more rest h ne =
    let (k, e) = find_char-behind c x s more rest h.1 ne in
    (k, rw (==_ne y c h.0, e) (ap some (omega arith)))

pub rfind_char-append : (c : ℕ) (s : Bytes) → rfind_char c (s ++ (c ∷ [])) ≡ some (length s)
unfolding rfind_char
rfind_char-append c [] = rw (==_refl c)
rfind_char-append c (x ∷ xs) = rw (rfind_char-append c xs)

pub substr-append :
    (a b rest : Bytes) (i n : ℕ)
    → i ≡ length a
    → n ≡ length b
    → substr (a ++ (b ++ rest)) i n ≡ ok b
unfolding substr
substr-append a b rest i n ei en =
    let inside : length a ≤ length (a ++ (b ++ rest)) =
      omega (arith, length-append {0} a (b ++ rest)) in
    rw (ei, en, le→leb _ _ inside, drop-append a (b ++ rest), take-append b rest)

pub rest_from-append : (a rest : Bytes) (i : ℕ) → i ≡ length a → rest_from (a ++ rest) i ≡ ok rest
rest_from-append a rest i e =
    let n : length (a ++ rest) - i ≡ length rest = omega (arith, length-append {0} a rest, e) in
    rw append-nil at (substr-append a rest [] i (length (a ++ rest) - i) e n)

pub take-past :
    (s : Bytes) (c k : ℕ) (t : Bytes) → take (length s + suc k) (s ++ (c ∷ t)) ≡ s ++ (c ∷ take k t)
take-past [] c k t = let n : 0 + suc k ≡ suc k = omega arith in rw n refl
take-past (x ∷ s) c k t =
    let n : suc (length s) + suc k ≡ suc (length s + suc k) = omega arith in
    rw n (ap (◌∷◌ x) (take-past s c k t))

pub some_inj : {a b : Bytes} → some a ≡ some b → a ≡ b
some_inj e = cc

pub sub_size-eq : (a b n : ℕ) → a ≡ b + n → n < 2 ^ 64 → sub_size a b ≡ n
unfolding sub_size
sub_size-eq a b n e h = omega (arith, e, h)

-- Behind a char, up to another part, and to the end.
pub substr-between :
    (a b rest : Bytes) (c i n : ℕ)
    → i ≡ length a + 1
    → n ≡ length b
    → substr (a ++ (c ∷ (b ++ rest))) i n ≡ ok b
substr-between a b rest c i n ei en =
    ap (λ t. substr t i n) (sym (append_assoc a (c ∷ []) (b ++ rest)))
    ∙ substr-append (a ++ (c ∷ [])) b rest i n (omega (arith, ei, length-append {0} a (c ∷ []))) en

pub substr-behind :
    (a b : Bytes) (c i n : ℕ) → i ≡ length a + 1 → n ≡ length b → substr (a ++ (c ∷ b)) i n ≡ ok b
substr-behind a b c i n ei en = rw append-nil at (substr-between a b [] c i n ei en)

pub find_char_from-drop :
    (c : ℕ) (a b : Bytes) (i : ℕ) (s : Bytes)
    → i ≡ length a
    → s ≡ a ++ b
    → find_char_from c s i ≡ elim (find_char c b) [ none ↦ none | some j ↦ some (i + j) ]
unfolding find_char_from
find_char_from-drop c a b i s e f =
    ap (λ t. elim (find_char c t) [ none ↦ none | some j ↦ some (i + j) ])
      (ap (drop i) f ∙ ap (λ k. drop k (a ++ b)) e ∙ drop-append a b)
