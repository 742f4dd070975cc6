-- ===== src/Outcome.antt =====
-- What a call may do besides returning: give up with -1 or false, throw, or run into undefined
-- behaviour (a read or a write outside a buffer).
use net_cpp.Base.{
  ℕ, zero, suc, ◌+◌, ◌≡◌, refl, List, [], ◌∷◌, Bytes, Bool, true, false, length, drop, drop-nil,
  arith,
}

pub data Exn : Type 0 where
  -- std::invalid_argument and std::out_of_range, from stoi and stoul
  invalid_argument out_of_range : Exn
  -- `throw std::runtime_error(...)`
  runtime_error : Exn
  -- `throw new std::runtime_error(...)`: a pointer, which no handler of the program catches
  thrown_pointer : Exn
  -- `throw "..."`
  thrown_text : Exn
  -- `throw` of a std::string
  thrown_string : Exn

pub data Outcome {ℓ} (A : Type ℓ) : Type ℓ where
  ok : A → Outcome A
  reject : Outcome A
  throws : Exn → Outcome A
  fault : Outcome A

module _ {ℓ κ} {A : Type ℓ} {B : Type κ} where
  infixl 5 ◌>>=◌
  abbrev pub ◌>>=◌ : Outcome A → (A → Outcome B) → Outcome B
  ok a >>= f = f a
  reject >>= f = reject
  throws e >>= f = throws e
  fault >>= f = fault

infixl 5 ◌>>◌
abbrev pub ◌>>◌ {ℓ} : {B : Type ℓ} → Outcome (Unit {0}) → Outcome B → Outcome B
m >> k = m >>= λ _. k

-- The check `if (!b) return -1;`.
abbrev pub require : Bool → Outcome (Unit {0})
require true = ok tt
require false = reject

pub bind_ok {ℓ κ} :
    {A : Type ℓ} {B : Type κ} (m : Outcome A) (f : A → Outcome B) (a : A)
    → m ≡ ok a
    → (m >>= f) ≡ f a
bind_ok (ok b) f a e = ground arith
bind_ok reject f a e = ground arith
bind_ok (throws x) f a e = ground arith
bind_ok fault f a e = ground arith

-- Where a bind succeeds, its parts do.
pub bind-eq-ok {ℓ κ} :
    {A : Type ℓ} {B : Type κ} (m : Outcome A) (f : A → Outcome B) {b : B}
    → (m >>= f) ≡ ok b
    → (a : A) × (m ≡ ok a) × (f a ≡ ok b)
bind-eq-ok (ok a) f h = (a, refl, h)
bind-eq-ok reject f h = cc
bind-eq-ok (throws e) f h = cc
bind-eq-ok fault f h = cc

-- A call that succeeds leaves a result with the property.
abbrev pub IfOk {ℓ κ} : {A : Type ℓ} → (A → Type κ) → Outcome A → Type κ
IfOk P (ok a) = P a
IfOk P _ = Unit

pub bind-IfOk {ℓ κ μ ν} :
    {A : Type ℓ} {B : Type κ} (P : A → Type μ) (Q : B → Type ν) (m : Outcome A) (f : A → Outcome B)
    → IfOk P m
    → ((a : A) → P a → IfOk Q (f a))
    → IfOk Q (m >>= f)
bind-IfOk P Q (ok a) f h k = k a h
bind-IfOk P Q reject f h k = tt
bind-IfOk P Q (throws e) f h k = tt
bind-IfOk P Q fault f h k = tt

pub ok_inj {ℓ} : {A : Type ℓ} {a b : A} → ok a ≡ ok b → a ≡ b
ok_inj e = cc

pub bind_assoc {ℓ κ μ} :
    {A : Type ℓ} {B : Type κ} {C : Type μ} (m : Outcome A) (f : A → Outcome B) (g : B → Outcome C)
    → (m >>= f >>= g) ≡ (m >>= λ a. f a >>= g)
bind_assoc (ok a) f g = refl
bind_assoc reject f g = refl
bind_assoc (throws e) f g = refl
bind_assoc fault f g = refl

pub bind_ext {ℓ κ} :
    {A : Type ℓ} {B : Type κ} (m : Outcome A) (f g : A → Outcome B)
    → ((a : A) → m ≡ ok a → f a ≡ g a)
    → (m >>= f) ≡ (m >>= g)
bind_ext (ok a) f g h = h a refl
bind_ext reject f g h = refl
bind_ext (throws e) f g h = refl
bind_ext fault f g h = refl

-- `raw_data[index]`: outside the vector the read is undefined.
unfoldable pub at : Bytes → ℕ → Outcome ℕ
at [] i = fault
at (x ∷ xs) zero = ok x
at (x ∷ xs) (suc i) = at xs i

-- A cursor: from position i on, the buffer holds `rest`.
pub record At {ℓ} {A : Type ℓ} (raw : List A) (i : ℕ) (rest : List A) : Type ℓ where
  pub here : drop i raw ≡ rest
  pub count : i + length rest ≡ length raw

pub At-start {ℓ} : {A : Type ℓ} (raw : List A) → At raw 0 raw
At-start raw = record { here = refl; count = omega arith }

-- A read at the cursor gives what it stands before.
pub at-At : (raw : Bytes) (i c : ℕ) (rest : Bytes) → drop i raw ≡ c ∷ rest → at raw i ≡ ok c
unfolding at
at-At [] i c rest h = cc (drop-nil {A = ℕ} i)
at-At (x ∷ xs) zero c rest h = ground arith
at-At (x ∷ xs) (suc i) c rest h = at-At xs i c rest h
