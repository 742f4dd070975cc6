-- ===== src/Factory/Cursor.antt =====
-- The steps of the decoder at a position that is known to stand before given bytes.
use net_cpp.Base.{
  ℕ, ◌+◌, ◌≡◌, ◌≢◌, sym, ap, ◌∙◌, some, List, [], ◌∷◌, ◌++◌, Bytes, All, length, drop-drop,
  drop-append, length-append, arith, ==_refl, ==_ne,
}
use net_cpp.Outcome.{ok, At, at-At}
use net_cpp.Factory.Decode.{expect, expect_all, before, read_until}

pub At-skip {ℓ} :
    {A : Type ℓ} (raw : List A) (i : ℕ) (s rest : List A)
    → At raw i (s ++ rest)
    → At raw (i + length s) rest
At-skip raw i s rest a = record {
  here = sym (drop-drop i (length s) raw) ∙ rw a.here (drop-append s rest);
  count = omega (arith, a.count, length-append {ℓ} s rest);
}

pub At-next {ℓ} :
    {A : Type ℓ} (raw : List A) (i : ℕ) (c : A) (rest : List A)
    → At raw i (c ∷ rest)
    → At raw (i + 1) rest
At-next raw i c rest a = At-skip raw i (c ∷ []) rest a

-- Behind the first part of a buffer.
pub At-front {ℓ} : {A : Type ℓ} (raw s rest : List A) → raw ≡ s ++ rest → At raw (length s) rest
At-front raw s rest e = record {
  here = rw e (drop-append s rest);
  count = omega (arith, ap length e, length-append {ℓ} s rest);
}

module _ (raw : Bytes) (i : ℕ) where
  pub expect-At : (c : ℕ) (rest : Bytes) → At raw i (c ∷ rest) → expect raw i c ≡ ok (i + 1)
  unfolding expect
  expect-At c rest a = rw (at-At raw i c rest a.here, ==_refl c)

before-append :
    (stop : ℕ) (s rest : Bytes) → All (λ c. c ≢ stop) s → before stop (s ++ (stop ∷ rest)) ≡ some s
unfolding before
before-append stop [] rest a = ground (arith, ==_refl stop)
before-append stop (c ∷ cs) rest a = rw (==_ne c stop a.0, before-append stop cs rest a.1)

module _ (raw : Bytes) (i stop : ℕ) (s rest : Bytes) (a : At raw i (s ++ (stop ∷ rest))) where
  pub read_until-At : All (λ c. c ≢ stop) s → read_until raw i stop ≡ ok (s, i + length s + 1)
  unfolding read_until
  read_until-At h = rw (a.here, read_until) (rw (before-append stop s rest h, read_until))

  pub At-read : At raw (i + length s + 1) rest
  At-read = At-next raw (i + length s) stop rest (At-skip raw i s (stop ∷ rest) a)

pub expect_all-At :
    (raw : Bytes) (i : ℕ) (cs rest : Bytes)
    → At raw i (cs ++ rest)
    → expect_all raw i cs ≡ ok (i + length cs)
unfolding expect_all
expect_all-At raw i [] rest a = ap ok (omega arith)
expect_all-At raw i (c ∷ cs) rest a =
    rw (expect-At raw i c (cs ++ rest) a)
      (expect_all-At raw (i + 1) cs rest (At-next raw i c (cs ++ rest) a) ∙ ap ok (omega arith))
