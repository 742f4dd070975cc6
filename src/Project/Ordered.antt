-- ===== src/Project/Ordered.antt =====
-- `std::map` with strings as keys: a list in the order of the keys.
use net_cpp.Outcome.{Outcome, ok, fault}
use net_cpp.Base.{
  Bool, true, false, Option, none, some, List, [], ◌∷◌, Bytes, string_eq, ltb, ◌==◌, if◌then◌else◌,
}

-- `operator<` on strings: by chars, as numbers without a sign.
unfoldable pub string_less : Bytes → Bytes → Bool
string_less xs [] = false
string_less [] (y ∷ ys) = true
string_less (x ∷ xs) (y ∷ ys) = if x == y then string_less xs ys else ltb x y

module _ {ℓ} {V : Type ℓ} where
  -- `find`: none for `end()`.
  unfoldable pub find_key : Bytes → List (Bytes × V) → Option V
  unfolding string_eq
  find_key k [] = none
  find_key k ((j, v) ∷ m) = if string_eq j k then some v else find_key k m

  -- `insert`, which keeps what a key has.
  unfoldable pub insert_key : Bytes → V → List (Bytes × V) → List (Bytes × V)
  unfolding string_eq string_less
  insert_key k v [] = (k, v) ∷ []
  insert_key k v ((j, w) ∷ m) =
      if string_eq j k
      then (j, w) ∷ m
      else if string_less k j
      then (k, v) ∷ (j, w) ∷ m
      else (j, w) ∷ insert_key k v m

  -- `find(...)->second`
  unfoldable pub found : Bytes → List (Bytes × V) → Outcome V
  unfolding find_key
  found k t = elim (find_key k t) [ none ↦ fault | some v ↦ ok v ]
