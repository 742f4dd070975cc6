-- ===== src/Message/Laws.antt =====
-- The options of a message are a map with distinct keys that keeps the order of insertion.
use net_cpp.Base.{
  ◌≡◌, ◌≢◌, refl, inl, inr, List, [], ◌∷◌, ◌++◌, Bytes, string_eq, string_eq_iff, All, arith,
  if◌then◌else◌, Bool-cases,
}
use net_cpp.Outcome.{ok}
use net_cpp.Message.{MessageOption, Message, add_to, add_option, value_in, get_value}

-- No option of the list has this key.
abbrev pub Lacks : Bytes → List MessageOption → Type 0
Lacks k os = All (λ (o : MessageOption). o.key ≢ k) os

-- No key stands in the list twice.
abbrev pub DistinctKeys : List MessageOption → Type 0
DistinctKeys [] = Unit
DistinctKeys (o ∷ os) = Lacks o.key os × DistinctKeys os

pub value_in-add_to :
    (j k v : Bytes) (os : List MessageOption)
    → value_in j (add_to k v os) ≡ (if string_eq k j then ok v else value_in j os)
unfolding value_in add_to
value_in-add_to j k v [] = ground arith
value_in-add_to j k v (o ∷ os) = ground (
  arith,
  string_eq_iff o.key k,
  string_eq_iff o.key j,
  string_eq_iff k j,
  value_in-add_to j k v os,
)

-- After `addOption(k, v)` the key k has the value v, and every other key the value it had, or
-- none as before.
pub get_value-add_option :
    (j k v : Bytes) (m : Message)
    → get_value j (add_option k v m) ≡ (if string_eq k j then ok v else get_value j m)
unfolding get_value add_option
get_value-add_option j k v m = value_in-add_to j k v m.options

add_to-Lacks :
    (j k v : Bytes) (os : List MessageOption) → k ≢ j → Lacks j os → Lacks j (add_to k v os)
unfolding add_to
add_to-Lacks j k v [] ne l = (ne, tt)
add_to-Lacks j k v (o ∷ os) ne l = ground (arith, add_to-Lacks j k v os ne l.1)

-- `addOption` keeps the keys distinct.
pub add_to-DistinctKeys :
    (k v : Bytes) (os : List MessageOption) → DistinctKeys os → DistinctKeys (add_to k v os)
unfolding add_to
add_to-DistinctKeys k v [] d = (tt, tt)
add_to-DistinctKeys k v (o ∷ os) d = elim (Bool-cases (string_eq o.key k)) [
  | inl e ↦ rw e d
  | inr e ↦ rw e (
    add_to-Lacks o.key k v os (ground (arith, string_eq_iff o.key k)) d.0,
    add_to-DistinctKeys k v os d.1,
  )
]

-- Adding an absent key puts it behind the others.
pub add_to-absent :
    (k v : Bytes) (os : List MessageOption)
    → Lacks k os
    → add_to k v os ≡ os ++ record { key = k; value = v } ∷ []
unfolding add_to
add_to-absent k v [] l = refl
add_to-absent k v (o ∷ os) l = ground (arith, string_eq_iff o.key k, add_to-absent k v os l.1)

-- Adding a pair that is there changes nothing.
pub add_to-present :
    (k v : Bytes) (os : List MessageOption) → value_in k os ≡ ok v → add_to k v os ≡ os
unfolding add_to value_in
add_to-present k v [] h = cc
add_to-present k v (o ∷ os) h = ground (arith, string_eq_iff o.key k, add_to-present k v os)
