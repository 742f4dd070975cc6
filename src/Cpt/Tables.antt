-- ===== src/Cpt/Tables.antt =====
-- The maps of src/cproj_cpt.cpp as lists of entries, of which the first with a name counts.
use net_cpp.Base.{
  ◌≡◌, refl, sym, ap, ◌∙◌, Bool, true, false, ◌||◌, List, [], ◌∷◌, ◌++◌, Bytes, string_eq,
  if◌then◌else◌, append_assoc, append-nil, Bool-cases, inl, inr,
}
use net_cpp.Cpt.{insert_new}

abbrev pub is_in : Bytes → List Bytes → Bool
is_in k [] = false
is_in k (j ∷ js) = string_eq j k || is_in k js

module _ {V : Type 0} where
  -- The entries without those whose name was seen or comes earlier.
  abbrev pub keep_first : List Bytes → List (Bytes × V) → List (Bytes × V)
  keep_first seen [] = []
  keep_first seen ((k, v) ∷ m) =
      if is_in k seen then keep_first seen m else (k, v) ∷ keep_first (seen ++ k ∷ []) m

  -- Entries inserted one after the other.
  abbrev pub inserts : List (Bytes × V) → List (Bytes × V) → List (Bytes × V)
  inserts m [] = m
  inserts m ((k, v) ∷ l) = inserts (insert_new k v m) l

  abbrev names : List (Bytes × V) → List Bytes
  names [] = []
  names ((k, v) ∷ m) = k ∷ names m

  pub inserts-append : (m a b : List (Bytes × V)) → inserts m (a ++ b) ≡ inserts (inserts m a) b
  inserts-append m [] b = refl
  inserts-append m ((k, v) ∷ a) b = inserts-append (insert_new k v m) a b

  insert_new-old :
      (k : Bytes) (v : V) (m : List (Bytes × V)) → is_in k (names m) ≡ true → insert_new k v m ≡ m
  unfolding insert_new
  insert_new-old k v [] h = cc
  insert_new-old k v ((j, w) ∷ m) h = elim (Bool-cases (string_eq j k)) [
    | inl e ↦ rw e refl
    | inr e ↦ rw e (ap (λ r. (j, w) ∷ r) (insert_new-old k v m (rw e at h)))
  ]

  insert_new-new :
      (k : Bytes) (v : V) (m : List (Bytes × V))
      → is_in k (names m) ≡ false
      → insert_new k v m ≡ m ++ (k, v) ∷ []
  unfolding insert_new
  insert_new-new k v [] h = refl
  insert_new-new k v ((j, w) ∷ m) h = elim (Bool-cases (string_eq j k)) [
    | inl e ↦ (let no : true ≡ false = rw e at h in cc)
    | inr e ↦ rw e (ap (λ r. (j, w) ∷ r) (insert_new-new k v m (rw e at h)))
  ]

  names-append :
      (k : Bytes) (v : V) (m : List (Bytes × V)) → names (m ++ (k, v) ∷ []) ≡ names m ++ k ∷ []
  names-append k v [] = refl
  names-append k v ((j, w) ∷ m) = ap (λ r. j ∷ r) (names-append k v m)

  inserts-keep_first : (m l : List (Bytes × V)) → inserts m l ≡ m ++ keep_first (names m) l
  inserts-keep_first m [] = sym (append-nil m)
  inserts-keep_first m ((k, v) ∷ l) = elim (Bool-cases (is_in k (names m))) [
    | inl e ↦ ap (λ r. inserts r l) (insert_new-old k v m e) ∙ inserts-keep_first m l ∙ rw e refl
    | inr e ↦
        let next = m ++ (k, v) ∷ [] in
        ap (λ r. inserts r l) (insert_new-new k v m e)
        ∙ inserts-keep_first next l
        ∙ ap (λ s. next ++ keep_first s l) (names-append k v m)
        ∙ append_assoc m ((k, v) ∷ []) (keep_first (names m ++ k ∷ []) l)
        ∙ rw e refl
  ]

  -- What a map holds at the end is the first entry of each name.
  pub inserts-all : (l : List (Bytes × V)) → inserts [] l ≡ keep_first [] l
  inserts-all l = inserts-keep_first [] l
