-- ===== src/Sql/Texts.antt =====
-- The lists in the texts can be read back.
use net_cpp.Base.{
  ℕ, ◌+◌, ◌≡◌, ◌≢◌, refl, ap, ◌∙◌, List, [], ◌∷◌, ◌++◌, Bytes, All, codes, map, append_assoc, false,
  ◌==◌, ==_ne, if◌then◌else◌, arith,
}
use net_cpp.Sql.{add_items, insert_text}

abbrev cons_head : ℕ → List Bytes → List Bytes
cons_head c [] = (c ∷ []) ∷ []
cons_head c (s ∷ ss) = (c ∷ s) ∷ ss

-- A text as the parts between its commas.
unfoldable pub split_commas : Bytes → List Bytes
split_commas [] = [] ∷ []
split_commas (c ∷ cs) = if c == b',' then [] ∷ split_commas cs else cons_head c (split_commas cs)

abbrev pub NoComma : Bytes → Type 0
NoComma s = All (λ c. c ≢ b',') s

-- Items with commas between them.
abbrev pub commas : Bytes → List Bytes → Bytes
commas s [] = s
commas s (t ∷ ts) = s ++ (b',' ∷ commas t ts)

split_commas-last : (s : Bytes) → NoComma s → split_commas s ≡ s ∷ []
unfolding split_commas
split_commas-last [] h = refl
split_commas-last (c ∷ cs) h = rw (==_ne c b',' h.0, split_commas-last cs h.1)

split_commas-append :
    (s rest : Bytes) → NoComma s → split_commas (s ++ (b',' ∷ rest)) ≡ s ∷ split_commas rest
unfolding split_commas
split_commas-append [] rest h = refl
split_commas-append (c ∷ cs) rest h = rw (==_ne c b',' h.0, split_commas-append cs rest h.1)

split_commas-commas :
    (s : Bytes) (ts : List Bytes) → NoComma s → All NoComma ts → split_commas (commas s ts) ≡ s ∷ ts
split_commas-commas s [] h a = split_commas-last s h
split_commas-commas s (t ∷ ts) h a =
    split_commas-append s (commas t ts) h ∙ ap (λ r. s ∷ r) (split_commas-commas t ts a.0 a.1)

add_items-more :
    (ts : List Bytes) (n : ℕ) (sql s : Bytes) → add_items (n + 1) ts (sql ++ s) ≡ sql ++ commas s ts
unfolding add_items
add_items-more [] n sql s = refl
add_items-more (t ∷ ts) n sql s =
    let later : ((n + 1) == 0) ≡ false = ground arith in
    rw later (add_items-more ts (n + 1) ((sql ++ s) ++ codes ",") t ∙ simp append_assoc)

add_items-commas :
    (s : Bytes) (ts : List Bytes) (sql : Bytes) → add_items 0 (s ∷ ts) sql ≡ sql ++ commas s ts
unfolding add_items
add_items-commas s ts sql = add_items-more ts 0 sql s

-- The statement of `insert_info`, for at least one item, has a list of names and one of values, each
-- between parentheses: split at their commas they are the names and the values of the items, in
-- order, where none of these contains a comma.
pub insert_text-split :
    (table name value : Bytes) (items : List (Bytes × Bytes))
    → NoComma name
    → NoComma value
    → All (λ (i : Bytes × Bytes). NoComma i.0) items
    → All (λ (i : Bytes × Bytes). NoComma i.1) items
    → (names : Bytes) × (values : Bytes) × (insert_text table ((name, value) ∷ items)
        ≡ codes "INSERT INTO "
          ++ (table ++ (codes "(" ++ (names ++ (codes ") VALUES(" ++ (values ++ codes ");"))))))
      × (split_commas names ≡ name ∷ map (λ (i : Bytes × Bytes). i.0) items)
      × (split_commas values ≡ value ∷ map (λ (i : Bytes × Bytes). i.1) items)
unfolding insert_text
insert_text-split table name value items hn hv an av =
    let firsts = map (λ (i : Bytes × Bytes). i.0) items in
    let seconds = map (λ (i : Bytes × Bytes). i.1) items in
    (
      commas name firsts,
      commas value seconds,
      rw
          (
            add_items-commas name firsts ((codes "INSERT INTO " ++ table) ++ codes "("),
            add_items-commas value seconds,
          )
          (simp append_assoc),
      split_commas-commas name firsts hn (All-map-0 items an),
      split_commas-commas value seconds hv (All-map-1 items av),
    )
  where
    All-map-0 :
        (is : List (Bytes × Bytes))
        → All (λ (i : Bytes × Bytes). NoComma i.0) is
        → All NoComma (map (λ (i : Bytes × Bytes). i.0) is)
    All-map-0 [] a = tt
    All-map-0 (i ∷ is) a = (a.0, All-map-0 is a.1)

    All-map-1 :
        (is : List (Bytes × Bytes))
        → All (λ (i : Bytes × Bytes). NoComma i.1) is
        → All NoComma (map (λ (i : Bytes × Bytes). i.1) is)
    All-map-1 [] a = tt
    All-map-1 (i ∷ is) a = (a.0, All-map-1 is a.1)
