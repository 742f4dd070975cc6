-- ===== src/Settings/Rounds.antt =====
-- The rounds of `read_blocks` at a statement and at a block.
use net_cpp.Base.{
  ℕ, suc, ◌+◌, ◌-◌, ◌^◌, ◌<◌, ◌≡◌, ◌≢◌, refl, sym, ap, ◌∙◌, true, Option, none, some, List, [], ◌∷◌,
  ◌++◌, Bytes, length, take, take-append, length-append, append_assoc, All-mono, pos, Bool-cases,
  inl, inr, arith,
}
use net_cpp.Outcome.{ok}
use net_cpp.Settings.{
  find_char, contains, if_name_illegal, scan_block, block_end, substr, block_head, named_head,
  statement, block, found_block, found_setting, found_to, next_setting,
}
use net_cpp.Settings.Finding.{
  some_inj, sub_size-eq, find_char-none, find_char-append, find_char-behind, rfind_char-append,
  substr-append, take-past,
}
use net_cpp.Settings.Text.{IsInner, first_key}

-- The head of a block is read as its keyword and its name.
block_head-first_key :
    (keys : List Bytes) (key name behind : Bytes)
    → first_key keys (key ++ name) ≡ some key
    → if_name_illegal name ≡ true
    → block_head keys (key ++ (name ++ behind)) (length (key ++ name)) ≡ ok (some (key, name))
unfolding block_head
block_head-first_key [] key name behind h legal = absurd (cc)
block_head-first_key (k ∷ ks) key name behind h legal =
    let head : take (length (key ++ name)) (key ++ (name ++ behind)) ≡ key ++ name =
      ap (take (length (key ++ name))) (sym (append_assoc key name behind))
      ∙ take-append (key ++ name) behind in
    let size : length (key ++ name) - length key ≡ length name =
      omega (arith, length-append {0} key name) in
    elim (Bool-cases (contains k (key ++ name))) [
      | inl e ↦
          let same : k ≡ key = some_inj (rw e at h) in
          rw (
            head,
            e,
            same,
            substr-append [] key (name ++ behind) 0 (length key) refl refl,
            size,
            substr-append key name behind (length key) (length name) refl refl,
            legal,
          )
      | inr e ↦ rw (head, e) (block_head-first_key ks key name behind (rw e at h) legal)
    ]

named_head-key : (key name : Bytes) → key ≢ [] → named_head (some (key, name)) ≡ ok (key, name)
unfolding named_head
named_head-key [] name h = absurd (h refl)
named_head-key (k ∷ ks) name h = refl

next_setting-found :
    (keys : List Bytes) (s : Bytes) (sem_idx : ℕ) (blq : Option ℕ)
    → find_char b';' s ≡ some sem_idx
    → find_char b'{' (take sem_idx s) ≡ blq
    → next_setting keys s ≡ found_setting keys s sem_idx blq
unfolding next_setting
next_setting-found keys s sem_idx blq e f =
    ap (found_to keys s) e ∙ ap (found_setting keys s sem_idx) f

-- A round at a statement.
pub next_setting-statement :
    (keys : List Bytes) (s rest : Bytes)
    → IsInner s
    → next_setting keys (s ++ (b';' ∷ rest)) ≡ ok (statement s (length s + 1))
unfolding found_setting
next_setting-statement keys s rest h =
    let no_sem =
      All-mono _ (λ c. c ≢ b';') (λ c (e : (c ≢ b';') × (c ≢ b'{') × (c ≢ b'}')). e.0) s h in
    let no_open =
      All-mono _ (λ c. c ≢ b'{') (λ c (e : (c ≢ b';') × (c ≢ b'{') × (c ≢ b'}')). e.1) s h in
    next_setting-found keys (s ++ (b';' ∷ rest)) (length s) none
      (find_char-append b';' s rest no_sem)
      (rw (take-append s (b';' ∷ rest)) (find_char-none b'{' s no_open))
    ∙ ap (λ t. ok (statement t (length s + 1))) (take-append s (b';' ∷ rest))

-- A round at a block, whose text is `inner`.
module _ (keys : List Bytes) (key name inner rest : Bytes) where
  abbrev pub head : Bytes
  head = key ++ name

  abbrev pub block_part : Bytes
  block_part = key ++ (name ++ (b'{' ∷ (inner ++ (b'}' ∷ []))))

  abbrev pub whole : Bytes
  whole = head ++ (b'{' ∷ (inner ++ (b'}' ∷ (b';' ∷ rest))))

  length-block_part : length block_part ≡ length head + 2 + length inner
  length-block_part = omega (arith, length-append {0})

  block_end-block : block_end block_part ≡ length block_part
  unfolding block_end
  block_end-block =
      let split : block_part ≡ (head ++ (b'{' ∷ inner)) ++ (b'}' ∷ []) = simp append_assoc in
      rw (split, rfind_char-append b'}' (head ++ (b'{' ∷ inner)), block_end)
        (omega (arith, length-append {0} (head ++ (b'{' ∷ inner)) (b'}' ∷ [])))

  pub found_block-block :
      first_key keys head ≡ some key
      → key ≢ []
      → if_name_illegal name ≡ true
      → length inner < 2 ^ 64
      → scan_block (pos 1) whole ≡ block_part
      → found_block keys whole (length head) ≡ ok (block key name inner (length block_part + 1))
  unfolding found_block
  found_block-block first some_key legal small scans =
      let n : length (key ++ name) ≡ length key + length name = length-append {0} key name in
      let end = block_end-block in
      let split : block_part ≡ (head ++ (b'{' ∷ [])) ++ (inner ++ (b'}' ∷ [])) =
        simp append_assoc in
      let inside : substr block_part (length head + 1) (length inner) ≡ ok inner =
        ap (λ t. substr t (length head + 1) (length inner)) split
        ∙ substr-append (head ++ (b'{' ∷ [])) inner (b'}' ∷ []) (length head + 1) (length inner)
            (omega (arith, length-append {0} head (b'{' ∷ []))) refl in
      rw (
        scans,
        block_head-first_key keys key name _ first legal,
        named_head-key key name some_key,
        end,
        sub_size-eq (length block_part) (length head + 2) (length inner)
            (omega (arith, length-block_part)) small,
        inside,
      )

  pub next_setting-block :
      IsInner head
      → found_block keys whole (length head) ≡ ok (block key name inner (length block_part + 1))
      → next_setting keys whole ≡ ok (block key name inner (length block_part + 1))
  unfolding found_setting
  next_setting-block h e =
      let no_sem =
        All-mono _ (λ c. c ≢ b';') (λ c (e : (c ≢ b';') × (c ≢ b'{') × (c ≢ b'}')). e.0) head h in
      let no_open =
        All-mono _ (λ c. c ≢ b'{') (λ c (e : (c ≢ b';') × (c ≢ b'{') × (c ≢ b'}')). e.1) head h in
      let (k, sem) =
        find_char-behind b';' b'{' head (inner ++ (b'}' ∷ [])) rest no_sem (omega arith) in
      let regroup : whole ≡ head ++ (b'{' ∷ ((inner ++ (b'}' ∷ [])) ++ (b';' ∷ rest))) =
        simp append_assoc in
      next_setting-found keys whole (length head + suc k) (some (length head))
        (ap (find_char b';') regroup ∙ sem)
        (rw (take-past head b'{' k (inner ++ (b'}' ∷ (b';' ∷ rest))))
          (find_char-append b'{' head _ no_open))
      ∙ e
