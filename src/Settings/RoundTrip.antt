-- ===== src/Settings/RoundTrip.antt =====
-- `read_blocks` reads written settings back.
use net_cpp.Base.{
  ℕ, zero, suc, ◌+◌, ◌^◌, ◌<◌, ◌≡◌, ◌≢◌, refl, sym, ap, ◌∙◌, true, false, some, List, [], ◌∷◌, ◌++◌,
  Bytes, length, length-append, append_assoc, All-append, pos, arith,
}
use net_cpp.Outcome.{ok, ◌>>=◌}
use net_cpp.Settings.{
  if_name_illegal, scan_block, next_setting, rest_from, setting, Settings, nil, cons, after_setting,
  read_blocks,
}
use net_cpp.Settings.Finding.{rest_from-append}
use net_cpp.Settings.Text.{
  settings_text, IsInner, first_key, AreSettings, scan_block-inner, scan_block-open,
  scan_block-stop, name-IsInner, scan_block-settings,
}
use net_cpp.Settings.Rounds.{
  next_setting-statement, found_block-block, next_setting-block, block_part, whole,
}

read_blocks-step :
    (f : ℕ) (keys : List Bytes) (s : Bytes)
    → 0 < length s
    → read_blocks (suc f) keys s ≡ (next_setting keys s >>= after_setting (read_blocks f keys) s)
unfolding read_blocks
read_blocks-step f keys [] h = absurd (omega (arith, h))
read_blocks-step f keys (c ∷ cs) h = refl

statement_round :
    (f : ℕ) (keys : List Bytes) (s rest : Bytes) (xs : Settings)
    → IsInner s
    → read_blocks f keys rest ≡ ok xs
    → read_blocks (suc f) keys (s ++ (b';' ∷ rest)) ≡ ok (cons (setting [] [] s false nil) xs)
unfolding after_setting
statement_round f keys s rest xs h more =
    let t = s ++ (b';' ∷ rest) in
    let some_text : 0 < length t = omega (arith, length-append {0} s (b';' ∷ rest)) in
    let split : t ≡ (s ++ (b';' ∷ [])) ++ rest = simp append_assoc in
    let behind : rest_from t (length s + 1) ≡ ok rest =
      ap (λ u. rest_from u (length s + 1)) split
      ∙ rest_from-append (s ++ (b';' ∷ [])) rest (length s + 1)
          (omega (arith, length-append {0} s (b';' ∷ []))) in
    read_blocks-step f keys t some_text
    ∙ rw (next_setting-statement keys s rest h) (rw behind (rw more))

block_round :
    (f : ℕ) (keys : List Bytes) (key name inner rest : Bytes) (childs xs : Settings)
    → first_key keys (key ++ name) ≡ some key
    → key ≢ []
    → IsInner key
    → if_name_illegal name ≡ true
    → length inner < 2 ^ 64
    → ((r : Bytes) → scan_block (pos 2) (inner ++ r) ≡ inner ++ scan_block (pos 2) r)
    → read_blocks f keys inner ≡ ok childs
    → read_blocks f keys rest ≡ ok xs
    → read_blocks (suc f) keys (whole keys key name inner rest)
      ≡ ok (cons (setting key name [] true childs) xs)
unfolding after_setting
block_round f keys key name inner rest childs xs first some_key plain legal small scans child more =
    let t = whole keys key name inner rest in
    let p = block_part keys key name inner rest in
    let some_text : 0 < length t =
      omega (arith, length-append {0} (key ++ name) (b'{' ∷ (inner ++ (b'}' ∷ (b';' ∷ rest))))) in
    let is_inner : IsInner (key ++ name) = All-append _ key name plain (name-IsInner name legal) in
    let scanned : scan_block (pos 1) t ≡ p =
      scan_block-inner (pos 1) (key ++ name) _ is_inner
      ∙ ap (λ u. (key ++ name) ++ u)
          (scan_block-open 0 _
            ∙ ap (◌∷◌ b'{') (scans _ ∙ ap (λ u. inner ++ u) (scan_block-stop (b';' ∷ rest))))
      ∙ append_assoc key name _ in
    let split : t ≡ (p ++ (b';' ∷ [])) ++ rest = simp append_assoc in
    let behind : rest_from t (length p + 1) ≡ ok rest =
      ap (λ u. rest_from u (length p + 1)) split
      ∙ rest_from-append (p ++ (b';' ∷ [])) rest (length p + 1)
          (omega (arith, length-append {0} p (b';' ∷ []))) in
    let found = found_block-block keys key name inner rest first some_key legal small scanned in
    read_blocks-step f keys t some_text
    ∙ rw (next_setting-block keys key name inner rest is_inner found)
        (rw child (rw behind (rw more)))

-- `read_blocks` reads the settings back from their text, blocks within blocks included, whose length
-- fits 64 bits.
pub read_blocks-settings_text :
    (f : ℕ) (keys : List Bytes) (xs : Settings)
    → AreSettings keys xs
    → length (settings_text xs) < f
    → length (settings_text xs) < 2 ^ 64
    → read_blocks f keys (settings_text xs) ≡ ok xs
unfolding after_setting
read_blocks-settings_text zero keys xs h fuel small = absurd (omega (arith, fuel))
read_blocks-settings_text (suc f) keys nil h fuel small = unfold read_blocks in refl
read_blocks-settings_text (suc f) keys (cons (setting key name sentence false childs) xs) h fuel
      small =
    let t = sentence ++ (b';' ∷ settings_text xs) in
    let text : settings_text (cons (setting key name sentence false childs) xs) ≡ t =
      append_assoc sentence (b';' ∷ []) (settings_text xs) in
    let size : length t ≡ length sentence + suc (length (settings_text xs)) =
      length-append {0} sentence (b';' ∷ settings_text xs) in
    let long = ap length text in
    ap (read_blocks (suc f) keys) text
    ∙ statement_round f keys sentence (settings_text xs) xs h.0.3 (
        read_blocks-settings_text f keys xs h.1 (omega (arith, fuel, size, long))
          (omega (arith, small, size, long)))
    ∙ rw (h.0.0, h.0.1, h.0.2)
read_blocks-settings_text (suc f) keys (cons (setting key name sentence true childs) xs) h fuel
      small =
    let inner = settings_text childs in
    let rest = settings_text xs in
    let t = whole keys key name inner rest in
    let text : settings_text (cons (setting key name sentence true childs) xs) ≡ t =
      simp append_assoc in
    let long = ap length text in
    let size : length t ≡ length (key ++ name) + (3 + length inner + length rest) = omega (
      arith,
      length-append {0} (key ++ name) (b'{' ∷ (inner ++ (b'}' ∷ (b';' ∷ rest)))),
      length-append {0} inner (b'}' ∷ (b';' ∷ rest)),
    ) in
    ap (read_blocks (suc f) keys) text
    ∙ block_round f keys key name inner rest childs xs h.0.1 h.0.2 h.0.3 h.0.4
        (omega (arith, small, size, long)) (λ r. scan_block-settings keys 0 childs r h.0.5)
        (read_blocks-settings_text f keys childs h.0.5 (omega (arith, fuel, size, long))
          (omega (arith, small, size, long)))
        (read_blocks-settings_text f keys xs h.1 (omega (arith, fuel, size, long))
          (omega (arith, small, size, long)))
    ∙ ap (λ s. ok (cons (setting key name s true childs) xs)) (sym h.0.0)
