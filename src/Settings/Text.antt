-- ===== src/Settings/Text.antt =====
-- The text of settings, and its way through the scan for the end of a block.
use net_cpp.Base.{
  ℕ, suc, ◌≡◌, ◌≢◌, refl, sym, ap, ◌∙◌, true, false, Option, none, some, List, [], ◌∷◌, ◌++◌, Bytes,
  All, append_assoc, ℤ, pos, ◌+ℤ◌, eqb_ℤ, ==_ne, if◌then◌else◌, arith,
}
use net_cpp.Settings.{
  contains, if_illegal, if_name_illegal, is_alnum, scan_block, SettingFileRead, setting, Settings,
  nil, cons,
}

-- The text of settings.
abbrev mutual
  pub setting_text : SettingFileRead → Bytes
  setting_text (setting key name sentence true childs) =
      key ++ (name ++ (b'{' ∷ (settings_text childs ++ (b'}' ∷ b';' ∷ []))))
  setting_text (setting key name sentence false childs) = sentence ++ (b';' ∷ [])

  pub settings_text : Settings → Bytes
  settings_text nil = []
  settings_text (cons s ss) = setting_text s ++ settings_text ss

-- No `;`, `{` or `}`.
abbrev pub IsInner : Bytes → Type 0
IsInner s = All (λ c. (c ≢ b';') × (c ≢ b'{') × (c ≢ b'}')) s

-- The first keyword that stands in the head.
abbrev pub first_key : List Bytes → Bytes → Option Bytes
first_key [] head = none
first_key (key ∷ keys) head = if contains key head then some key else first_key keys head

-- Settings as the parser makes them: a statement has no key, name or children, and a block no
-- sentence, a legal name, and a keyword that is the first to stand in its head.
abbrev mutual
  pub IsSetting : List Bytes → SettingFileRead → Type 0
  IsSetting keys (setting key name sentence true childs) =
      (sentence ≡ [])
      × (first_key keys (key ++ name) ≡ some key)
      × (key ≢ [])
      × IsInner key
      × (if_name_illegal name ≡ true)
      × AreSettings keys childs
  IsSetting keys (setting key name sentence false childs) =
      (key ≡ []) × (name ≡ []) × (childs ≡ nil) × IsInner sentence

  pub AreSettings : List Bytes → Settings → Type 0
  AreSettings keys nil = Unit
  AreSettings keys (cons s ss) = IsSetting keys s × AreSettings keys ss

-- Text without braces, and the text of settings, goes through the scan.
pub scan_block-inner :
    (b : ℤ) (s rest : Bytes) → IsInner s → scan_block b (s ++ rest) ≡ s ++ scan_block b rest
unfolding scan_block
scan_block-inner b [] rest h = refl
scan_block-inner b (c ∷ cs) rest h =
    rw (==_ne c b'{' h.0.1, ==_ne c b'}' h.0.2, scan_block-inner b cs rest h.1)

pub scan_block-open :
    (d : ℕ) (s : Bytes)
    → scan_block (pos (suc d)) (b'{' ∷ s) ≡ b'{' ∷ scan_block (pos (suc (suc d))) s
unfolding scan_block ◌+ℤ◌
scan_block-open d s = ground arith

pub scan_block-close :
    (d : ℕ) (s : Bytes)
    → scan_block (pos (suc (suc (suc d)))) (b'}' ∷ s) ≡ b'}' ∷ scan_block (pos (suc (suc d))) s
unfolding scan_block ◌+ℤ◌ eqb_ℤ
scan_block-close d s = ground arith

pub scan_block-stop : (s : Bytes) → scan_block (pos 2) (b'}' ∷ s) ≡ b'}' ∷ []
unfolding scan_block ◌+ℤ◌ eqb_ℤ
scan_block-stop s = refl

pub scan_block-semicolon : (b : ℤ) (s : Bytes) → scan_block b (b';' ∷ s) ≡ b';' ∷ scan_block b s
unfolding scan_block
scan_block-semicolon b s = refl

pub name-IsInner : (n : Bytes) → if_name_illegal n ≡ true → IsInner n
unfolding if_name_illegal if_illegal is_alnum
name-IsInner [] h = tt
name-IsInner (c ∷ cs) h =
    ((ground arith, ground arith, ground arith), name-IsInner cs (ground arith))

mutual
  pub scan_block-setting :
      (keys : List Bytes) (d : ℕ) (x : SettingFileRead) (rest : Bytes)
      → IsSetting keys x
      → scan_block (pos (suc (suc d))) (setting_text x ++ rest)
        ≡ setting_text x ++ scan_block (pos (suc (suc d))) rest
  scan_block-setting keys d (setting key name sentence true childs) rest h =
      let b = pos (suc (suc d)) in
      simp append_assoc (
        rw (
          scan_block-inner b key _ h.3,
          scan_block-inner b name _ (name-IsInner name h.4),
          scan_block-open (suc d),
          scan_block-settings keys (suc d) childs _ h.5,
          scan_block-close d,
          scan_block-semicolon b,
        ))
  scan_block-setting keys d (setting key name sentence false childs) rest h =
      let b = pos (suc (suc d)) in
      simp append_assoc (rw (scan_block-inner b sentence _ h.3, scan_block-semicolon b))

  pub scan_block-settings :
      (keys : List Bytes) (d : ℕ) (xs : Settings) (rest : Bytes)
      → AreSettings keys xs
      → scan_block (pos (suc (suc d))) (settings_text xs ++ rest)
        ≡ settings_text xs ++ scan_block (pos (suc (suc d))) rest
  scan_block-settings keys d nil rest h = refl
  scan_block-settings keys d (cons x xs) rest h =
      ap (scan_block (pos (suc (suc d)))) (append_assoc (setting_text x) (settings_text xs) rest)
      ∙ scan_block-setting keys d x (settings_text xs ++ rest) h.0
      ∙ ap (λ t. setting_text x ++ t) (scan_block-settings keys d xs rest h.1)
      ∙ sym (append_assoc (setting_text x) (settings_text xs) _)
