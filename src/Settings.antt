-- ===== src/Settings.antt =====
-- include/cproj.h: `setting_file`, the parser of project and part files, with the operations of
-- std::string that it uses. Chars are those of the C locale.
pub mod Files
pub mod Totality
pub mod Finding
pub mod Text
pub mod Rounds
pub mod RoundTrip
use net_cpp.Base.{
  ℕ, zero, suc, ◌+◌, ◌-◌, ◌%◌, ◌^◌, Bool, true, false, ◌&&◌, ◌||◌, Option, none, some, List, [],
  ◌∷◌, ◌++◌, Bytes, codes, length, take, drop, ℤ, pos, negsuc, ◌+ℤ◌, eqb_ℤ, leb, ◌==◌,
  if◌then◌else◌,
}
use net_cpp.Outcome.{Outcome, ok, throws, fault, thrown_text, out_of_range, ◌>>=◌}

-- `s.find(c)` for one char: none is npos.
unfoldable pub find_char : ℕ → Bytes → Option ℕ
find_char c [] = none
find_char c (x ∷ xs) =
    if x == c then some 0 else elim (find_char c xs) [ none ↦ none | some i ↦ some (suc i) ]

-- `s.find(c, i)`
unfoldable pub find_char_from : ℕ → Bytes → ℕ → Option ℕ
unfolding find_char
find_char_from c s i = elim (find_char c (drop i s)) [ none ↦ none | some j ↦ some (i + j) ]

-- `s.rfind(c)`
unfoldable pub rfind_char : ℕ → Bytes → Option ℕ
rfind_char c [] = none
rfind_char c (x ∷ xs) = elim (rfind_char c xs) [
  | some i ↦ some (suc i)
  | none ↦ if x == c then some 0 else none
]

unfoldable pub starts_with : Bytes → Bytes → Bool
starts_with [] s = true
starts_with (c ∷ cs) [] = false
starts_with (c ∷ cs) (x ∷ xs) = x == c && starts_with cs xs

-- `s.find(key) != npos`
unfoldable pub contains : Bytes → Bytes → Bool
unfolding starts_with
contains key [] = starts_with key []
contains key (x ∷ xs) = starts_with key (x ∷ xs) || contains key xs

-- `s.substr(i, n)`
unfoldable pub substr : Bytes → ℕ → ℕ → Outcome Bytes
substr s i n = if leb i (length s) then ok (take n (drop i s)) else throws out_of_range

-- `a - b` on size_t.
unfoldable pub sub_size : ℕ → ℕ → ℕ
sub_size a b = (a + 2 ^ 64 - b) % 2 ^ 64

unfoldable pub is_alnum : ℕ → Bool
is_alnum c =
    (leb b'0' c && leb c b'9') || ((leb b'A' c && leb c b'Z') || (leb b'a' c && leb c b'z'))

-- `isgraph`
unfoldable pub is_graph : ℕ → Bool
is_graph c = leb 33 c && leb c 126

-- `if_illegal`: true for the chars that a name may have.
unfoldable pub if_illegal : ℕ → Bool
unfolding is_alnum
if_illegal c = is_alnum c || c == b'_'

-- `if_name_illegal`: true for a name of such chars.
unfoldable pub if_name_illegal : Bytes → Bool
unfolding if_illegal
if_name_illegal [] = true
if_name_illegal (c ∷ cs) = if_illegal c && if_name_illegal cs

-- The loop of `read_settings` over the bytes of a file.
unfoldable pub read_settings : Bytes → Bytes
unfolding is_graph
read_settings [] = []
read_settings (c ∷ cs) = if is_graph c then c ∷ read_settings cs else read_settings cs

-- `setting_file_read`, and `vector<setting_file_read *>`.
mutual
  pub data SettingFileRead : Type 0 where
    setting : Bytes → Bytes → Bytes → Bool → Settings → SettingFileRead

  pub data Settings : Type 0 where
    nil : Settings
    cons : SettingFileRead → Settings → Settings

-- The loop over the chars of `tstr` from the state of `blk_stack`: what `pcsstr` gets.
unfoldable pub scan_block : ℤ → Bytes → Bytes
scan_block blk_stack [] = []
scan_block blk_stack (c ∷ cs) =
    if c == b'{'
    then c ∷ scan_block (blk_stack +ℤ pos 1) cs
    else if c == b'}'
    then (if eqb_ℤ (blk_stack +ℤ negsuc 0) (pos 1)
        then c ∷ []
        else c ∷ scan_block (blk_stack +ℤ negsuc 0) cs)
    else c ∷ scan_block blk_stack cs

-- `brq_idx = pcsstr.rfind('}') + 1`, where npos + 1 is 0.
unfoldable pub block_end : Bytes → ℕ
unfolding rfind_char
block_end pcsstr = elim (rfind_char b'}' pcsstr) [ none ↦ 0 | some i ↦ i + 1 ]

-- The loop over the keywords: none where no keyword stands in the head.
unfoldable pub block_head : List Bytes → Bytes → ℕ → Outcome (Option (Bytes × Bytes))
unfolding contains substr if_name_illegal
block_head [] pcsstr blq_idx = ok none
block_head (key ∷ keys) pcsstr blq_idx =
    if contains key (take blq_idx pcsstr)
    then (do
      keystr ← substr pcsstr 0 (length key)
      namestr ← substr pcsstr (length key) (blq_idx - length key)
      if if_name_illegal namestr then ok (some (keystr, namestr)) else throws thrown_text)
    else block_head keys pcsstr blq_idx

-- `ptsfbr->key.empty()`
unfoldable pub named_head : Option (Bytes × Bytes) → Outcome (Bytes × Bytes)
named_head none = throws thrown_text
named_head (some ([], namestr)) = throws thrown_text
named_head (some (k ∷ ks, namestr)) = ok (k ∷ ks, namestr)

-- What a round of `read_blocks` finds: no `;` is left, a statement, or a block with its key, its name
-- and the text between its braces, each with the index behind it.
pub data Found : Type 0 where
  finished : Found
  statement : Bytes → ℕ → Found
  block : Bytes → Bytes → Bytes → ℕ → Found

-- A block, whose brace stands at `blq_idx`.
unfoldable pub found_block : List Bytes → Bytes → ℕ → Outcome Found
unfolding scan_block block_end block_head named_head substr sub_size
found_block block_keys tstr blq_idx = do
  let pcsstr = scan_block (pos 1) tstr
  let brq_idx = block_end pcsstr
  found ← block_head block_keys pcsstr blq_idx
  (keystr, namestr) ← named_head found
  inblkstr ← substr pcsstr (blq_idx + 1) (sub_size brq_idx (blq_idx + 2))
  ok (block keystr namestr inblkstr (brq_idx + 1))

-- A statement, if no brace stands in front of the `;`.
unfoldable pub found_setting : List Bytes → Bytes → ℕ → Option ℕ → Outcome Found
unfolding found_block
found_setting block_keys tstr sem_idx none = ok (statement (take sem_idx tstr) (sem_idx + 1))
found_setting block_keys tstr sem_idx (some blq_idx) = found_block block_keys tstr blq_idx

found_to : List Bytes → Bytes → Option ℕ → Outcome Found
unfolding found_setting find_char
found_to block_keys tstr none = ok finished
found_to block_keys tstr (some sem_idx) =
    found_setting block_keys tstr sem_idx (find_char b'{' (take sem_idx tstr))

-- A round of `read_blocks`, where `curs_idx` is 0.
unfoldable pub next_setting : List Bytes → Bytes → Outcome Found
unfolding find_char found_to
next_setting block_keys tstr = found_to block_keys tstr (find_char b';' tstr)

-- `tstr.substr(curs_idx, tstr.size() - curs_idx)`
abbrev pub rest_from : Bytes → ℕ → Outcome Bytes
rest_from tstr curs_idx = substr tstr curs_idx (length tstr - curs_idx)

-- The rest of a round, where `rec` reads the text of a block and what is behind the setting.
unfoldable pub after_setting : (Bytes → Outcome Settings) → Bytes → Found → Outcome Settings
unfolding substr
after_setting rec tstr finished = ok nil
after_setting rec tstr (statement sentence curs_idx) = do
  rest ← rest_from tstr curs_idx
  more ← rec rest
  ok (cons (setting [] [] sentence false nil) more)
after_setting rec tstr (block key name inblkstr curs_idx) = do
  childs ← rec inblkstr
  rest ← rest_from tstr curs_idx
  more ← rec rest
  ok (cons (setting key name [] true childs) more)

-- `read_blocks`: each round and each block takes a char at least.
unfoldable pub read_blocks : ℕ → List Bytes → Bytes → Outcome Settings
unfolding next_setting after_setting
read_blocks zero block_keys tstr = fault
read_blocks (suc f) block_keys [] = ok nil
read_blocks (suc f) block_keys (c ∷ cs) =
    next_setting block_keys (c ∷ cs) >>= after_setting (read_blocks f block_keys) (c ∷ cs)

-- `stn_read`
pub record StnRead : Type 0 where
  pub key : Bytes
  pub value : Bytes

-- `read_stn`, which returns 0 or -1.
unfoldable pub read_stn : List Bytes → Bytes → Outcome (StnRead × ℤ)
unfolding contains substr
read_stn [] stn_str = ok (record { key = []; value = [] }, negsuc 0)
read_stn (key ∷ stn_keys) stn_str =
    if contains key stn_str
    then (do
      value ← substr stn_str (length key) (length stn_str - length key)
      ok (record { key = key; value = value }, if leb (length key) 0 then negsuc 0 else pos 0))
    else read_stn stn_keys stn_str
