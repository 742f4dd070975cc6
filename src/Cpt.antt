-- ===== src/Cpt.antt =====
-- src/cproj_cpt.cpp: `Cpt`, the description of the functions in the source files of a project. A map
-- is a list of keys and values; `insert` keeps what a key has.
pub mod Arguments
pub mod Lists
pub mod Params
pub mod Tables
pub mod Described
pub mod Functions
pub mod Descriptions
use net_cpp.Base.{
  ℕ, zero, suc, ◌+◌, ◌-◌, ◌^◌, Bool, true, false, not, ◌&&◌, Option, none, some, List, [], ◌∷◌,
  ◌++◌, Bytes, codes, string_eq, length, take, ℤ, pos, negsuc, leb, ltb, if◌then◌else◌,
}
use net_cpp.Number.{skip_space, signed_digits}
use net_cpp.Outcome.{Outcome, ok, reject, throws, fault, thrown_text, ◌>>=◌}
use net_cpp.Settings.{
  find_char, find_char_from, substr, sub_size, is_graph, if_illegal, if_name_illegal, StnRead,
  read_stn, SettingFileRead, setting, Settings, nil, cons, read_blocks,
}

-- `cpt_func_args`
pub record CptFuncArgs : Type 0 where
  pub type : Bytes
  pub size : ℤ
  pub key : Bytes

-- `sr >> size` into an int: 0 where no number stands, and the nearest int to one out of range.
clamp_int : Bool → ℕ → ℤ
clamp_int true zero = pos 0
clamp_int true (suc n) = if ltb n (2 ^ 31) then negsuc n else negsuc (2 ^ 31 - 1)
clamp_int false n = if ltb n (2 ^ 31) then pos n else pos (2 ^ 31 - 1)

stream_value : Outcome (Bool × ℕ) → ℤ
unfolding clamp_int
stream_value (ok (minus, n)) = clamp_int minus n
stream_value _ = pos 0

read_text : ℤ → Bytes → ℤ
unfolding signed_digits stream_value
read_text old [] = old
read_text old (c ∷ cs) = stream_value (signed_digits (c ∷ cs))

-- A text of white space leaves the int as it was.
unfoldable pub stream_int : ℤ → Bytes → ℤ
unfolding skip_space read_text
stream_int old s = read_text old (skip_space s)

-- `substr(i + 1, j - i - 1)`: what stands between two indices.
between : Bytes → ℕ → ℕ → Outcome Bytes
unfolding substr sub_size
between s i j = substr s (i + 1) (sub_size j (i + 1))

abbrev pub stn_keys : List Bytes
stn_keys = codes "int" ∷ codes "double" ∷ []

-- The branches of `deal_arg` on the indices of `[` and `]`.
unfoldable pub deal_brackets : Bytes → Option ℕ → Option ℕ → Outcome CptFuncArgs
unfolding between substr stream_int read_stn
deal_brackets arg (some fq_l) (some fq_r) = do
  size_str ← between arg fq_l fq_r
  type ← substr arg 0 fq_l
  key ← substr arg (fq_r + 1) (length arg - fq_r - 1)
  ok (record { type = type; size = stream_int (pos 1) size_str; key = key })
deal_brackets arg none (some fq_r) = throws thrown_text
deal_brackets arg fq_l none = do
  (stn, _) ← read_stn stn_keys arg
  ok (record { type = stn.key; size = pos 1; key = stn.value })

-- `deal_arg`
unfoldable pub deal_arg : Bytes → Outcome CptFuncArgs
unfolding deal_brackets find_char
deal_arg arg = deal_brackets arg (find_char b'[' arg) (find_char b']' arg)

-- The loop over the chars of a list without a comma: `real_args`.
unfoldable pub graph_chars : Bytes → Outcome Bytes
unfolding is_graph if_illegal
graph_chars [] = ok []
graph_chars (c ∷ cs) =
    if is_graph c
    then (if if_illegal c
        then (do real_args ← graph_chars cs; ok (c ∷ real_args))
        else throws thrown_text)
    else graph_chars cs

-- The loop over the commas, at the index of the one that it found. Each round takes a char at least.
unfoldable pub deal_commas : ℕ → Bytes → ℕ → Option ℕ → Outcome (List CptFuncArgs)
unfolding find_char_from substr deal_arg
deal_commas zero args lcma_dix cma_idx = fault
deal_commas (suc f) args lcma_dix none = ok []
deal_commas (suc f) args lcma_dix (some cma_idx) = do
  arg ← substr args lcma_dix (cma_idx - lcma_dix)
  ncfg ← deal_arg arg
  more ← elim (find_char_from b',' args (cma_idx + 1)) [
    | none ↦ (do
      arg ← substr args (cma_idx + 1) (length args - (cma_idx + 1))
      ncfg ← deal_arg arg
      ok (ncfg ∷ []))
    | some i ↦ deal_commas f args (cma_idx + 1) (some i)
  ]
  ok (ncfg ∷ more)

-- `deal_args`, at the index of the first comma.
unfoldable pub deal_list : Bytes → Option ℕ → Outcome (List CptFuncArgs)
unfolding deal_commas graph_chars deal_arg
deal_list args none = do
  real_args ← graph_chars args
  if ltb 3 (length real_args) then (do ncfg ← deal_arg args; ok (ncfg ∷ [])) else ok []
deal_list args (some cma_idx) = deal_commas (suc (length args)) args 0 (some cma_idx)

unfoldable pub deal_args : Bytes → Outcome (List CptFuncArgs)
unfolding find_char deal_list
deal_args args = deal_list args (find_char b',' args)

-- A function of a source file: its name, its results and its parameters.
pub record CptFunc : Type 0 where
  pub func_name : Bytes
  pub fargs_out : List CptFuncArgs
  pub fargs_in : List CptFuncArgs

-- From the index of the last parenthesis on: the parameters and the name.
unfoldable pub deal_name : Bytes → ℕ → List CptFuncArgs → ℕ → Option ℕ → Outcome CptFunc
unfolding between deal_args if_name_illegal
deal_name sentence dq_r cfgo yq_l none = throws thrown_text
deal_name sentence dq_r cfgo yq_l (some yq_r) = do
  str_argin ← between sentence yq_l yq_r
  cfgi ← deal_args str_argin
  func_name ← between sentence dq_r yq_l
  if if_name_illegal func_name
      then ok (record { func_name = func_name; fargs_out = cfgo; fargs_in = cfgi })
      else throws thrown_text

unfoldable pub deal_ins : Bytes → ℕ → List CptFuncArgs → Option ℕ → Outcome CptFunc
unfolding find_char_from deal_name
deal_ins sentence dq_r cfgo none = throws thrown_text
deal_ins sentence dq_r cfgo (some yq_l) =
    deal_name sentence dq_r cfgo yq_l (find_char_from b')' sentence yq_l)

unfoldable pub deal_outs : Bytes → Option ℕ → Option ℕ → Outcome CptFunc
unfolding between deal_args find_char_from deal_ins
deal_outs sentence none dq_r = throws thrown_text
deal_outs sentence (some dq_l) none = throws thrown_text
deal_outs sentence (some dq_l) (some dq_r) = do
  str_argout ← between sentence dq_l dq_r
  cfgo ← deal_args str_argout
  deal_ins sentence dq_r cfgo (find_char_from b'(' sentence (dq_r + 1))

-- The body of the loop over the functions, for a statement.
unfoldable pub deal_func : Bytes → Outcome CptFunc
unfolding find_char deal_outs
deal_func sentence = deal_outs sentence (find_char b'(' sentence) (find_char b')' sentence)

-- `Cpt`, without its path.
pub record Cpt : Type 0 where
  pub src_files : List Bytes
  pub funcs_src : List (Bytes × Bytes)
  pub fargs_in : List (Bytes × List CptFuncArgs)
  pub fargs_out : List (Bytes × List CptFuncArgs)
  pub name : Bytes
  pub content : Bytes

-- `map::insert`
unfoldable pub insert_new {ℓ} : {V : Type ℓ} → Bytes → V → List (Bytes × V) → List (Bytes × V)
insert_new k v [] = (k, v) ∷ []
insert_new k v ((j, w) ∷ m) = if string_eq j k then (j, w) ∷ m else (j, w) ∷ insert_new k v m

unfoldable pub add_func : Bytes → CptFunc → Cpt → Cpt
unfolding insert_new
add_func tsrc_name f c = record c {
  funcs_src = insert_new f.func_name tsrc_name c.funcs_src;
  fargs_out = insert_new f.func_name f.fargs_out c.fargs_out;
  fargs_in = insert_new f.func_name f.fargs_in c.fargs_in;
}

-- The loop over the settings of a source file: blocks are passed over.
unfoldable pub deal_funcs : Bytes → Settings → Cpt → Outcome Cpt
unfolding deal_func add_func
deal_funcs tsrc_name nil c = ok c
deal_funcs tsrc_name (cons (setting key name sentence true childs) more) c =
    deal_funcs tsrc_name more c
deal_funcs tsrc_name (cons (setting key name sentence false childs) more) c = do
  f ← deal_func sentence
  deal_funcs tsrc_name more (add_func tsrc_name f c)

-- The loop over the settings of the project.
unfoldable pub deal_srcs : Settings → Cpt → Outcome Cpt
unfolding deal_funcs string_eq
deal_srcs nil c = ok c
deal_srcs (cons (setting key name sentence if_blk childs) more) c =
    if string_eq key (codes "srcfile")
    then (do
      let tsrc_name = name ++ codes ".cpp"
      c ← deal_funcs tsrc_name childs (record c { src_files = c.src_files ++ tsrc_name ∷ [] })
      deal_srcs more c)
    else deal_srcs more c

-- The search for the block of the project: what its loop runs over, none for a statement.
unfoldable pub find_project : Bytes → Settings → Outcome Settings
unfolding string_eq
find_project name nil = throws thrown_text
find_project name (cons (setting key block_name sentence if_blk childs) more) =
    if string_eq block_name name
    then ok (if if_blk then childs else nil)
    else find_project name more

abbrev pub block_keys : List Bytes
block_keys = codes "cparts" ∷ codes "srcfile" ∷ []

-- `Cpt::deal_content`
unfoldable pub deal_content : Bytes → Cpt → Outcome Cpt
unfolding read_blocks find_project deal_srcs
deal_content data_content c = do
  blocks ← read_blocks (suc (length data_content)) block_keys data_content
  childs ← find_project c.name blocks
  deal_srcs childs (record c { content = data_content })

-- The constructors: the text is that of `read_settings`, or comes from the database.
unfoldable pub new_cpt : Bytes → Bytes → Outcome Cpt
unfolding deal_content
new_cpt data_content proj_name = deal_content data_content (record {
  src_files = [];
  funcs_src = [];
  fargs_in = [];
  fargs_out = [];
  name = proj_name;
  content = [];
})
