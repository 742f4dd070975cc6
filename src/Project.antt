-- ===== src/Project.antt =====
-- src/cproj_proj.cpp: `Proj`, a project: its description file, its source files and their functions.
pub mod Ordered
pub mod Wording
pub mod Description
pub mod Build
pub mod Rows
pub mod Tables
pub mod Columns
pub mod Update
pub mod Args
pub mod Resync
pub mod Sources
use net_cpp.Base.{
  ℕ, suc, Bool, true, false, Option, none, some, List, [], ◌∷◌, ◌++◌, Bytes, codes, string_eq,
  length, ℤ, pos, negsuc, ◌==◌, if◌then◌else◌,
}
use net_cpp.Outcome.{Outcome, ok, throws, thrown_text, fault, ◌>>=◌, ◌>>◌}
use net_cpp.Settings.{StnRead, read_stn, SettingFileRead, setting, Settings, nil, cons, read_blocks}
use net_cpp.Cpt.{Cpt}

-- `Proj`, without its database. A map stands in the order of its keys.
pub record Proj : Type 0 where
  pub proj_path : Bytes
  pub proj_file : Bytes
  pub name : Bytes
  pub content : Bytes
  pub src_paths : List Bytes
  pub src_files : List (Bytes × ℕ)
  pub used_srcfiles : List (Bytes × ℕ)
  pub src_md5 : List (Bytes × Bytes)
  pub map_paths : List Bytes
  pub cpt_paths : List Bytes
  pub cpts : List Cpt
  pub lib_path : Bytes
  pub func_index : List (Bytes × Cpt)
  pub lib_index : List (Bytes × Bytes)

abbrev pub new_project : Proj
new_project = record {
  proj_path = [];
  proj_file = [];
  name = [];
  content = [];
  src_paths = [];
  src_files = [];
  used_srcfiles = [];
  src_md5 = [];
  map_paths = [];
  cpt_paths = [];
  cpts = [];
  lib_path = [];
  func_index = [];
  lib_index = [];
}

-- `Proj::deal_order`
unfoldable pub deal_order : Bytes → Bytes → Proj → Outcome Proj
unfolding string_eq
deal_order tag arg p =
    if string_eq tag (codes "cpt")
    then ok (record p { cpt_paths = p.cpt_paths ++ arg ∷ [] })
    else if string_eq tag (codes "map")
    then ok (record p { map_paths = p.map_paths ++ arg ∷ [] })
    else if string_eq tag (codes "src_dir")
    then ok (record p { src_paths = p.src_paths ++ arg ∷ [] })
    else if string_eq tag (codes "lib_dir")
    then ok (record p { lib_path = arg })
    else throws thrown_text

-- The keys of blocks and of statements.
abbrev pub project_keys : List Bytes
project_keys = codes "proj" ∷ codes "cpt" ∷ codes "map" ∷ codes "src_dir" ∷ codes "lib_dir" ∷ []

abbrev pub path_keys : List Bytes
path_keys = codes "path" ∷ codes "name" ∷ []

abbrev pub is_empty : Bytes → Bool
is_empty [] = true
is_empty (c ∷ cs) = false

-- `if(!~read_stn(...)) throw`
unfoldable pub project_stn : Bytes → Outcome StnRead
unfolding read_stn
project_stn sentence = do
  (tsread, rtn) ← read_stn path_keys sentence
  elim rtn [ pos n ↦ ok tsread | negsuc n ↦ throws thrown_text ]

-- The loop over the statements of a block "cpt" or "map": the paths that it adds.
unfoldable pub deal_files : Bytes → Bytes → Settings → Outcome (List Bytes)
unfolding project_stn string_eq
deal_files suffix tpath nil = ok []
deal_files suffix tpath (cons (setting key name sentence true childs) more) =
    deal_files suffix tpath more
deal_files suffix tpath (cons (setting key name sentence false childs) more) = do
  tsread ← project_stn sentence
  if string_eq tsread.key (codes "path")
      then (if is_empty tpath then deal_files suffix tsread.value more else throws thrown_text)
      else if string_eq tsread.key (codes "name")
      then (do
        let path = tpath ++ (codes "/" ++ (tsread.value ++ suffix))
        paths ← deal_files suffix tpath more
        ok (path ∷ paths))
      else deal_files suffix tpath more

-- The loop over the statements of a block "src_dir".
unfoldable pub deal_src_dir : Settings → Outcome (List Bytes)
unfolding project_stn string_eq
deal_src_dir nil = ok []
deal_src_dir (cons (setting key name sentence true childs) more) = deal_src_dir more
deal_src_dir (cons (setting key name sentence false childs) more) = do
  tsread ← project_stn sentence
  paths ← deal_src_dir more
  ok (if string_eq tsread.key (codes "path") then tsread.value ∷ paths else paths)

-- The loop over the statements of a block "lib_dir".
unfoldable pub deal_lib_dir : Bytes → Bytes → Settings → Outcome Bytes
unfolding project_stn string_eq
deal_lib_dir tpath lib_path nil = ok lib_path
deal_lib_dir tpath lib_path (cons (setting key name sentence true childs) more) =
    deal_lib_dir tpath lib_path more
deal_lib_dir tpath lib_path (cons (setting key name sentence false childs) more) = do
  tsread ← project_stn sentence
  if string_eq tsread.key (codes "path")
      then (if is_empty tpath
          then deal_lib_dir tsread.value tsread.value more
          else throws thrown_text)
      else deal_lib_dir tpath lib_path more

-- A block of the project.
unfoldable pub deal_block : Bytes → Settings → Proj → Outcome Proj
unfolding deal_files deal_src_dir deal_lib_dir string_eq
deal_block key childs p =
    if string_eq key (codes "cpt")
    then (do
      paths ← deal_files (codes ".cpt") [] childs
      ok (record p { cpt_paths = p.cpt_paths ++ paths }))
    else if string_eq key (codes "map")
    then (do
      paths ← deal_files (codes ".map") [] childs
      ok (record p { map_paths = p.map_paths ++ paths }))
    else if string_eq key (codes "src_dir")
    then (do paths ← deal_src_dir childs; ok (record p { src_paths = p.src_paths ++ paths }))
    else if string_eq key (codes "lib_dir")
    then (if is_empty p.lib_path
        then (do
          lib_path ← deal_lib_dir [] p.lib_path childs
          ok (record p { lib_path = lib_path }))
        else throws thrown_text)
    else ok p

unfoldable pub deal_all_blocks : Settings → Proj → Outcome Proj
unfolding deal_block
deal_all_blocks nil p = ok p
deal_all_blocks (cons (setting key name sentence if_blk childs) more) p = do
  p ← deal_block key childs p
  deal_all_blocks more p

-- The first of the blocks: a vector without one has no first.
unfoldable pub deal_first : Settings → Proj → Outcome Proj
unfolding deal_all_blocks string_eq
deal_first nil p = fault
deal_first (cons (setting key name sentence false childs) more) p = throws thrown_text
deal_first (cons (setting key name sentence true childs) more) p =
    if string_eq key (codes "proj")
    then (if is_empty name
        then throws thrown_text
        else deal_all_blocks childs (record p { name = name }))
    else throws thrown_text

-- `Proj::deal_content`, and the constructor from the text of a database.
unfoldable pub deal_content : Bytes → Proj → Outcome Proj
unfolding read_blocks deal_first
deal_content data_content p = do
  blocks ← read_blocks (suc (length data_content)) project_keys data_content
  deal_first blocks (record p { content = data_content })

unfoldable pub proj_of_content : Bytes → Outcome Proj
unfolding deal_content
proj_of_content data_content = deal_content data_content new_project
