-- ===== src/Project/Build.antt =====
-- What `Proj` asks of the file system, the compiler and the linker, and its tables of files and
-- functions.
use net_cpp.Base.{
  ℕ, suc, ◌+◌, Bool, not, ◌&&◌, Option, none, some, List, [], ◌∷◌, ◌++◌, Bytes, codes, length,
  get_elem?, ℤ, pos, negsuc, eqb_ℤ, ◌==◌, if◌then◌else◌,
}
use net_cpp.Outcome.{Outcome, ok, throws, thrown_text, thrown_string, fault, ◌>>=◌, ◌>>◌}
use net_cpp.Settings.{contains}
use net_cpp.Settings.Files.{settings_of_file}
use net_cpp.Cpt.{Cpt, new_cpt}
use net_cpp.Project.{Proj, new_project, deal_content}
use net_cpp.Project.Ordered.{find_key, insert_key, found}

-- The modes of `access`.
pub data Mode : Type 0 where
  r_ok w_ok x_ok f_ok : Mode

-- `struct dirent`
pub record DirEntry : Type 0 where
  pub d_name : Bytes
  pub d_type : ℕ

-- The operating system, MD5, the compiler and the linker: `access` and `mkdir` are true where the
-- call succeeds, `access` with f_ok also for `stat`, `read_dir` has the entries of a directory,
-- `log_size` the size of gcc_build.log behind a command, and `dlopen` the symbols of a library.
pub record Machine : Type 0 where
  pub access : Mode → Bytes → Bool
  pub mkdir : Bytes → Bool
  pub read_dir : Bytes → Option (List DirEntry)
  pub file : Bytes → Bytes
  pub compute_file : Bytes → Bytes
  pub system : Bytes → ℤ
  pub log_size : Bytes → ℕ
  pub dlopen : Bytes → Option (Bytes → Bool)

abbrev pub need : Bool → Outcome (Unit {0})
need b = if b then ok tt else throws thrown_text

-- The constructor from a directory and a file: it looks at the last char of `proj_path`, which is
-- still empty, and so at a byte in front of it.
unfoldable pub project_dir : ℕ → Bytes → Bytes
project_dir byte_before t_projpath =
    if byte_before == b'/' then t_projpath else t_projpath ++ codes "/"

-- Where a source file stands: the directory of its number.
unfoldable pub source_dir : ℕ → Proj → Outcome Bytes
source_dir idx p = elim (get_elem? p.src_paths idx) [ none ↦ fault | some path ↦ ok path ]

-- The loops of `BuildFuncIndex`.
unfoldable pub index_funcs : Cpt → List (Bytes × Bytes) → Proj → Proj
unfolding insert_key
index_funcs pcpt [] p = p
index_funcs pcpt (func ∷ more) p =
    index_funcs pcpt more (record p { func_index = insert_key func.0 pcpt p.func_index })

unfoldable pub index_cpts : List Cpt → Proj → Proj
unfolding index_funcs
index_cpts [] p = p
index_cpts (pcpt ∷ more) p = index_cpts more (index_funcs pcpt pcpt.funcs_src p)

unfoldable pub build_func_index : Proj → Proj
unfolding index_cpts
build_func_index p = index_cpts p.cpts p

-- The loop of `search_src` over a directory.
unfoldable pub add_entries : ℕ → List DirEntry → List (Bytes × ℕ) → List (Bytes × ℕ)
unfolding contains insert_key
add_entries idx [] src_files = src_files
add_entries idx (ptr ∷ more) src_files = add_entries idx more (
    if ptr.d_type == 8 && contains (codes ".cpp") ptr.d_name
    then insert_key ptr.d_name idx src_files
    else src_files)

-- The symbols of a function in its library.
unfoldable pub check_symbols : Bytes → (Bytes → Bool) → Outcome (Unit {0})
check_symbols func dlsym =
    if dlsym func
    then (do
      need (dlsym (codes "__" ++ (func ++ codes "_args_in")))
      need (dlsym (codes "__" ++ (func ++ codes "_args_out"))))
    else throws thrown_string

abbrev pub lib_name_of : Bytes → Bytes
lib_name_of src_name = codes "lib_" ++ (src_name ++ codes ".so")

module _ (m : Machine) where
  open m use {access, read_dir, file, compute_file, system, log_size, dlopen}

  unfoldable pub new_proj : ℕ → Bytes → Bytes → Outcome Proj
  unfolding project_dir settings_of_file deal_content
  new_proj byte_before t_projpath t_projfile = do
    need (access r_ok t_projpath)
    let proj_path = project_dir byte_before t_projpath
    need (access r_ok (proj_path ++ t_projfile))
    let text = file (proj_path ++ t_projfile)
    tifsproj ← settings_of_file (suc (length text)) text
    deal_content tifsproj (record new_project { proj_path = proj_path; proj_file = t_projfile })

  -- `check_paths`
  unfoldable pub check_paths : Bytes → List Bytes → Outcome (Unit {0})
  check_paths main_path [] = ok tt
  check_paths main_path (path ∷ paths) =
      if access f_ok (main_path ++ path) then check_paths main_path paths else throws thrown_string

  -- `GeneralCheckInfo`
  unfoldable pub general_check_info : Proj → Outcome (Unit {0})
  unfolding check_paths
  general_check_info p = do
    need (access w_ok (p.proj_path ++ p.lib_path))
    check_paths p.proj_path p.src_paths
    check_paths p.proj_path p.map_paths
    check_paths p.proj_path p.cpt_paths

  unfoldable pub search_src : ℕ → Bytes → Proj → Outcome Proj
  unfolding add_entries
  search_src idx path p = elim (read_dir path) [
    | none ↦ throws thrown_text
    | some entries ↦ ok (record p { src_files = add_entries idx entries p.src_files })
  ]

  -- `build_cpts`
  unfoldable pub build_cpts : List Bytes → Proj → Outcome Proj
  unfolding settings_of_file new_cpt
  build_cpts [] p = ok p
  build_cpts (cptp ∷ more) p = do
    let text = file (p.proj_path ++ cptp)
    content ← settings_of_file (suc (length text)) text
    ncpt ← new_cpt content p.name
    build_cpts more (record p { cpts = p.cpts ++ ncpt ∷ [] })

  unfoldable pub search_dirs : ℕ → List Bytes → Proj → Outcome Proj
  unfolding search_src
  search_dirs idx [] p = ok p
  search_dirs idx (path ∷ more) p = do
    p ← search_src idx (p.proj_path ++ path) p
    search_dirs (idx + 1) more p

  -- `SearchInfo`
  unfoldable pub search_info : Proj → Outcome Proj
  unfolding search_dirs build_cpts
  search_info p = do p ← search_dirs 0 p.src_paths p; build_cpts p.cpt_paths p

  -- The loop of `check_cpt` over the source files of a cpt.
  unfoldable pub check_files : List Bytes → Proj → Outcome Proj
  unfolding find_key insert_key source_dir
  check_files [] p = ok p
  check_files (f ∷ more) p = elim (find_key f p.src_files) [
    | none ↦ throws thrown_text
    | some idx ↦ (do
      tsrc_path ← source_dir idx p
      let md5 = compute_file ((p.proj_path ++ tsrc_path) ++ (codes "/" ++ f))
      check_files more (record p {
        used_srcfiles = insert_key f idx p.used_srcfiles;
        src_md5 = insert_key f md5 p.src_md5;
      }))
  ]

  -- `check_cpt`, `CheckCptInfo`
  unfoldable pub check_cpt : List Cpt → Proj → Outcome Proj
  unfolding check_files
  check_cpt [] p = ok p
  check_cpt (cpt ∷ more) p = do p ← check_files cpt.src_files p; check_cpt more p

  -- `build_src`
  unfoldable pub build_src : Bytes → Bytes → Bytes → Outcome (Unit {0})
  build_src lib_name srcfile_path libs_path =
      let command =
        codes "g++ -fPIC -shared -std=c++11 -o "
        ++ (libs_path
            ++ (codes "/"
                ++ (lib_name ++ (codes " " ++ (srcfile_path ++ codes " >gcc_build.log 2>&1"))))) in
      let rtn = system command in
      if not (eqb_ℤ rtn (negsuc 0)) && not (eqb_ℤ rtn (pos 127))
      then need (log_size command == 0)
      else throws thrown_text

  -- `compile_srcfile`
  unfoldable pub compile_srcfile : Bytes → Bytes → Proj → Outcome Proj
  unfolding build_src insert_key
  compile_srcfile src_name src_path p = do
    let tlib_name = lib_name_of src_name
    build_src tlib_name ((p.proj_path ++ src_path) ++ (codes "/" ++ src_name))
        (p.proj_path ++ p.lib_path)
    ok (record p { lib_index = insert_key src_name tlib_name p.lib_index })

  -- `CompileUsedSrcFiles`, whose body is that of `compile_srcfile`.
  unfoldable pub compile_used : List (Bytes × ℕ) → Proj → Outcome Proj
  unfolding source_dir compile_srcfile
  compile_used [] p = ok p
  compile_used ((src, idx) ∷ more) p = do
    tsrc_path ← source_dir idx p
    p ← compile_srcfile src tsrc_path p
    compile_used more p

  -- `CheckFuncInfo`
  unfoldable pub check_func_info : List (Bytes × Cpt) → Proj → Outcome (Unit {0})
  unfolding found check_symbols
  check_func_info [] p = ok tt
  check_func_info ((func, pcpt) ∷ more) p = do
    src_file ← found func pcpt.funcs_src
    tlib_name ← found src_file p.lib_index
    elim (dlopen ((p.proj_path ++ p.lib_path) ++ (codes "/" ++ tlib_name))) [
      | none ↦ throws thrown_text
      | some dlsym ↦ check_symbols func dlsym
    ]
    check_func_info more p
