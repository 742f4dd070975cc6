-- ===== src/Tests/Projects.antt =====
-- A project with two source directories, and a database with its tables.
use net_cpp.Base.{
  ◌⊎◌, negsuc, eqb_ℤ, ℕ, ◌-◌, ◌≤◌, ◌≡◌, ◌↔◌, refl, Bool, true, false, Option, none, some, List, [],
  ◌∷◌, ◌++◌, Bytes, codes, string_eq, string_eq_iff, length, take, pos, if◌then◌else◌, All, arith,
}
use net_cpp.Outcome.{ok}
use net_cpp.Settings.{contains, starts_with, if_name_illegal}
use net_cpp.Settings.Text.{settings_text}
use net_cpp.Cpt.{Cpt, CptFuncArgs}
use net_cpp.Project.{Proj, new_project, proj_of_content}
use net_cpp.Project.Wording.{ProjectText, project_settings, all_paths, joined, IsText}
use net_cpp.Project.Description.{proj_of_content-project_settings}
use net_cpp.Project.Ordered.{found, find_key, insert_key}
use net_cpp.Project.Build.{Machine, source_dir, build_src, compile_srcfile}
use net_cpp.Project.Rows.{ArgRow, Column, Sqlite}
use net_cpp.Project.Tables.{arg_rows, insert_args, write_args}
use net_cpp.Project.Columns.{check_table, check_table_iff}
use net_cpp.Project.Update.{
  args_changed, same_arg, compare_args, update_args, update_src, update_srcs,
}
use net_cpp.Project.Args.{StartWith, all_rows, args_changed_iff}
use net_cpp.Project.Resync.{Keeps, update_args-again}
use net_cpp.Project.Sources.{set_md5, Sets, IsBuilt, IsCurrent, update_srcs-again}

abbrev some_text : ProjectText
some_text = record {
  name = codes "Net";
  cpts = record { path = codes "cpts"; names = codes "math" ∷ codes "text" ∷ [] } ∷ [];
  maps = record { path = codes "maps"; names = codes "flow" ∷ [] } ∷ [];
  src_dirs = (codes "src" ∷ codes "more" ∷ []) ∷ [];
  lib_dir = codes "libs";
}

some_text-IsText : IsText some_text
unfolding if_name_illegal contains starts_with
some_text-IsText = record {
  legal = refl;
  some_name = λ (e : codes "Net" ≡ []). cc;
  cpts_ok = ((omega arith, ((omega arith, refl), ((omega arith, refl), tt))), tt);
  maps_ok = ((omega arith, ((omega arith, refl), tt)), tt);
  srcs_ok = ((omega arith, (omega arith, tt)), tt);
  lib_ok = omega arith;
}

proj_of_content-project_settings_example :
    let content = settings_text (project_settings some_text) in
    proj_of_content content
    ≡ ok (record new_project {
      name = some_text.name;
      content = content;
      cpt_paths = all_paths (codes ".cpt") some_text.cpts;
      map_paths = all_paths (codes ".map") some_text.maps;
      src_paths = joined some_text.src_dirs;
      lib_path = some_text.lib_dir;
    })
proj_of_content-project_settings_example =
    proj_of_content-project_settings some_text some_text-IsText (omega arith)

abbrev id_column : Column
id_column = record { name = codes "id"; type = codes "INT"; notnull = 1; pk = 1 }

abbrev name_column : Column
name_column = record { name = codes "name"; type = codes "TEXT"; notnull = 1; pk = 0 }

abbrev wrong_column : Column
wrong_column = record { name = codes "wrong"; type = codes "BLOB"; notnull = 0; pk = 0 }

check_table_iff_example :
    let sctc = id_column ∷ name_column ∷ [] in
    let rows = id_column ∷ wrong_column ∷ [] in
    (check_table 2 sctc rows ≡ ok tt)
    ↔ ((take (2 - 1) rows ≡ take (2 - 1) sctc) × (2 - 1 ≤ length rows) × (1 ≤ length rows))
check_table_iff_example =
    check_table_iff 2 (id_column ∷ name_column ∷ []) (id_column ∷ wrong_column ∷ []) (omega arith)

abbrev a_arg : CptFuncArgs
a_arg = record { type = codes "int"; size = pos 1; key = codes "a" }

abbrev r_arg : CptFuncArgs
r_arg = record { type = codes "double"; size = pos 1; key = codes "r" }

abbrev a_row : ArgRow
a_row = record { id = 0; type = codes "int"; idx = 0; io = 0; key = codes "a"; size = pos 1 }

abbrev r_row : ArgRow
r_row = record { id = 1; type = codes "double"; idx = 0; io = 1; key = codes "r"; size = pos 1 }

args_changed_iff_example :
    (args_changed (a_arg ∷ []) (r_arg ∷ []) (a_row ∷ r_row ∷ a_row ∷ []) ≡ ok false)
    ↔ StartWith (all_rows (a_arg ∷ []) (r_arg ∷ [])) (a_row ∷ r_row ∷ a_row ∷ [])
args_changed_iff_example = args_changed_iff (a_arg ∷ []) (r_arg ∷ []) (a_row ∷ r_row ∷ a_row ∷ [])

-- A database with the MD5 of the source files, and the tables of functions.
pub record Tables : Type 0 where
  pub digests : Bytes → Option Bytes
  pub fargs : Bytes → List ArgRow

abbrev with_row : Bytes → ArgRow → Tables → Tables
with_row func r t = record t {
  fargs = λ n. if string_eq func n then t.fargs n ++ r ∷ [] else t.fargs n;
}

abbrev without_rows : Bytes → Tables → Tables
without_rows func t = record t { fargs = λ n. if string_eq func n then [] else t.fargs n }

abbrev set_digest : Bytes → Bool → Option Bytes → Option Bytes
set_digest md5 same none = none
set_digest md5 same (some old) = if same then some md5 else some old

abbrev sqlite : Sqlite
sqlite = record {
  Db = Tables;
  opens = λ path. true;
  run = λ sql t. (t, 0);
  rows = λ sql t. [];
  insert_src = λ r t. t;
  insert_lib = λ r t. t;
  insert_func = λ r t. t;
  insert_arg = with_row;
  insert_cpt = λ r t. t;
  insert_proj = λ r t. t;
  count_src = λ n t. 1;
  count_lib = λ n t. 1;
  count_func = λ n t. 1;
  last_src = λ t. 0;
  last_lib = λ t. 0;
  last_func = λ t. 0;
  src_md5 = λ n t. t.digests n;
  update_md5 =
      λ md5 name t. record t { digests = λ n. set_digest md5 (string_eq name n) (t.digests n) };
  args = λ func t. t.fargs func;
  delete_args = without_rows;
  delete_cpts = λ t. t;
  delete_projs = λ t. t;
  table_count = λ n t. 1;
  table_info = λ n t. [];
  project_name = λ t. none;
}

sqlite-Keeps : Keeps sqlite
sqlite-Keeps = record {
  args-insert_arg = λ func r t fresh. rw ((string_eq_iff func func).1 refl) refl;
  args-delete_args = λ func t. rw ((string_eq_iff func func).1 refl) refl;
}

abbrev sum_cpt : Cpt
sum_cpt = record {
  src_files = codes "sum.cpp" ∷ [];
  funcs_src = (codes "sum", codes "sum.cpp") ∷ [];
  fargs_in = (codes "sum", a_arg ∷ []) ∷ [];
  fargs_out = (codes "sum", r_arg ∷ []) ∷ [];
  name = codes "Net";
  content = [];
}

-- The table of "sum" has another parameter.
abbrev old_tables : Tables
old_tables = record {
  digests = λ n. some (codes "old");
  fargs = λ n. record a_row { key = codes "b" } ∷ r_row ∷ [];
}

abbrev new_tables : Tables
new_tables =
    with_row (codes "sum") r_row
      (with_row (codes "sum") a_row (without_rows (codes "sum") old_tables))

update_args-again_example : update_args sqlite (codes "sum") sum_cpt new_tables ≡ ok new_tables
unfolding update_args found find_key args_changed compare_args same_arg string_eq write_args
    insert_args arg_rows
update_args-again_example =
    update_args-again sqlite sqlite-Keeps (codes "sum") sum_cpt old_tables new_tables refl

set_digest-set_md5 :
    (md5 : Bytes) (same : Bool) (o : Option Bytes)
    → set_digest md5 same o ≡ (if same then set_md5 md5 o else o)
set_digest-set_md5 md5 true none = refl
set_digest-set_md5 md5 false none = refl
set_digest-set_md5 md5 same (some old) = ground arith

sqlite-Sets : (m : Machine) → Sets m sqlite
sqlite-Sets m md5 name n t = set_digest-set_md5 md5 (string_eq name n) (t.digests n)

abbrev machine : Machine
machine = record {
  access = λ mode path. true;
  mkdir = λ path. true;
  read_dir = λ path. none;
  file = λ path. [];
  compute_file = λ path. codes "md5 of " ++ path;
  system = λ command. pos 0;
  log_size = λ command. 0;
  dlopen = λ path. none;
}

abbrev used_project : Proj
used_project = record new_project {
  proj_path = codes "/p/";
  src_paths = codes "src" ∷ [];
  lib_path = codes "libs";
}

abbrev compiled_project : Proj
compiled_project = record used_project {
  lib_index = (codes "sum.cpp", codes "lib_sum.cpp.so") ∷ [];
}

abbrev current_tables : Tables
current_tables = sqlite.update_md5 (codes "md5 of /p/src/sum.cpp") (codes "sum.cpp") old_tables

abbrev used_files : List (Bytes × ℕ)
used_files = (codes "sum.cpp", 0) ∷ []

-- A compiler that always fails.
abbrev failing : Machine
failing = record machine { system = λ command. negsuc 0; log_size = λ command. 1 }

update_srcs-again_example :
    All (IsCurrent machine sqlite compiled_project current_tables) used_files
    × All
        (λ s.
          IsCurrent machine sqlite used_project old_tables s
          ⊎ IsBuilt machine sqlite used_project s)
        used_files
    × (update_srcs failing sqlite used_files compiled_project current_tables
        ≡ ok (compiled_project, current_tables))
unfolding update_srcs update_src source_dir compile_srcfile build_src insert_key string_eq eqb_ℤ
update_srcs-again_example =
    update_srcs-again machine sqlite (sqlite-Sets machine) used_files (λ command. negsuc 0)
      (λ command. 1) used_project compiled_project old_tables current_tables (tt, tt) refl
