-- ===== src/Project/Update.antt =====
-- `UpdateProcess` of src/cproj_proj.cpp: a database is brought up to date with the files.
use net_cpp.Base.{
  ℕ, ◌+◌, Bool, true, false, not, ◌&&◌, ◌||◌, none, some, List, [], ◌∷◌, ◌++◌, Bytes, codes,
  string_eq, eqb_ℤ, ◌==◌, if◌then◌else◌,
}
use net_cpp.Outcome.{Outcome, ok, fault, ◌>>=◌, ◌>>◌}
use net_cpp.Cpt.{Cpt, CptFuncArgs}
use net_cpp.Project.{Proj}
use net_cpp.Project.Ordered.{found}
use net_cpp.Project.Build.{
  Machine, source_dir, general_check_info, search_info, check_cpt, build_func_index,
  compile_srcfile,
}
use net_cpp.Project.Rows.{SrcRow, ArgRow, Sqlite}
use net_cpp.Project.Tables.{
  write_new_func, write_args, write_args_info, write_cpt_info, write_proj_info,
}
use net_cpp.Project.Columns.{attach_databases}

unfoldable pub same_arg : ℕ → ℕ → CptFuncArgs → ArgRow → Bool
unfolding string_eq
same_arg io idx farg r =
    r.idx == idx
    && r.io == io
    && string_eq r.type farg.type
    && string_eq r.key farg.key
    && eqb_ℤ r.size farg.size

-- A loop over the parameters, along the rows of a statement: whether they differ, and where the
-- statement stands. The text of a row that is not there is NULL.
unfoldable pub compare_args : ℕ → ℕ → List CptFuncArgs → List ArgRow → Outcome (Bool × List ArgRow)
unfolding same_arg
compare_args io idx [] rows = ok (false, rows)
compare_args io idx (farg ∷ more) [] = fault
compare_args io idx (farg ∷ more) (r ∷ rows) =
    if same_arg io idx farg r then compare_args io (idx + 1) more rows else ok (true, r ∷ rows)

-- `if_changed`, behind both loops.
unfoldable pub args_changed : List CptFuncArgs → List CptFuncArgs → List ArgRow → Outcome Bool
unfolding compare_args
args_changed ins outs rows = do
  (ins_changed, rows) ← compare_args 0 0 ins rows
  (outs_changed, rows) ← compare_args 1 0 outs rows
  ok (ins_changed || outs_changed)

module _ (q : Sqlite) where
  open q use {Db, insert_lib, count_lib, count_func, last_lib, args, delete_args}

  -- The loop over the libraries, behind the last number.
  unfoldable pub add_libs : ℕ → List (Bytes × Bytes) → Db → Db
  add_libs last_id [] db = db
  add_libs last_id (lib ∷ more) db =
      let if_find = not (count_lib lib.1 db == 0) in
      add_libs (if if_find then last_id else last_id + 1) more
        (if if_find then db else insert_lib (record { id = last_id + 1; name = lib.1 }) db)

  -- The loop over the functions that are not there yet.
  unfoldable pub add_func : Bytes → Cpt → Proj → Db → Outcome Db
  unfolding write_new_func write_args_info
  add_func func pcpt p db =
      if count_func func db == 0
      then (do db ← write_new_func q func pcpt p db; write_args_info q func pcpt db)
      else ok db

  unfoldable pub add_funcs : List (Bytes × Cpt) → Proj → Db → Outcome Db
  unfolding add_func
  add_funcs [] p db = ok db
  add_funcs ((func, pcpt) ∷ more) p db = do db ← add_func func pcpt p db; add_funcs more p db

  -- The loop over the parameters of the functions.
  unfoldable pub update_args : Bytes → Cpt → Db → Outcome Db
  unfolding found args_changed write_args
  update_args func pcpt db = do
    ins ← found func pcpt.fargs_in
    outs ← found func pcpt.fargs_out
    if_changed ← args_changed ins outs (args func db)
    if if_changed then write_args q func pcpt (delete_args func db) else ok db

  unfoldable pub update_all_args : List (Bytes × Cpt) → Db → Outcome Db
  unfolding update_args
  update_all_args [] db = ok db
  update_all_args ((func, pcpt) ∷ more) db = do
    db ← update_args func pcpt db
    update_all_args more db

abbrev pub source_path : Bytes → Bytes → Proj → Bytes
source_path src dir p = (p.proj_path ++ dir) ++ (codes "/" ++ src)

module _ (m : Machine) (q : Sqlite) where
  open m use {compute_file}
  open q use {
    Db, insert_src, count_src, last_src, last_lib, src_md5, update_md5, delete_cpts, delete_projs,
  }

  -- The loop over the source files that are not there yet, behind the last number.
  unfoldable pub add_src : ℕ → Bytes → ℕ → Proj → Db → Outcome (ℕ × Proj × Db)
  unfolding source_dir compile_srcfile
  add_src last_id src idx p db =
      if count_src src db == 0
      then (do
        dir ← source_dir idx p
        p ← compile_srcfile m src dir p
        let row : SrcRow = record {
          id = last_id + 1;
          name = src;
          path = dir;
          md5 = compute_file (source_path src dir p);
        }
        ok (last_id + 1, p, insert_src row db))
      else ok (last_id, p, db)

  unfoldable pub add_srcs : ℕ → List (Bytes × ℕ) → Proj → Db → Outcome (Proj × Db)
  unfolding add_src
  add_srcs last_id [] p db = ok (p, db)
  add_srcs last_id ((src, idx) ∷ more) p db = do
    (last_id, p, db) ← add_src last_id src idx p db
    add_srcs last_id more p db

  -- The loop over the source files whose MD5 is another one.
  unfoldable pub update_src : Bytes → ℕ → Proj → Db → Outcome (Proj × Db)
  unfolding source_dir compile_srcfile string_eq
  update_src src idx p db = elim (src_md5 src db) [
    | none ↦ fault
    | some dmd5 ↦ (do
      dir ← source_dir idx p
      let tmd5 = compute_file (source_path src dir p)
      if string_eq dmd5 tmd5
          then ok (p, db)
          else (do p ← compile_srcfile m src dir p; ok (p, update_md5 tmd5 src db)))
  ]

  unfoldable pub update_srcs : List (Bytes × ℕ) → Proj → Db → Outcome (Proj × Db)
  unfolding update_src
  update_srcs [] p db = ok (p, db)
  update_srcs ((src, idx) ∷ more) p db = do (p, db) ← update_src src idx p db; update_srcs more p db

  -- `UpdateProcess`
  unfoldable pub update_process : Proj → Db → Outcome (Proj × Db)
  unfolding attach_databases general_check_info search_info check_cpt build_func_index add_srcs
      add_libs update_srcs add_funcs update_all_args write_cpt_info write_proj_info
  update_process p db = do
    attach_databases q m p db
    general_check_info m p
    p ← search_info m p
    p ← check_cpt m p.cpts p
    let p = build_func_index p
    (p, db) ← add_srcs (last_src db) p.used_srcfiles p db
    let db = add_libs q (last_lib db) p.lib_index db
    (p, db) ← update_srcs p.used_srcfiles p db
    db ← add_funcs q p.func_index p db
    db ← update_all_args q p.func_index db
    db ← write_cpt_info m q 0 p.cpt_paths p (delete_cpts db)
    db ← write_proj_info m q p (delete_projs db)
    ok (p, db)
