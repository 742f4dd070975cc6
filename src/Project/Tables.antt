-- ===== src/Project/Tables.antt =====
-- What `Proj` writes into its database.
use net_cpp.Base.{
  ℕ, suc, ◌+◌, not, ◌||◌, Option, none, some, List, [], ◌∷◌, ◌++◌, Bytes, codes, string_eq, length,
  ℤ, negsuc, eqb_ℤ, ◌==◌, if◌then◌else◌,
}
use net_cpp.Outcome.{Outcome, ok, throws, thrown_text, fault, ◌>>=◌, ◌>>◌}
use net_cpp.Settings.Files.{settings_of_file}
use net_cpp.Cpt.{Cpt, CptFuncArgs, stream_int}
use net_cpp.Sql.{SqlCallBack, sql_call_back_func, string_type, table_create}
use net_cpp.Project.{Proj}
use net_cpp.Project.Build.{x_ok, f_ok, Machine, need, source_dir}
use net_cpp.Project.Ordered.{found}
use net_cpp.Project.Rows.{ArgRow, Sqlite, project_tables, arg_columns}

-- The two loops of `write_args_info_no_create_table`: the rows of parameters from two numbers on.
unfoldable pub arg_rows : ℕ → ℕ → ℕ → List CptFuncArgs → List ArgRow
arg_rows io idx sidx [] = []
arg_rows io idx sidx (arg ∷ more) =
    record { id = sidx; type = arg.type; idx = idx; io = io; key = arg.key; size = arg.size }
    ∷ arg_rows io (idx + 1) (sidx + 1) more

-- The id in the answer to "SELECT id ...": of a row that is not there nothing is known.
unfoldable pub id_of_row : SqlCallBack → Outcome ℤ
unfolding stream_int string_eq
id_of_row psqlcb =
    if psqlcb.size == 1
    then elim psqlcb.items [
      | [] ↦ fault
      | item ∷ more ↦ elim item.colnum [
        | [] ↦ fault
        | col ∷ cols ↦ elim item.argv [
          | [] ↦ fault
          | arg ∷ rest ↦
              (if not (string_eq col (codes "id")) || eqb_ℤ (stream_int (negsuc 0) arg) (negsuc 0)
                then throws thrown_text
                else ok (stream_int (negsuc 0) arg))
        ]
      ]
    ]
    else throws thrown_text

-- `sql_exec` with its callback: the struct is not set where no row comes.
unfoldable pub call_back_rows :
    Option SqlCallBack → List (List (Bytes × Option Bytes)) → Outcome SqlCallBack
unfolding sql_call_back_func
call_back_rows none [] = fault
call_back_rows (some c) [] = ok c
call_back_rows none (row ∷ more) = do
  c ← sql_call_back_func (some (record { size = 0; items = [] })) row
  call_back_rows (some c) more
call_back_rows (some c) (row ∷ more) = do
  c ← sql_call_back_func (some c) row
  call_back_rows (some c) more

module _ (q : Sqlite) where
  open q use {Db, run, rows, insert_src, insert_lib, insert_func, insert_arg, last_func}

  -- `table_create` for each table, until one fails.
  unfoldable pub create_tables : List (Bytes × List (Bytes × Bytes)) → Db → Outcome Db
  unfolding table_create
  create_tables [] db = ok db
  create_tables ((name, colnums) ∷ more) db = do
    let (db', created) = table_create run name colnums db
    _ ← created
    create_tables more db'

  -- `write_src_info` from a number on.
  unfoldable pub write_src_info : ℕ → List (Bytes × ℕ) → Proj → Db → Outcome Db
  unfolding found source_dir
  write_src_info idx [] p db = ok db
  write_src_info idx ((src, dir) ∷ more) p db = do
    md5 ← found src p.src_md5
    path ← source_dir dir p
    write_src_info (idx + 1) more p
        (insert_src (record { id = idx; name = src; path = path; md5 = md5 }) db)

  -- `write_lib_info`
  unfoldable pub write_lib_info : ℕ → List (Bytes × Bytes) → Db → Db
  write_lib_info idx [] db = db
  write_lib_info idx (lib ∷ more) db =
      write_lib_info (idx + 1) more (insert_lib (record { id = idx; name = lib.1 }) db)

  -- The number of a file in a table.
  unfoldable pub select_id : Bytes → Bytes → Db → Outcome ℤ
  unfolding call_back_rows id_of_row string_type
  select_id table name db = do
    let sql_quote =
        codes "SELECT id FROM "
        ++ (table ++ (codes " WHERE name = " ++ (string_type name ++ codes ";")))
    psqlcb ← call_back_rows none (rows sql_quote db)
    id_of_row psqlcb

  -- A function in `write_func_info`, with its number.
  unfoldable pub write_func : ℕ → Bytes → Cpt → Proj → Db → Outcome Db
  unfolding found select_id
  write_func idx func pcpt p db = do
    src_file ← found func pcpt.funcs_src
    lib_file ← found src_file p.lib_index
    srcfile_id ← select_id (codes "srcfiles") src_file db
    libfile_id ← select_id (codes "libfiles") lib_file db
    ok (
        insert_func
          (record { id = idx; name = func; srcfile_id = srcfile_id; libfile_id = libfile_id }) db)

  -- `write_func_info`
  unfoldable pub write_func_info : ℕ → List (Bytes × Cpt) → Proj → Db → Outcome Db
  unfolding write_func
  write_func_info idx [] p db = ok db
  write_func_info idx ((func, pcpt) ∷ more) p db = do
    db ← write_func idx func pcpt p db
    write_func_info (idx + 1) more p db

  -- `write_func_info` of one function, with the number behind the last.
  unfoldable pub write_new_func : Bytes → Cpt → Proj → Db → Outcome Db
  unfolding write_func
  write_new_func func pcpt p db = write_func (last_func db + 1) func pcpt p db

  unfoldable pub insert_args : Bytes → List ArgRow → Db → Db
  insert_args func [] db = db
  insert_args func (r ∷ more) db = insert_args func more (insert_arg func r db)

  -- `write_args_info_no_create_table`: a cpt without the function has no lists.
  unfoldable pub write_args : Bytes → Cpt → Db → Outcome Db
  unfolding found arg_rows insert_args
  write_args func pcpt db = do
    ins ← found func pcpt.fargs_in
    outs ← found func pcpt.fargs_out
    let db = insert_args func (arg_rows 0 0 0 ins) db
    ok (insert_args func (arg_rows 1 0 (length ins) outs) db)

  -- `write_args_info` of one function
  unfoldable pub write_args_info : Bytes → Cpt → Db → Outcome Db
  unfolding table_create write_args
  write_args_info func pcpt db = do
    let (db', created) = table_create run (codes "fargs_" ++ func) arg_columns db
    _ ← created
    write_args func pcpt db'

  unfoldable pub write_all_args : List (Bytes × Cpt) → Db → Outcome Db
  unfolding write_args_info
  write_all_args [] db = ok db
  write_all_args ((func, pcpt) ∷ more) db = do
    db ← write_args_info func pcpt db
    write_all_args more db

module _ (m : Machine) (q : Sqlite) where
  open m use {access, mkdir, file, compute_file}
  open q use {Db, opens, insert_cpt, insert_proj}

  -- `write_cpt_info`
  unfoldable pub write_cpt_info : ℕ → List Bytes → Proj → Db → Outcome Db
  unfolding settings_of_file
  write_cpt_info idx [] p db = ok db
  write_cpt_info idx (cpt ∷ more) p db = do
    let treal_path = p.proj_path ++ cpt
    need (access f_ok treal_path)
    let text = file treal_path
    buff ← settings_of_file (suc (length text)) text
    write_cpt_info (idx + 1) more p (
        insert_cpt (record { id = idx; path = cpt; md5 = compute_file treal_path; content = buff })
          db)

  -- `write_proj_info`
  unfoldable pub write_proj_info : Proj → Db → Outcome Db
  write_proj_info p db = do
    let path = p.proj_path ++ codes "netc.proj"
    need (access f_ok path)
    ok (
        insert_proj
          (record {
            project_name = p.name;
            content = p.content;
            md5 = compute_file path;
            lib_path = p.lib_path;
          })
          db)

  -- `build_new_db`, with the tables that it creates.
  unfoldable pub build_new_db : Proj → Db → Outcome Db
  unfolding create_tables
  build_new_db p db = do
    let db_dir = p.proj_path ++ codes "dbs"
    need (mkdir db_dir || access x_ok db_dir)
    need (opens (p.proj_path ++ (codes "dbs/" ++ (p.name ++ codes ".db"))))
    create_tables q project_tables db

  -- `DBProcess`
  unfoldable pub db_process : Proj → Db → Outcome Db
  unfolding build_new_db write_src_info write_lib_info write_func_info write_all_args write_cpt_info
      write_proj_info
  db_process p db = do
    db ← build_new_db p db
    db ← write_src_info q 0 p.used_srcfiles p db
    let db = write_lib_info q 0 p.lib_index db
    db ← write_func_info q 0 p.func_index p db
    db ← write_all_args q p.func_index db
    db ← write_cpt_info 0 p.cpt_paths p db
    write_proj_info p db
