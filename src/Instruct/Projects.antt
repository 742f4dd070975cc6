-- ===== src/Instruct/Projects.antt =====
-- `construct` and `update` of src/controller.cpp.
use net_cpp.Base.{Bool, List, [], ◌∷◌, ◌++◌, Bytes, codes, ℕ, ℤ, pos, negsuc, if◌then◌else◌}
use net_cpp.Outcome.{Outcome, ok, reject, throws, thrown_text, fault, ◌>>=◌, ◌>>◌}
use net_cpp.Command.{config_search}
use net_cpp.Project.{Proj}
use net_cpp.Project.Build.{
  r_ok, Machine, new_proj, general_check_info, search_info, check_cpt, build_func_index,
  compile_used, check_func_info,
}
use net_cpp.Project.Rows.{Sqlite}
use net_cpp.Project.Tables.{db_process}
use net_cpp.Project.Update.{update_process}

-- How the body of `construct` ends: early with a result, or with a database.
pub data Constructed (Db : Type 0) : Type 0 where
  early : ℤ → Constructed Db
  built : Db → Constructed Db

-- The handlers: a text that is thrown gives -1, and a std::string is not caught.
unfoldable pub caught {ℓ} : {A : Type ℓ} → A → Outcome A → Outcome A
caught a (ok b) = ok b
caught a reject = reject
caught a (throws thrown_text) = ok a
caught a (throws e) = throws e
caught a fault = fault

module _ (m : Machine) (q : Sqlite) (byte_before : ℕ) where
  open q use {Db}

  -- From the checks to the database, which is empty at first. The functions are indexed before the files are checked.
  unfoldable pub construct_project : Proj → Db → Outcome Db
  unfolding general_check_info search_info build_func_index check_cpt compile_used check_func_info
      db_process
  construct_project p empty = do
    general_check_info m p
    p ← search_info m p
    let p = build_func_index p
    p ← check_cpt m p.cpts p
    p ← compile_used m p.used_srcfiles p
    check_func_info m p.func_index p
    db_process m q p empty

  unfoldable pub construct_body :
      (Bytes → Bool) → List Bytes → Bytes → Db → Outcome (Constructed Db)
  unfolding new_proj config_search construct_project
  construct_body remove configs target empty = do
    p ← new_proj m byte_before target (codes "netc.proj")
    let tdb_path = target ++ (codes "/dbs/" ++ (p.name ++ codes ".db"))
    if m.access r_ok tdb_path
        then (if config_search configs (codes "-f")
            then (if remove tdb_path
                then (do db ← construct_project p empty; ok (built db))
                else ok (early (negsuc 0)))
            else ok (early (pos 0)))
        else (do db ← construct_project p empty; ok (built db))

  -- `construct`, with what `remove` does and a database without tables.
  unfoldable pub construct :
      (Bytes → Bool) → List Bytes → List Bytes → Db → Outcome (Constructed Db)
  unfolding construct_body caught
  construct remove configs [] empty = fault
  construct remove configs (target ∷ more) empty =
      caught (early (negsuc 0)) (construct_body remove configs target empty)

  unfoldable pub update_body : Bytes → Db → Outcome (Constructed Db)
  unfolding new_proj update_process
  update_body target db = do
    p ← new_proj m byte_before target (codes "netc.proj")
    (p, db) ← update_process m q p db
    ok (built db)

  -- `update`
  unfoldable pub update : List Bytes → Db → Outcome (Constructed Db)
  unfolding update_body caught
  update [] db = fault
  update (target ∷ more) db = caught (early (negsuc 0)) (update_body target db)
