-- ===== src/Project/Columns.antt =====
-- `check_database` of src/cproj_proj.cpp: the tables of a database that was opened, and their columns.
use net_cpp.Base.{
  ℕ, zero, suc, ◌+◌, ◌-◌, ◌≤◌, ◌≡◌, ◌↔◌, Bool, true, ◌&&◌, none, some, List, [], ◌∷◌, ◌++◌, Bytes,
  codes, string_eq, string_eq_iff, length, take, ◌==◌, if◌then◌else◌, arith,
}
use net_cpp.Outcome.{Outcome, ok, throws, thrown_text, fault, ◌>>◌}
use net_cpp.Project.{Proj}
use net_cpp.Project.Build.{f_ok, Machine, need}
use net_cpp.Project.Rows.{Column, Sqlite}

unfoldable pub same_column : Column → Column → Bool
unfolding string_eq
same_column c d =
    string_eq c.name d.name && string_eq c.type d.type && c.notnull == d.notnull && c.pk == d.pk

-- The loop of `check_table`, for n rounds. The text of a row that is not there is NULL.
unfoldable pub check_columns : ℕ → List Column → List Column → Outcome (Unit {0})
unfolding same_column
check_columns zero sctc rows = ok tt
check_columns (suc n) [] rows = fault
check_columns (suc n) (c ∷ sctc) [] = fault
check_columns (suc n) (c ∷ sctc) (r ∷ rows) =
    if same_column r c then check_columns n sctc rows else throws thrown_text

-- `check_table`: a row of "PRAGMA table_info" has six columns.
unfoldable pub check_table : ℕ → List Column → List Column → Outcome (Unit {0})
unfolding check_columns
check_table cnum sctc [] = throws thrown_text
check_table cnum sctc (r ∷ rows) = check_columns (cnum - 1) sctc (r ∷ rows)

abbrev key : Column
key = record { name = codes "id"; type = codes "INT"; notnull = 1; pk = 1 }

abbrev text : Bytes → Column
text name = record { name = name; type = codes "TEXT"; notnull = 1; pk = 0 }

abbrev number : Bytes → Column
number name = record { name = name; type = codes "INT"; notnull = 1; pk = 0 }

abbrev content : Column
content = record { name = codes "content"; type = codes "NONE"; notnull = 0; pk = 0 }

-- The tables that `check_database` looks at: the number that it gives, and the columns.
abbrev pub checked_tables : List (Bytes × ℕ × List Column)
checked_tables =
    (
      codes "srcfiles",
      5,
      key ∷ text (codes "name") ∷ text (codes "path") ∷ content ∷ text (codes "md5") ∷ [],
    )
    ∷ (codes "libfiles", 3, key ∷ text (codes "name") ∷ content ∷ [])
    ∷ (codes "cptfiles", 4, key ∷ text (codes "path") ∷ content ∷ text (codes "md5") ∷ [])
    ∷ (
      codes "functions",
      4,
      key ∷ text (codes "name") ∷ number (codes "srcfile_id") ∷ number (codes "srcfile_id") ∷ [],
    )
    ∷ (
      codes "projfile",
      3,
      text (codes "project_name") ∷ content ∷ text (codes "md5") ∷ text (codes "lib_path") ∷ [],
    )
    ∷ []

abbrev pub table_names : List Bytes
table_names =
    codes "srcfiles"
    ∷ codes "cptfiles"
    ∷ codes "functions"
    ∷ codes "projfile"
    ∷ codes "libfiles"
    ∷ codes "projfile"
    ∷ []

module _ (q : Sqlite) where
  open q use {Db, table_count, table_info, project_name}

  -- The loop over the names.
  unfoldable pub check_names : List Bytes → Db → Outcome (Unit {0})
  check_names [] db = ok tt
  check_names (strc ∷ more) db =
      if table_count strc db == 1 then check_names more db else throws thrown_text

  unfoldable pub check_tables : List (Bytes × ℕ × List Column) → Db → Outcome (Unit {0})
  unfolding check_table
  check_tables [] db = ok tt
  check_tables ((table, cnum, sctc) ∷ more) db = do
    check_table cnum sctc (table_info table db)
    check_tables more db

  -- `check_database`
  unfoldable pub check_database : Proj → Db → Outcome (Unit {0})
  unfolding check_names check_tables string_eq
  check_database p db = do
    check_names table_names db
    check_tables checked_tables db
    elim (project_name db) [ none ↦ fault | some tname ↦ need (string_eq p.name tname) ]

  -- `AttachDatabases`, for the database that its path names.
  unfoldable pub attach_databases : Machine → Proj → Db → Outcome (Unit {0})
  unfolding check_database
  attach_databases m p db = do
    need (m.access f_ok (p.proj_path ++ (codes "dbs/" ++ (p.name ++ codes ".db"))))
    check_database p db

same_column_iff : (c d : Column) → (same_column c d ≡ true) ↔ (c ≡ d)
unfolding same_column
same_column_iff c d = ground (arith, string_eq_iff c.name d.name, string_eq_iff c.type d.type)

check_columns_iff :
    (n : ℕ) (sctc rows : List Column)
    → n ≤ length sctc
    → (check_columns n sctc rows ≡ ok tt) ↔ ((take n rows ≡ take n sctc) × (n ≤ length rows))
unfolding check_columns
check_columns_iff zero sctc rows h = ground arith
check_columns_iff (suc n) [] rows h = absurd (omega (arith, h))
check_columns_iff (suc n) (c ∷ sctc) [] h = ground arith
check_columns_iff (suc n) (c ∷ sctc) (r ∷ rows) h =
    ground (arith, same_column_iff r c, check_columns_iff n sctc rows (omega (arith, h)))

-- `check_table` takes exactly the tables that have the columns of its list, in order and with the
-- same names, types and flags, up to the one before its number: the column with that number, and
-- those behind it, are never looked at.
pub check_table_iff :
    (cnum : ℕ) (sctc rows : List Column)
    → cnum ≤ length sctc + 1
    → (check_table cnum sctc rows ≡ ok tt) ↔ (
        (take (cnum - 1) rows ≡ take (cnum - 1) sctc)
        × (cnum - 1 ≤ length rows)
        × (1 ≤ length rows))
unfolding check_table
check_table_iff cnum sctc [] h = ground arith
check_table_iff cnum sctc (r ∷ rows) h =
    ground (arith, check_columns_iff (cnum - 1) sctc (r ∷ rows) (omega (arith, h)))
