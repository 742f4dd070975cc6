-- ===== src/Project/Rows.antt =====
-- The tables of the database of a project. SQLite is a parameter: how it answers the texts of
-- statements, and what the prepared statements do to the tables.
use net_cpp.Base.{Bool, ℕ, Option, List, [], ◌∷◌, Bytes, codes, ℤ}

-- The rows of the tables. The numbers that the code counts up are small.
pub record SrcRow : Type 0 where
  pub id : ℕ
  pub name : Bytes
  pub path : Bytes
  pub md5 : Bytes

pub record LibRow : Type 0 where
  pub id : ℕ
  pub name : Bytes

pub record FuncRow : Type 0 where
  pub id : ℕ
  pub name : Bytes
  pub srcfile_id : ℤ
  pub libfile_id : ℤ

pub record ArgRow : Type 0 where
  pub id : ℕ
  pub type : Bytes
  pub idx : ℕ
  pub io : ℕ
  pub key : Bytes
  pub size : ℤ

pub record CptRow : Type 0 where
  pub id : ℕ
  pub path : Bytes
  pub md5 : Bytes
  pub content : Bytes

pub record ProjRow : Type 0 where
  pub project_name : Bytes
  pub content : Bytes
  pub md5 : Bytes
  pub lib_path : Bytes

-- `check_table_column`, as the rows of "PRAGMA table_info" have it.
pub record Column : Type 0 where
  pub name : Bytes
  pub type : Bytes
  pub notnull : ℕ
  pub pk : ℕ

-- SQLite: `opens` is true for a file that `sqlite3_open` opens, `run` answers a statement by its
-- text with a result code, and `rows` with the rows that a callback is called for; the others are
-- the prepared statements, with the values bound. The row of a statement that has no row is none,
-- or 0 where a number is read. `table_info` has the columns of a table.
pub record Sqlite : Type 1 where
  pub Db : Type 0
  pub opens : Bytes → Bool
  pub run : Bytes → Db → Db × ℕ
  pub rows : Bytes → Db → List (List (Bytes × Option Bytes))
  pub insert_src : SrcRow → Db → Db
  pub insert_lib : LibRow → Db → Db
  pub insert_func : FuncRow → Db → Db
  pub insert_arg : Bytes → ArgRow → Db → Db
  pub insert_cpt : CptRow → Db → Db
  pub insert_proj : ProjRow → Db → Db
  pub count_src : Bytes → Db → ℕ
  pub count_lib : Bytes → Db → ℕ
  pub count_func : Bytes → Db → ℕ
  pub last_src : Db → ℕ
  pub last_lib : Db → ℕ
  pub last_func : Db → ℕ
  pub src_md5 : Bytes → Db → Option Bytes
  pub update_md5 : Bytes → Bytes → Db → Db
  pub args : Bytes → Db → List ArgRow
  pub delete_args : Bytes → Db → Db
  pub delete_cpts : Db → Db
  pub delete_projs : Db → Db
  pub table_count : Bytes → Db → ℕ
  pub table_info : Bytes → Db → List Column
  pub project_name : Db → Option Bytes

-- The tables that `build_new_db` creates, with their columns.
abbrev pub key_column : Bytes × Bytes
key_column = (codes "id", codes "INT  PRIMARY KEY  NOT NULL")

abbrev content_column : Bytes × Bytes
content_column = (codes "content", codes "NONE")

abbrev pub project_tables : List (Bytes × List (Bytes × Bytes))
project_tables =
    (
      codes "srcfiles",
      key_column
          ∷ (codes "name", codes "TEXT NOT NULL")
          ∷ (codes "path", codes "TEXT NOT NULL")
          ∷ content_column
          ∷ (codes "md5", codes "TEXT NOT NULL")
          ∷ [],
    )
    ∷ (
      codes "functions",
      key_column
          ∷ (codes "name", codes "TEXT NOT NULL")
          ∷ (codes "srcfile_id", codes "INT NOT NULL")
          ∷ (codes "libfile_id", codes "INT NOT NULL")
          ∷ [],
    )
    ∷ (
      codes "cptfiles",
      key_column
          ∷ (codes "path", codes "TEXT NOT NULL")
          ∷ content_column
          ∷ (codes "md5", codes "TEXT NOT NULL")
          ∷ [],
    )
    ∷ (
      codes "projfile",
      (codes "project_name", codes "TEXT NOT NULL")
          ∷ content_column
          ∷ (codes "md5", codes "TEXT NOT NULL")
          ∷ (codes "lib_path", codes "TEXT NOT NULL")
          ∷ [],
    )
    ∷ (codes "libfiles", key_column ∷ (codes "name", codes "TEXT NOT NULL") ∷ content_column ∷ [])
    ∷ []

abbrev pub arg_columns : List (Bytes × Bytes)
arg_columns =
    key_column
    ∷ (codes "type", codes "TEXT  NOT NULL")
    ∷ (codes "idx", codes "INT  NOT NULL")
    ∷ (codes "io", codes "INT  NOT NULL")
    ∷ (codes "key", codes "TEXT")
    ∷ (codes "size", codes "INT  NOT NULL")
    ∷ []
