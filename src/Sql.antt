-- ===== src/Sql.antt =====
-- src/sql.cpp: the texts of SQL statements, and what is done with them. SQLite is a parameter: how a
-- database answers a statement with a result code.
pub mod Texts
use net_cpp.Base.{
  ℕ, zero, suc, ◌+◌, Bool, true, false, Option, none, some, List, [], ◌∷◌, ◌++◌, Bytes, codes, ℤ,
  pos, negsuc, length, map, ◌==◌, if◌then◌else◌,
}
use net_cpp.Outcome.{Outcome, ok, throws, thrown_text, ◌>>=◌}

-- The loops `if(idx++) sql_quote += ","; sql_quote += ...`.
unfoldable pub add_items : ℕ → List Bytes → Bytes → Bytes
add_items idx [] sql_quote = sql_quote
add_items idx (s ∷ ss) sql_quote =
    add_items (idx + 1) ss ((if idx == 0 then sql_quote else sql_quote ++ codes ",") ++ s)

-- The text of `table_create`, for columns with a name and a type.
unfoldable pub table_text : Bytes → List (Bytes × Bytes) → Bytes
unfolding add_items
table_text name colnums =
    add_items 0 (map (λ (c : Bytes × Bytes). c.0 ++ (b' ' ∷ c.1)) colnums)
      ((codes "CREATE TABLE " ++ name) ++ codes "(")
    ++ codes ");"

-- The text of `insert_info`.
unfoldable pub insert_text : Bytes → List (Bytes × Bytes) → Bytes
unfolding add_items
insert_text table_name items =
    let names =
      add_items 0 (map (λ (i : Bytes × Bytes). i.0) items)
        ((codes "INSERT INTO " ++ table_name) ++ codes "(") in
    add_items 0 (map (λ (i : Bytes × Bytes). i.1) items) (names ++ codes ") VALUES(") ++ codes ");"

-- `string_type`
unfoldable pub string_type : Bytes → Bytes
string_type str = (codes "'" ++ str) ++ codes "'"

pub record SqlItem : Type 0 where
  pub colnum : List Bytes
  pub argv : List Bytes

-- The loop of `SQLCallBackFunc` over the columns of a row: each is an item of its own.
unfoldable pub row_items : List (Bytes × Option Bytes) → List SqlItem
row_items [] = []
row_items ((name, value) ∷ cols) =
    record { colnum = name ∷ []; argv = elim value [ none ↦ codes "nil" | some v ↦ v ] ∷ [] }
    ∷ row_items cols

-- `SQLCallBack`, without the result of the statement.
pub record SqlCallBack : Type 0 where
  pub size : ℕ
  pub items : List SqlItem

-- `SQLCallBackFunc`: none for a null pointer.
unfoldable pub sql_call_back_func :
    Option SqlCallBack → List (Bytes × Option Bytes) → Outcome SqlCallBack
unfolding row_items
sql_call_back_func none row = throws thrown_text
sql_call_back_func (some c) row =
    ok (record { size = length row; items = c.items ++ row_items row })

module _ {S : Type 0} (sqlite : Bytes → S → S × ℕ) where
  -- `table_create`: the database behind it, and whether it throws. SQLITE_OK is 0.
  unfoldable pub table_create : Bytes → List (Bytes × Bytes) → S → S × Outcome ℕ
  unfolding table_text
  table_create name colnums s =
      let (s, begun) = sqlite (codes "BEGIN;") s in
      let (s, sql_rtn) = sqlite (table_text name colnums) s in
      let (s, committed) = sqlite (codes "COMMIT;") s in
      (s, if sql_rtn == 0 then ok 0 else throws thrown_text)

  -- `insert_info` with `sqlite3_prepare`.
  unfoldable pub insert_info : Bytes → List (Bytes × Bytes) → S → S × ℤ
  unfolding insert_text
  insert_info table_name items s =
      let (s, rtn) = sqlite (insert_text table_name items) s in
      (s, if rtn == 0 then pos 0 else negsuc 0)
