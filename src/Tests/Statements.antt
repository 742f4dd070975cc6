-- ===== src/Tests/Statements.antt =====
-- SQL statements.
use net_cpp.Base.{◌≡◌, refl, [], ◌∷◌, ◌++◌, Bytes, codes, arith}
use net_cpp.Sql.{table_text, add_items, insert_text}
use net_cpp.Sql.Texts.{split_commas, insert_text-split}

created :
    table_text (codes "t") ((codes "name", codes "TEXT") ∷ (codes "ip", codes "INT") ∷ [])
    ≡ codes "CREATE TABLE t(name TEXT,ip INT);"
unfolding table_text add_items
created = refl

insert_text-split_example :
    (names : Bytes) × (values : Bytes) × (insert_text
        (codes "t")
        ((codes "name", codes "'net'") ∷ (codes "port", codes "9048") ∷ [])
      ≡ codes "INSERT INTO "
        ++ (codes "t" ++ (codes "(" ++ (names ++ (codes ") VALUES(" ++ (values ++ codes ");"))))))
    × (split_commas names ≡ codes "name" ∷ codes "port" ∷ [])
    × (split_commas values ≡ codes "'net'" ∷ codes "9048" ∷ [])
insert_text-split_example =
    insert_text-split (codes "t") (codes "name") (codes "'net'") ((codes "port", codes "9048") ∷ [])
      (ground arith) (ground arith) (ground arith, tt) (ground arith, tt)
