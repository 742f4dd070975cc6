-- ===== src/Instruct/Info.antt =====
-- `init` and `set` of src/controller.cpp, which keep the table of a server or a client in info.db.
use net_cpp.Base.{
  ℕ, Bool, true, false, not, ◌&&◌, List, [], ◌∷◌, Bytes, codes, string_eq, length, ltb, leb, ℤ, pos,
  negsuc, ◌==◌, if◌then◌else◌,
}
use net_cpp.Outcome.{Outcome, ok, reject, throws, thrown_text, fault}
use net_cpp.Number.{skip_space}
use net_cpp.Settings.{if_name_illegal}
use net_cpp.Sql.{table_create}
use net_cpp.Command.{config_search}
use net_cpp.Cpt.{stream_int}
use net_cpp.Factory.Decode.{c_str}
use net_cpp.Instruct.Address.{check_valid_ip}

-- The row of table server_info.
pub record ServerRow : Type 0 where
  pub sqes_public : Bytes
  pub sqes_private : Bytes
  pub key_sha1 : Bytes
  pub name : Bytes

-- SQLite with info.db: whether it opens, how `run` answers a statement by its text, and the
-- prepared statements. A statement that can fail tells whether it was done.
pub record InfoDb : Type 1 where
  pub Db : Type 0
  pub opens : Bool
  pub run : Bytes → Db → Db × ℕ
  pub delete_rows : Bytes → Db → Db × Bool
  pub insert_server : ServerRow → Db → Db
  pub insert_client : Bytes → Bytes → Db → Db × Bool
  pub count_client_info : Db → ℕ
  pub set_server : Bytes → ℤ → Db → Db
  pub set_admin_key : Bytes → Db → Db
  pub set_server_key : Bytes → Db → Db

abbrev pub server_columns : List (Bytes × Bytes)
server_columns =
    (codes "name", codes "TEXT")
    ∷ (codes "sqes_public", codes "NONE")
    ∷ (codes "sqes_private", codes "NONE")
    ∷ (codes "key_sha1", codes "TEXT")
    ∷ []

abbrev pub client_columns : List (Bytes × Bytes)
client_columns =
    (codes "name", codes "TEXT")
    ∷ (codes "tag", codes "TEXT")
    ∷ (codes "admin_key_sha1", codes "TEXT")
    ∷ (codes "msqes_ip", codes "TEXT")
    ∷ (codes "msqes_port", codes "INT")
    ∷ (codes "msqes_key", codes "TEXT")
    ∷ (codes "msqes_rsa_public", codes "NONE")
    ∷ []

abbrev pub sqes_columns : List (Bytes × Bytes)
sqes_columns =
    (codes "sqes_ip", codes "TEXT PRIMARY KEY")
    ∷ (codes "sqes_port", codes "INT")
    ∷ (codes "sqes_key", codes "TEXT")
    ∷ (codes "rsa_public", codes "NONE")
    ∷ []

module _ (q : InfoDb) where
  open q use {
    Db, opens, run, delete_rows, insert_server, insert_client, count_client_info, set_server,
    set_admin_key, set_server_key,
  }

  abbrev pub failed : Db → Db × Outcome ℤ
  failed db = (db, ok (negsuc 0))

  abbrev pub done : Db → Db × Outcome ℤ
  done db = (db, ok (pos 0))

  -- The handler of `table_create`: whether the instruction goes on.
  unfoldable pub cleared : List Bytes → Bytes → Db × Outcome ℕ → Db × Outcome Bool
  unfolding config_search
  cleared configs table (db, ok n) = (db, ok true)
  cleared configs table (db, throws e) =
      if config_search configs (codes "-f")
      then (let (db, deleted) = delete_rows table db in
          (db, if deleted then ok true else throws thrown_text))
      else (db, ok false)
  cleared configs table (db, reject) = (db, reject)
  cleared configs table (db, fault) = (db, fault)

  abbrev go_on : Db × Outcome Bool → (Db → Db × Outcome ℤ) → Db × Outcome ℤ
  go_on (db, ok true) f = f db
  go_on (db, ok false) f = done db
  go_on (db, reject) f = (db, reject)
  go_on (db, throws e) f = (db, throws e)
  go_on (db, fault) f = (db, fault)

  -- The first half of `init`, with the keys of `rsa_gen_keys` and SHA-1: what is hashed is targets[1],
  -- the name.
  unfoldable pub init_server :
      Bytes × Bytes → (Bytes → Bytes) → List Bytes → Bytes → Bytes → Db → Db × Outcome ℤ
  unfolding cleared table_create
  init_server keys sha1 configs name key db =
      go_on
        (cleared configs (codes "server_info")
          (table_create run (codes "server_info") server_columns db))
        (λ db. done (
          insert_server
            (record {
              sqes_public = keys.0;
              sqes_private = keys.1;
              key_sha1 = sha1 name;
              name = name;
            })
            db))

  -- The second table, where the first was created.
  abbrev and_sqes_info : Db × Outcome ℕ → Db × Outcome ℕ
  and_sqes_info (db, ok n) = table_create run (codes "sqes_info") sqes_columns db
  and_sqes_info (db, e) = (db, e)

  -- The other half of `init`.
  unfoldable pub init_client : List Bytes → Bytes → Bytes → Db → Db × Outcome ℤ
  unfolding cleared table_create if_name_illegal
  init_client configs name tag db =
      if if_name_illegal name && if_name_illegal tag
      then go_on
          (cleared configs (codes "client_info")
            (and_sqes_info (table_create run (codes "client_info") client_columns db)))
          (λ db.
            let (db, written) = insert_client name tag db in
            if written then done db else (db, throws thrown_text))
      else failed db

  -- `init`
  unfoldable pub init :
      Bytes × Bytes → (Bytes → Bytes) → List Bytes → List Bytes → Db → Db × Outcome ℤ
  unfolding init_server init_client string_eq if_name_illegal
  init keys sha1 configs [] db = (db, fault)
  init keys sha1 configs (kind ∷ []) db = failed db
  init keys sha1 configs (kind ∷ name ∷ []) db =
      if string_eq kind (codes "server") then failed db else init_client configs kind name db
  init keys sha1 configs (kind ∷ name ∷ key ∷ more) db =
      if string_eq kind (codes "server")
      then (if if_name_illegal kind then init_server keys sha1 configs name key db else failed db)
      else init_client configs kind name db

  abbrev pub is_port : ℤ → Bool
  is_port (pos n) = ltb 0 n && leb n 65535
  is_port (negsuc n) = false

  -- The port in the branch "server" of `set`: the int is not set from a text of white space.
  unfoldable pub set_port : Bytes → Bytes → Bytes → Db → Db × Outcome ℤ
  unfolding stream_int c_str
  set_port ip port [] db = (db, fault)
  set_port ip port (c ∷ cs) db =
      let n = stream_int (pos 0) port in
      if is_port n then done (set_server (c_str ip) n db) else failed db

  unfoldable pub set_checked : Bytes → Bytes → Outcome Bool → Db → Db × Outcome ℤ
  unfolding set_port skip_space
  set_checked ip port (ok true) db = set_port ip port (skip_space port) db
  set_checked ip port (ok false) db = failed db
  set_checked ip port reject db = (db, reject)
  set_checked ip port (throws e) db = (db, throws e)
  set_checked ip port fault db = (db, fault)

  -- The branch "server" of `set`.
  unfoldable pub set_main_server : Bytes → Bytes → Db → Db × Outcome ℤ
  unfolding check_valid_ip set_checked
  set_main_server ip port db = set_checked ip port (check_valid_ip ip) db

  -- The branch "key" of `set`. The length that is looked at is that of the type, not of the key, and only
  -- for a warning.
  unfoldable pub set_key : (Bytes → Bytes) → Bytes → Bytes → Db → Db × Outcome ℤ
  unfolding string_eq c_str
  set_key sha1 type key db =
      if string_eq type (codes "admin")
      then done (set_admin_key (sha1 key) db)
      else if string_eq type (codes "server")
      then done (set_server_key (c_str key) db)
      else failed db

  unfoldable pub set_target : (Bytes → Bytes) → List Bytes → Db → Db × Outcome ℤ
  unfolding set_main_server set_key string_eq
  set_target sha1 (kind ∷ a ∷ b ∷ more) db =
      if string_eq kind (codes "server")
      then set_main_server a b db
      else if string_eq kind (codes "key")
      then set_key sha1 a b db
      else done db
  set_target sha1 (kind ∷ a ∷ []) db =
      if string_eq kind (codes "server")
      then failed db
      else if string_eq kind (codes "key")
      then failed db
      else done db
  set_target sha1 _ db = failed db

  -- `set`
  unfoldable pub set : (Bytes → Bytes) → List Bytes → Db → Db × Outcome ℤ
  unfolding set_target
  set sha1 targets db =
      if ltb (length targets) 2
      then failed db
      else if not opens
      then failed db
      else if count_client_info db == 0
      then failed db
      else set_target sha1 targets db
