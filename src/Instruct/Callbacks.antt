-- ===== src/Instruct/Callbacks.antt =====
-- The callbacks of src/model.cpp for the answers of the square server, and `gets_s`.
use net_cpp.Base.{
  ℕ, zero, suc, ◌+◌, ◌-◌, ◌%◌, ◌^◌, Option, none, some, List, [], ◌∷◌, Bytes, codes, string_eq, ℤ,
  pos, negsuc, length, take, leb, ◌==◌, if◌then◌else◌,
}
use net_cpp.Outcome.{Outcome, ok, reject, throws, fault, ◌>>=◌}
use net_cpp.Sql.{table_create}

-- The database of a client: `run` answers a statement by its text, and the statements are prepared.
pub record ClientDb : Type 1 where
  pub Db : Type 0
  pub run : Bytes → Db → Db × ℕ
  pub set_rsa_public : Bytes → Db → Db
  pub delete_registers : Db → Db

abbrev pub register_columns : List (Bytes × Bytes)
register_columns =
    (codes "client_id", codes "INT")
    ∷ (codes "name", codes "TEXT")
    ∷ (codes "tag", codes "TEXT")
    ∷ (codes "key", codes "NONE")
    ∷ (codes "passwd", codes "INT")
    ∷ (codes "status", codes "INT")
    ∷ []

-- `loginSQECallback`, with the member "status" that RapidJSON finds in an answer: the new `if_wait`.
unfoldable pub login_callback : (Bytes → Outcome Bytes) → Option Bytes → Outcome ℤ
unfolding string_eq
login_callback status none = ok (negsuc 0)
login_callback status (some buff) = do
  s ← status buff
  ok (if string_eq s (codes "ok") then pos 0 else negsuc 0)

-- `getchar` over what is left of the input, where the end is -1, the char 255.
abbrev pub get_char : Bytes → ℕ × Bytes
get_char [] = (255, [])
get_char (c ∷ cs) = (c, cs)

-- The loop of `gets_s` with room for n more chars: a char is taken before the room is looked at.
unfoldable pub gets_loop : ℕ → Bytes → Bytes × Bytes
gets_loop zero input = ([], (get_char input).1)
gets_loop (suc n) input =
    let (ch, input) = get_char input in
    let (buff, rest) = gets_loop n input in if ch == b'\n' then ([], input) else (ch ∷ buff, rest)

-- `gets_s`: the chars in front of the NUL, and the input that is left.
unfoldable pub gets_s : ℕ → Bytes → Bytes × Bytes
unfolding gets_loop
gets_s size input = gets_loop ((size + (2 ^ 32 - 1)) % 2 ^ 32) input

module _ (q : ClientDb) where
  open q use {Db, run, set_rsa_public, delete_registers}

  -- `getSQEPublicKey`: as many bytes as the struct of a key has are read, however long the answer is.
  unfoldable pub get_public_key : ℕ → Option Bytes → Db → Outcome (ℤ × Db)
  get_public_key key_size none db = ok (negsuc 0, db)
  get_public_key key_size (some buff) db =
      if leb key_size (length buff)
      then ok (pos 0, set_rsa_public (take key_size buff) db)
      else fault

  abbrev registered : Db × Outcome ℕ → Outcome (ℤ × Db)
  registered (db, ok n) = ok (pos 0, db)
  registered (db, throws e) = ok (pos 0, delete_registers db)
  registered (db, reject) = reject
  registered (db, fault) = fault

  -- `registerSQECallback`: where the table is there already, its rows are deleted.
  unfoldable pub register_callback : (Bytes → Outcome Bytes) → Option Bytes → Db → Outcome (ℤ × Db)
  unfolding table_create string_eq
  register_callback status none db = ok (negsuc 0, db)
  register_callback status (some buff) db = do
    s ← status buff
    if string_eq s (codes "ok")
        then registered (table_create run (codes "client_register_info") register_columns db)
        else ok (negsuc 0, db)
