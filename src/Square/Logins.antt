-- ===== src/Square/Logins.antt =====
-- Logins that are refused.
use net_cpp.Base.{◌^◌, ◌≡◌, refl, false, Option, none, some, codes, string_eq, ◌==◌, ℤ}
use net_cpp.Number.{low_word}
use net_cpp.Outcome.{ok}
use net_cpp.Wire.Request.{Request}
use net_cpp.Square.{ClientRegister, RegisterInfo, Outside, SqeServer, new_client}
use net_cpp.Square.Handlers.{login_row, client_login, process_one_request}

-- There is no row, or its password is another one.
abbrev pub IsRefused : Option RegisterInfo → ℤ → Type 0
IsRefused none passwd = Unit
IsRefused (some row) passwd = (row.passwd == low_word (2 ^ 64) passwd) ≡ false

module _ (o : Outside) where
  open o use {json_int, select_row}

  login_row-refused :
      (q : Request) (row : Option RegisterInfo) (pclr : ClientRegister) (s : SqeServer o)
      (passwd : ℤ)
      → json_int q.data_bytes (codes "passwd") ≡ ok passwd
      → IsRefused row passwd
      → login_row o q row pclr s ≡ ok s
  unfolding login_row
  login_row-refused q none pclr s passwd has_passwd refused = refl
  login_row-refused q (some row) pclr s passwd has_passwd refused = rw (has_passwd, refused)

  -- A "client login" that names a client without a row, or gives another password than the row
  -- holds, changes nothing of the server but the state of the random engine: it is not answered,
  -- nobody is called, and no row is written.
  pub process_one_request-refused :
      (q : Request) (s : SqeServer o) (id passwd : ℤ)
      → q.type ≡ codes "client login"
      → json_int q.data_bytes (codes "client_id") ≡ ok id
      → json_int q.data_bytes (codes "passwd") ≡ ok passwd
      → IsRefused (select_row (low_word (2 ^ 64) id) s.rows) passwd
      → process_one_request o q s ≡ ok (record s { seed = (new_client o s).1.seed })
  unfolding process_one_request string_eq client_login new_client
  process_one_request-refused q s id passwd login has_id has_passwd refused =
      rw (login, has_id)
        (login_row-refused q (select_row (low_word (2 ^ 64) id) s.rows)
          (record (new_client o s).0 { client_id = low_word (2 ^ 64) id }) (new_client o s).1 passwd
          has_passwd refused)
