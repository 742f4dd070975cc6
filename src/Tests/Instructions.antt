-- ===== src/Tests/Instructions.antt =====
-- A database of a client, and addresses.
use net_cpp.Base.{ℕ, ◌≡◌, ◌↔◌, refl, true, false, [], ◌∷◌, Bytes, codes, ℤ, pos, arith}
use net_cpp.Outcome.{ok}
use net_cpp.Number.{decimal, take_number}
use net_cpp.Factory.Decode.{c_str}
use net_cpp.Instruct.Address.{check_valid_ip, IsDotted}
use net_cpp.Instruct.Dotted.{check_valid_ip_iff}
use net_cpp.Instruct.Info.{InfoDb, set}
use net_cpp.Instruct.Server.{Settles, set-server}

-- The address and the port of the square server, and whether there is a table.
pub record Info : Type 0 where
  pub msqes_ip : Bytes
  pub msqes_port : ℤ
  pub tables : ℕ

abbrev info_db : InfoDb
info_db = record {
  Db = Info;
  opens = true;
  run = λ sql i. (i, 0);
  delete_rows = λ table i. (i, true);
  insert_server = λ r i. i;
  insert_client = λ name tag i. (i, true);
  count_client_info = λ i. i.tables;
  set_server = λ ip port i. record i { msqes_ip = ip; msqes_port = port };
  set_admin_key = λ key i. i;
  set_server_key = λ key i. i;
}

abbrev ready_info : Info
ready_info = record { msqes_ip = []; msqes_port = pos 0; tables = 1 }

abbrev home : Bytes
home = codes "127.0.0.1"

check_valid_ip_iff_example : (check_valid_ip home ≡ ok true) ↔ IsDotted (c_str home)
check_valid_ip_iff_example = check_valid_ip_iff home

set-server_example :
    Settles info_db home 9050 ready_info
      (set info_db (λ key. key) (codes "server" ∷ home ∷ decimal 9050 ∷ []) ready_info)
set-server_example =
    set-server info_db (λ key. key) home 9050 [] ready_info (refl, refl) (omega arith)

-- What comes out for some addresses.
accepted : check_valid_ip home ≡ ok true
unfolding check_valid_ip take_number
accepted = refl

leading_zero : check_valid_ip (codes "127.0.0.01") ≡ ok false
unfolding check_valid_ip take_number
leading_zero = refl

too_long : check_valid_ip (codes "127.0.0.1.5") ≡ ok false
unfolding check_valid_ip take_number
too_long = refl
