-- ===== src/Tests/Squares.antt =====
-- A server with one registered client, and a request to register another.
use net_cpp.Base.{
  ℕ, ◌+◌, ◌^◌, ◌≡◌, refl, Option, none, some, List, [], ◌∷◌, codes, string_eq, replicate, ◌==◌,
  if◌then◌else◌, pos,
}
use net_cpp.Outcome.{Outcome, ok}
use net_cpp.Wire.Request.{Request}
use net_cpp.Number.{low_word}
use net_cpp.Square.{RegisterInfo, Outside, SqeServer, push_respond, new_client, find_id, write_key}
use net_cpp.Square.Handlers.{draw, register, status_ok, private_request, process_one_request}
use net_cpp.Square.Logins.{IsRefused, process_one_request-refused}
use net_cpp.Square.Again.{process_one_request-again}

abbrev row_of : ℕ → List RegisterInfo → Option RegisterInfo
row_of id [] = none
row_of id (r ∷ rs) = if r.client_id == id then some r else row_of id rs

abbrev with_status : ℕ → ℕ → List RegisterInfo → List RegisterInfo
with_status id status [] = []
with_status id status (r ∷ rs) =
    (if r.client_id == id then record r { status = status } else r) ∷ with_status id status rs

abbrev outside : Outside
outside = record {
  json_ints = λ t m. ok (pos 1 ∷ pos 2 ∷ []);
  json_string = λ t m. ok (codes "abc");
  json_int = λ t m. ok (pos 5);
  Rows = List RegisterInfo;
  insert_row = λ r rs. r ∷ rs;
  select_row = row_of;
  set_status = with_status;
  Seed = ℕ;
  rand64 = λ n. (n, n + 1);
  inet_addr = λ ip. 127 ∷ 0 ∷ 0 ∷ 1 ∷ [];
  pkc = codes "key";
  behind = replicate 8 0;
}

abbrev registration : Request
registration = record {
  r_id = 41;
  type = codes "private request";
  data_bytes = codes "{}";
  recv_port = 9050;
  t_addr = replicate 16 1;
}

abbrev one_row : List RegisterInfo
one_row =
    record {
      name = codes "abc";
      tag = codes "t";
      client_id = 5;
      key = replicate 32 7;
      ip = codes "127.0.0.1";
      udp_port = 9050;
      tcp_port = 9051;
      passwd = 6;
      status = 0;
    }
    ∷ []

abbrev square : SqeServer outside
square = record {
  req_list = [];
  packets_out = [];
  rids = [];
  client_lst = [];
  clocks = record {
    clocks_list = [];
    clocks_thread_map = [];
    clock_thread_finished = [];
    tid_r = 0;
    clock_erase = 30;
  };
  rows = one_row;
  seed = 100;
}

abbrev later_square : Outcome (SqeServer outside) → SqeServer outside
later_square (ok t) = t
later_square _ = square

abbrev registered : SqeServer outside
registered = later_square (process_one_request outside registration square)

wrong_password : IsRefused (row_of (low_word (2 ^ 64) (pos 5)) one_row) (pos 5)
unfolding low_word
wrong_password = refl

process_one_request-refused_example :
    process_one_request outside (record registration { type = codes "client login" }) square
    ≡ ok (record square { seed = (new_client outside square).1.seed })
process_one_request-refused_example =
    process_one_request-refused outside (record registration { type = codes "client login" }) square
      (pos 5) (pos 5) refl refl refl wrong_password

registered_ok : process_one_request outside registration square ≡ ok registered
unfolding process_one_request string_eq private_request register new_client draw write_key find_id
registered_ok = refl

process_one_request-again_example :
    process_one_request outside registration registered
    ≡ ok (push_respond outside registration (codes "register respond") status_ok registered)
process_one_request-again_example =
    process_one_request-again outside registration square registered refl registered_ok
