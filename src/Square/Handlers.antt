-- ===== src/Square/Handlers.antt =====
-- The branches of `SQEServer::ProcessRequset`, and its loop.
use net_cpp.Base.{
  ℕ, zero, suc, ◌%◌, ◌^◌, Option, none, some, List, [], ◌∷◌, Bytes, codes, string_eq, ◌==◌,
  if◌then◌else◌,
}
use net_cpp.Number.{low_word}
use net_cpp.Outcome.{Outcome, ok, ◌>>=◌}
use net_cpp.Wire.Request.{Request}
use net_cpp.Wire.Post.{get_key}
use net_cpp.Square.{
  ClientRegister, RegisterInfo, set_port, set_ip, find_id, insert_id, key_of_bytes, write_key,
  Outside, SqeServer, push_respond, new_client, wait_for,
}

abbrev pub status_ok : Bytes
status_ok = codes "{\"status\":\"ok\"}"

module _ (o : Outside) where
  open o use {
    json_ints, json_string, json_int, insert_row, select_row, set_status, rand64, inet_addr, pkc,
  }

  -- The number of a new client, and its password.
  unfoldable pub draw : SqeServer o → ℕ × SqeServer o
  draw s = let (n, seed) = rand64 s.seed in (n, record s { seed = seed })

  -- The registration of a client in `ProcessRequset`.
  unfoldable pub register : Request → SqeServer o → Outcome (SqeServer o)
  unfolding new_client draw write_key set_port set_ip wait_for insert_id low_word get_key
  register q s = do
    let (pclr, s1) = new_client o s
    let (client_id, s2) = draw s1
    items ← json_ints q.data_bytes (codes "key")
    key ← write_key items pclr.key
    name ← json_string q.data_bytes (codes "name")
    tag ← json_string q.data_bytes (codes "tag")
    port ← json_int q.data_bytes (codes "listen_port")
    ip ← json_string q.data_bytes (codes "listen_ip")
    let (passwd, s3) = draw s2
    let client = record pclr {
      client_id = client_id;
      key = key;
      name = name;
      tag = tag;
      click = 99999;
      passwd = passwd;
      t_addr = set_port (low_word (2 ^ 16) port) (set_ip (inet_addr ip) q.t_addr);
    }
    let s4 =
        wait_for o client_id (record s3 { client_lst = insert_id client_id client s3.client_lst })
    ok (record s4 {
      rids = insert_id q.r_id client s4.rids;
      rows =
          insert_row
            (record {
              name = name;
              tag = tag;
              client_id = client_id;
              key = get_key key;
              ip = ip;
              udp_port = q.recv_port;
              tcp_port = low_word (2 ^ 32) port;
              passwd = passwd;
              status = 0;
            })
            s4.rows;
    })

  -- A "private request": a number that is known is answered again.
  unfoldable pub private_request : Request → SqeServer o → Outcome (SqeServer o)
  unfolding find_id register push_respond
  private_request q s = do
    s ← elim (find_id q.r_id s.rids) [ some client ↦ ok s | none ↦ register q s ]
    ok (push_respond o q (codes "register respond") status_ok s)

  -- The client of a row, when it logs in: `click` stays 0.
  unfoldable pub logged_in : Request → RegisterInfo → ClientRegister → SqeServer o → SqeServer o
  unfolding set_port set_ip wait_for insert_id key_of_bytes
  logged_in q row pclr s =
      let client = record pclr {
        key = key_of_bytes row.key;
        name = row.name;
        tag = row.tag;
        passwd = row.passwd;
        t_addr = set_port (row.tcp_port % 2 ^ 16) (set_ip (inet_addr row.ip) pclr.t_addr);
      } in
      let s1 = wait_for o pclr.client_id s in
      record s1 {
        rids = insert_id q.r_id client s1.rids;
        rows = set_status pclr.client_id 1 s1.rows;
      }

  -- A "client login" of the client in a row, if there is one.
  unfoldable pub login_row :
      Request → Option RegisterInfo → ClientRegister → SqeServer o → Outcome (SqeServer o)
  unfolding logged_in push_respond low_word
  login_row q none pclr s = ok s
  login_row q (some row) pclr s = do
    passwd ← json_int q.data_bytes (codes "passwd")
    let s1 = if row.status == 0 then logged_in q row pclr s else s
    ok (
        if row.passwd == low_word (2 ^ 64) passwd
        then push_respond o q (codes "register respond") status_ok s1
        else s)

  unfoldable pub client_login : Request → SqeServer o → Outcome (SqeServer o)
  unfolding new_client login_row low_word
  client_login q s = do
    let (pclr, s1) = new_client o s
    id ← json_int q.data_bytes (codes "client_id")
    let client_id = low_word (2 ^ 64) id
    login_row q (select_row client_id s1.rows) (record pclr { client_id = client_id }) s1

  -- A request in the loop of `ProcessRequset`.
  unfoldable pub process_one_request : Request → SqeServer o → Outcome (SqeServer o)
  unfolding push_respond private_request client_login string_eq
  process_one_request q s =
      if string_eq q.type (codes "public request")
      then ok (
          if string_eq q.data_bytes (codes "request for public key")
          then push_respond o q (codes "square public key") pkc s
          else s)
      else if string_eq q.type (codes "private request")
      then private_request q s
      else if string_eq q.type (codes "client login")
      then client_login q s
      else ok s

  -- The loop over `req_list`, with `prm` left: the requests that stay.
  unfoldable pub process_requests :
      ℕ → List Request → SqeServer o → Outcome (SqeServer o × List Request)
  unfolding process_one_request
  process_requests prm [] s = ok (s, [])
  process_requests zero (q ∷ qs) s = ok (s, q ∷ qs)
  process_requests (suc prm) (q ∷ qs) s = do s ← process_one_request q s; process_requests prm qs s

  -- `ProcessRequset`
  unfoldable pub process_requset : SqeServer o → Outcome (SqeServer o)
  unfolding process_requests
  process_requset s = do
    (t, left) ← process_requests 2048 s.req_list s
    ok (record t { req_list = left })
