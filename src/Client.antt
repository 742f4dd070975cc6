-- ===== src/Client.antt =====
-- src/client.cpp: `Client`, its requests that wait for an answer. A callback and its argument are
-- numbers, and a call of it and a message to a server are events; the mutex is held for a whole step.
pub mod Passes
pub mod Silence
use net_cpp.Base.{
  ℕ, zero, suc, ◌+◌, ◌%◌, ◌^◌, ◌*◌, Bool, true, false, not, ◌&&◌, Option, none, some, List, [], ◌∷◌,
  ◌++◌, Bytes, codes, string_eq, ltb, ◌==◌, if◌then◌else◌,
}
use net_cpp.Outcome.{Outcome, ok, fault, ◌>>=◌}
use net_cpp.Wire.Packet.{Packet, packet_to_rawdata, rawdata_to_packet}
use net_cpp.Wire.Signed.{
  RawData, signed_rawdata, check_marks, check_raw_msg, process_signed_raw_msg,
}
use net_cpp.Wire.Request.{Request, Respond, request_to_packet, packet_to_respond, respond_type}
use net_cpp.Wire.Queues.{encrypt_rsa_raw_msg}

-- `request_listener`
pub record RequestListener : Type 0 where
  pub callback : ℕ
  pub p_req : Request
  pub timeout : ℕ
  pub clicks : ℕ
  pub trwd : RawData
  pub active : Bool
  pub args : ℕ

-- A call of a callback, with none for NULL, and a call of `SendRawData` to an address.
pub data Event : Type 0 where
  called : ℕ → ℕ → Option Respond → Event
  sent : Bytes → RawData → Event

-- `Client`, without its sockets and keys.
pub record Client : Type 0 where
  pub req_lst : List RequestListener
  pub res_lst : List Respond
  pub listen_port : ℕ

-- The loop over the requests, for an answer: every active one with its number is called.
unfoldable pub answer : Respond → List RequestListener → List RequestListener × List Event
answer pres [] = ([], [])
answer pres (l ∷ ls) =
    let (ls', events) = answer pres ls in
    if l.active && l.p_req.r_id == pres.r_id
    then (record l { active = false } ∷ ls', called l.callback l.args (some pres) ∷ events)
    else (l ∷ ls', events)

-- The loop over the answers.
unfoldable pub answer_all : List Respond → List RequestListener → List RequestListener × List Event
unfolding answer
answer_all [] ls = (ls, [])
answer_all (r ∷ rs) ls =
    let (ls', events) = answer r ls in
    let (ls'', more) = answer_all rs ls' in (ls'', events ++ more)

-- A request in the loop over the time-outs: itself, and what happens. Where its time is over the
-- loop calls it, frees it, and writes `active` into what it freed: that is undefined.
unfoldable pub time_out : RequestListener → Outcome (RequestListener × List Event)
time_out l =
    let clicks = (l.clicks + 1) % 2 ^ 32 in
    if not l.active
    then ok (l, [])
    else if ltb l.clicks l.timeout
    then ok (
      record l { clicks = clicks },
      (if clicks % 2 == 0 then sent l.p_req.t_addr l.trwd ∷ [] else []),
    )
    else fault

unfoldable pub time_out_all : List RequestListener → Outcome (List RequestListener × List Event)
unfolding time_out
time_out_all [] = ok ([], [])
time_out_all (l ∷ ls) = do
  (l', events) ← time_out l
  (ls', more) ← time_out_all ls
  ok (l' ∷ ls', events ++ more)

-- `remove_if(... active == false)`
unfoldable pub only_active : List RequestListener → List RequestListener
only_active [] = []
only_active (l ∷ ls) = if l.active then l ∷ only_active ls else only_active ls

-- What `ProcessRequestListener` leaves: the client, and what happened.
pub record Pass : Type 0 where
  pub client : Client
  pub events : List Event

-- `ProcessRequestListener`
unfoldable pub process_request_listener : Client → Outcome Pass
unfolding answer_all time_out_all only_active
process_request_listener c =
    let (answered, calls) = answer_all c.res_lst c.req_lst in
    time_out_all answered >>= λ (ls, events). ok (record {
      client = record c { req_lst = only_active ls; res_lst = [] };
      events = calls ++ events;
    })

-- `NewRequest`: `r_id` is what the constructor of a request draws.
unfoldable pub new_request : ℕ → Bytes → Bytes → Bytes → Client → Request
new_request r_id t_addr type body c = record {
  r_id = r_id;
  type = type;
  data_bytes = body;
  recv_port = c.listen_port;
  t_addr = t_addr;
}

-- `packet npkt;` and `raw_data`, with what they hold at first.
module _ (bufsiz : ℕ) (encrypt : Bytes → Bytes) (blank : Packet) (fresh : RawData) where
  -- `NewRequestListener`, with RSA as a parameter. `timeout` is no less than 0.
  unfoldable pub new_request_listener :
      Request → Bool → ℕ → ℕ → ℕ → Client → Outcome (Client × List Event)
  unfolding request_to_packet packet_to_rawdata signed_rawdata encrypt_rsa_raw_msg
  new_request_listener preq if_encrypt timeout args callback c = do
    body ← packet_to_rawdata bufsiz (request_to_packet preq blank)
    let raw = record fresh { data_bytes = body }
    trwd ←
        if if_encrypt
        then signed_rawdata (codes "RPKT") (encrypt_rsa_raw_msg encrypt raw)
        else signed_rawdata (codes "SPKT") raw
    ok (
      record c {
        req_lst =
            c.req_lst
            ++ record {
              callback = callback;
              p_req = preq;
              timeout = timeout;
              clicks = 0;
              trwd = trwd;
              active = true;
              args = args;
            }
              ∷ [];
      },
      sent preq.t_addr trwd ∷ [],
    )

  -- A datagram in the loop of `clientRespondDeamon`: `blank_respond` is a new respond.
  unfoldable pub take_datagram : Respond → Bytes → Client → Outcome Client
  unfolding check_marks process_signed_raw_msg rawdata_to_packet packet_to_respond string_eq
  take_datagram blank_respond str c = do
    valid ← check_raw_msg str
    if valid
        then (do
          r ← process_signed_raw_msg str fresh
          if string_eq r.info (codes "SPKT")
              then (do
                p ← rawdata_to_packet r.data_bytes blank
                if p.type == respond_type
                    then (do
                      res ← packet_to_respond p blank_respond
                      ok (record c { res_lst = c.res_lst ++ res ∷ [] }))
                    else ok c)
              else ok c)
        else ok c
