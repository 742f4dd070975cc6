-- ===== src/Tests/Clients.antt =====
-- A client with requests.
use net_cpp.Outcome.{ok}
use net_cpp.Base.{some, ◌≡◌, refl, true, [], ◌∷◌, codes, replicate, arith}
use net_cpp.Wire.Signed.{RawData}
use net_cpp.Wire.Request.{Request, Respond}
use net_cpp.Client.{RequestListener, called, sent, Client, process_request_listener}
use net_cpp.Client.Passes.{process_request_listener-staying}
use net_cpp.Client.Silence.{silent, silent-later}

abbrev key_request : Request
key_request = record {
  r_id = 41;
  type = codes "public request";
  data_bytes = codes "request for public key";
  recv_port = 9050;
  t_addr = replicate 16 1;
}

abbrev some_raw : RawData
some_raw = record {
  data_bytes = codes "x";
  r_id = 0;
  head = codes "NETC";
  tail = codes "CTEN";
  info = codes "SPKT";
  msg = codes "NETCSPKTxCTEN";
  address = replicate 16 0;
}

abbrev first_listener : RequestListener
first_listener = record {
  callback = 7;
  p_req = key_request;
  timeout = 2;
  clicks = 0;
  trwd = some_raw;
  active = true;
  args = 1;
}

abbrev second_listener : RequestListener
second_listener = record first_listener {
  p_req = record key_request { r_id = 42 };
  timeout = 3;
  clicks = 1;
}

abbrev some_answer : Respond
some_answer = record { r_id = 41; type = codes "key"; buff = codes "k"; t_addr = replicate 16 1 }

abbrev waiting_client : Client
waiting_client = record {
  req_lst = first_listener ∷ second_listener ∷ [];
  res_lst = [];
  listen_port = 9050;
}

abbrev patient_client : Client
patient_client = record waiting_client { req_lst = first_listener ∷ [] }

abbrev answered_client : Client
answered_client = record waiting_client { res_lst = some_answer ∷ [] }

-- The first request is called and leaves, the second is sent again.
process_request_listener-staying_example :
    process_request_listener answered_client
    ≡ ok (record {
      client = record waiting_client { req_lst = record second_listener { clicks = 2 } ∷ [] };
      events = called 7 1 (some some_answer) ∷ sent (replicate 16 1) some_raw ∷ [];
    })
process_request_listener-staying_example = process_request_listener-staying answered_client

-- The first pass sends nothing, and the second the message of the first request.
silent-later_example :
    silent 2 patient_client
    ≡ ok (
      record patient_client { req_lst = record first_listener { clicks = 2 } ∷ [] },
      sent (replicate 16 1) some_raw ∷ [],
    )
silent-later_example = silent-later 2 patient_client ((refl, omega arith, omega arith), tt) refl
