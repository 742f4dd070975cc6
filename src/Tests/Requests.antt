-- ===== src/Tests/Requests.antt =====
-- Requests, responds and the queues.
use net_cpp.Base.{◌≡◌, refl, false, [], codes, replicate, arith}
use net_cpp.Outcome.{ok, fault}
use net_cpp.Wire.Packet.{Packet}
use net_cpp.Wire.Request.{
  Request, Respond, request_to_packet, packet_to_request, respond_to_packet, packet_to_respond,
}
use net_cpp.Wire.Request.RoundTrip.{
  packet_to_request-request_to_packet, packet_to_respond-respond_to_packet,
}

abbrev blank_packet : Packet
blank_packet = record { type = 0; address = []; buffs = []; if_encrypt = false }

abbrev key_request : Request
key_request = record {
  r_id = 9000;
  type = codes "public request";
  data_bytes = codes "request for public key";
  recv_port = 9050;
  t_addr = replicate 16 1;
}

abbrev blank_request : Request
blank_request = record { r_id = 1; type = []; data_bytes = []; recv_port = 0; t_addr = [] }

packet_to_request-request_to_packet_example :
    packet_to_request (request_to_packet key_request blank_packet) blank_request ≡ ok key_request
packet_to_request-request_to_packet_example =
    packet_to_request-request_to_packet key_request blank_request blank_packet
      (record {
        id_fits = omega arith;
        type_fits = omega arith;
        data_fits = omega arith;
        port_fits = omega arith;
        addr_size = refl;
      })
      refl

abbrev key_respond : Respond
key_respond = record {
  r_id = 9000;
  type = codes "key";
  buff = codes "1234";
  t_addr = replicate 16 1;
}

packet_to_respond-respond_to_packet_example :
    packet_to_respond (respond_to_packet (codes "behind") key_respond blank_packet) key_respond
    ≡ fault
packet_to_respond-respond_to_packet_example =
    packet_to_respond-respond_to_packet (codes "behind") key_respond key_respond blank_packet
      (omega arith) refl (ground arith) (omega arith) refl
