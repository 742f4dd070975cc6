-- ===== src/Tests/Sockets.antt =====
-- Frames of a long message.
use net_cpp.Base.{ℕ, ◌≡◌, suc, List, Bytes, length, replicate, length-replicate, take, arith}
use net_cpp.Outcome.{ok}
use net_cpp.Tcp.{tcp_send_raw}
use net_cpp.Tcp.Frames.{all_got, payloads, sent_size}
use net_cpp.Tcp.Passage.{Passes, recv_raw_sm-tcp_send_raw}

abbrev long_text : Bytes
long_text = replicate 1030 7

abbrev zeros : ℕ → Bytes
zeros n = replicate n 0

recv_raw_sm-tcp_send_raw_example :
    (fs : List Bytes) × (tcp_send_raw long_text (all_got (suc (length long_text))) ≡ ok fs)
    × (payloads fs ≡ take (sent_size (length long_text)) long_text)
    × Passes zeros long_text fs
recv_raw_sm-tcp_send_raw_example =
    recv_raw_sm-tcp_send_raw zeros (λ n. length-replicate {A = ℕ} n 0) long_text (omega arith)
