-- ===== src/Wire/Deamon.antt =====
-- The loop of `serverDeamon` of src/server.cpp: datagrams to boxes and raw data.
use net_cpp.Base.{ℕ, zero, suc, List, [], ◌∷◌, ◌++◌, Bytes, if◌then◌else◌}
use net_cpp.Outcome.{Outcome, ok, ◌>>=◌}
use net_cpp.Wire.Box.{check_net_box, process_net_box}
use net_cpp.Wire.Signed.{RawData, check_raw_msg, process_signed_raw_msg}
use net_cpp.Wire.Listener.{BoxListener, receive_box}

-- `boxls` and `rawdata_in` of a server.
pub record Inbox : Type 0 where
  pub boxls : List BoxListener
  pub rawdata_in : List RawData

-- What a call of `RecvRAW` gives: a length of 0, of -1, or a datagram with its sender; the last
-- field is what `new raw_data()` makes, where it is called.
pub data Received : Type 0 where
  nothing failed : Received
  got : Bytes → Bytes → RawData → Received

-- A round: a datagram that is neither a box nor a signed message is dropped.
unfoldable pub take_received : Received → Inbox → Outcome Inbox
unfolding process_net_box receive_box process_signed_raw_msg
take_received nothing s = ok s
take_received failed s = ok s
take_received (got str address fresh) s = do
  boxed ← check_net_box str
  if boxed
      then (do
        b ← process_net_box str
        boxls ← receive_box address b s.boxls
        ok (record s { boxls = boxls }))
      else (do
        signed ← check_raw_msg str
        if signed
            then (do
              r ← process_signed_raw_msg str fresh
              ok (record s { rawdata_in = s.rawdata_in ++ record r { address = address } ∷ [] }))
            else ok s)

-- The loop, with prm more rounds behind the first, and what is not received. Nothing is left to
-- receive where the list ends.
unfoldable pub server_deamon : ℕ → List Received → Inbox → Outcome (Inbox × List Received)
unfolding take_received
server_deamon prm [] s = ok (s, [])
server_deamon prm (nothing ∷ more) s = ok (s, more)
server_deamon zero (x ∷ more) s = do s ← take_received x s; ok (s, more)
server_deamon (suc prm) (x ∷ more) s = do s ← take_received x s; server_deamon prm more s
