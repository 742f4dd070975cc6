-- ===== src/Tcp.antt =====
-- src/socket.cpp: `SocketTCPClient::SendRAW`, which sends a message of more than 1023 bytes in frames
-- and waits for an answer to each. The answers of the other side are an argument.
pub mod Frames
pub mod Receive
pub mod Marks
pub mod Rounds
pub mod Passage
use net_cpp.Base.{
  ℕ, zero, suc, ◌+◌, ◌-◌, Bool, true, false, List, [], ◌∷◌, ◌++◌, Bytes, codes, string_eq, length,
  take, ltb, ◌==◌, if◌then◌else◌,
}
use net_cpp.Outcome.{Outcome, ok, reject, fault, ◌>>=◌}
use net_cpp.Wire.{read}

-- The mark in front of a frame, and the one behind it.
abbrev pub start_mark : ℕ → Bytes
start_mark idx = if idx == 0 then codes "DSAT" else codes "DCST"

abbrev pub end_mark : Bool → Bytes
end_mark goes_on = if goes_on then codes "DCTN" else codes "DFSH"

-- `grtn > 0 && !memcmp(gbuff, "DGET", 4)`, where an answer of less than four bytes is another one.
unfoldable pub is_got : Bytes → Bool
is_got answer = string_eq (take 4 answer) (codes "DGET")

-- An answer for each frame: none is an error of `recv`.
abbrev pub on_answer {ℓ} : {A : Type ℓ} → List Bytes → (List Bytes → Outcome A) → Outcome A
on_answer [] k = reject
on_answer (a ∷ more) k = if is_got a then k more else reject

-- The loop: the frames that are sent, if all goes well. A round takes a byte at least.
unfoldable pub send_loop : ℕ → Bytes → ℕ → List Bytes → Outcome (List Bytes)
unfolding read is_got
send_loop zero msg idx answers = fault
send_loop (suc f) msg idx answers =
    if ltb idx (length msg - 1)
    then (do
      let goes_on = ltb (idx + 1000) (length msg - 1)
      let nidx = if goes_on then idx + 1000 else length msg - 1
      body ← read msg idx (nidx - idx + 1)
      let frame = start_mark idx ++ (body ++ end_mark goes_on)
      rest ← on_answer answers (send_loop f msg (nidx + 1))
      ok (frame ∷ rest))
    else ok []

-- `SocketTCPClient::SendRAW`
unfoldable pub tcp_send_raw : Bytes → List Bytes → Outcome (List Bytes)
unfolding send_loop
tcp_send_raw msg answers =
    if ltb 1023 (length msg) then send_loop (suc (length msg)) msg 0 answers else ok (msg ∷ [])
