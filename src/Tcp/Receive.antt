-- ===== src/Tcp/Receive.antt =====
-- src/socket.cpp: `SocketTCPCServer::RecvRAW_SM`, which puts the frames of a message together. What
-- each `recv` reads is an argument, and so are the bytes that realloc adds.
use net_cpp.Base.{
  ℕ, ◌+◌, ◌-◌, Bool, true, false, ◌||◌, Option, none, some, List, [], ◌∷◌, ◌++◌, Bytes, codes,
  string_eq, length, take, drop, ltb, if◌then◌else◌,
}
use net_cpp.Outcome.{Outcome, ok, fault, ◌>>=◌}

-- What the call has read: `bdtas`, the block `*p_rdt`, and the number of answers "DGET". `unread` is
-- what `recv` has not read yet.
pub record Received : Type 0 where
  pub size : ℕ
  pub block : Option Bytes
  pub gets : ℕ
  pub unread : List Bytes

-- memcpy to the place i of a block
unfoldable pub write_at : ℕ → Bytes → Bytes → Bytes
write_at i p b = take i b ++ (p ++ drop (i + length p) b)

module _ (fresh : ℕ → Bytes) where
  -- realloc to n bytes
  unfoldable pub realloc : Bytes → ℕ → Bytes
  realloc b n = take n b ++ fresh (n - length b)

  -- The block behind a frame. A frame without place for its two marks makes the size of the copy
  -- wrap; malloc(0) is not NULL.
  unfoldable pub take_frame : Bool → Bytes → ℕ → Option Bytes → Outcome Bytes
  unfolding realloc write_at
  take_frame true buff bdtas none = ok buff
  take_frame false buff bdtas none =
      if ltb (length buff) 8 then fault else ok (take (length buff - 8) (drop 4 buff))
  take_frame if_signal buff bdtas (some b) =
      if ltb (length buff) 8
      then fault
      else ok (
          write_at bdtas (take (length buff - 8) (drop 4 buff))
            (realloc b (bdtas + length buff - 8)))

  -- The loop. `recv` gives nothing when the connection is closed; behind less than 4 bytes the
  -- comparison with "DFSH" reads in front of the buffer.
  unfoldable pub recv_loop : Bool → Received → List Bytes → Outcome Received
  unfolding take_frame string_eq
  recv_loop dsat r [] = ok (record r { unread = [] })
  recv_loop dsat r ([] ∷ more) = ok (record r { unread = more })
  recv_loop dsat r ((x ∷ xs) ∷ more) =
      let buff = x ∷ xs in
      let if_signal = string_eq (take 4 buff) (codes "NETC") in
      let dsat = dsat || if_signal || string_eq (take 4 buff) (codes "DSAT") in
      let dfsh = if_signal || string_eq (drop (length buff - 4) buff) (codes "DFSH") in
      let size = r.size + length buff in
      if ltb (length buff) 4 then fault else (do
        next ←
            if dsat
            then (do
              b ← take_frame if_signal buff r.size r.block
              ok (record r { size = size; block = some b; gets = r.gets + 1 }))
            else ok (record r { size = size })
        if dfsh then ok (record next { unread = more }) else recv_loop dsat next more)

  -- `RecvRAW_SM`
  unfoldable pub recv_raw_sm : List Bytes → Outcome Received
  unfolding recv_loop
  recv_raw_sm chunks =
      recv_loop false (record { size = 0; block = none; gets = 0; unread = [] }) chunks
