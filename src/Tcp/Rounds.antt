-- ===== src/Tcp/Rounds.antt =====
-- A round of `RecvRAW_SM` on a frame.
use net_cpp.Base.{
  ℕ, ◌+◌, ◌-◌, ◌≤◌, ◌≡◌, refl, Bool, true, false, not, ◌||◌, some, List, [], ◌∷◌, ◌++◌, Bytes,
  codes, string_eq, length, take, drop, le→ltb_false, if◌then◌else◌, arith,
}
use net_cpp.Outcome.{ok}
use net_cpp.Tcp.{end_mark}
use net_cpp.Tcp.Frames.{length-end_mark}
use net_cpp.Tcp.Receive.{Received, take_frame, recv_loop}
use net_cpp.Tcp.Marks.{front_mark, mark-ends, length-front_mark}

module _ (fresh : ℕ → Bytes) where
  -- A round of the loop that takes a frame.
  recv_loop-round :
      (dsat last : Bool) (r : Received) (f b : Bytes) (more : List Bytes)
      → 4 ≤ length f
      → string_eq (take 4 f) (codes "NETC") ≡ false
      → (dsat || false || string_eq (take 4 f) (codes "DSAT")) ≡ true
      → string_eq (drop (length f - 4) f) (codes "DFSH") ≡ last
      → take_frame fresh false f r.size r.block ≡ ok b
      → recv_loop fresh dsat r (f ∷ more) ≡ (
          let next : Received = record r {
            size = r.size + length f;
            block = some b;
            gets = r.gets + 1;
          } in
          if last then ok (record next { unread = more }) else recv_loop fresh true next more)
  unfolding recv_loop
  recv_loop-round dsat last r [] b more big h1 h2 h3 e = absurd (omega (arith, big))
  recv_loop-round dsat last r (x ∷ xs) b more big h1 h2 h3 e =
      rw (le→ltb_false (length (x ∷ xs)) 4 big, h1, h2, h3, e) refl

  not_signal :
      (first : Bool)
      → (string_eq (front_mark first) (codes "NETC") ≡ false)
        × ((not first || false || string_eq (front_mark first) (codes "DSAT")) ≡ true)
  unfolding string_eq
  not_signal true = (refl, refl)
  not_signal false = (refl, refl)

  is_last : (goes : Bool) → string_eq (end_mark goes) (codes "DFSH") ≡ not goes
  unfolding string_eq
  is_last true = refl
  is_last false = refl

  pub recv_loop-frame :
      (first goes : Bool) (r : Received) (f body b : Bytes) (more : List Bytes)
      → f ≡ front_mark first ++ (body ++ end_mark goes)
      → take_frame fresh false f r.size r.block ≡ ok b
      → recv_loop fresh (not first) r (f ∷ more) ≡ (
          let next : Received = record r {
            size = r.size + length f;
            block = some b;
            gets = r.gets + 1;
          } in
          if not goes then ok (record next { unread = more }) else recv_loop fresh true next more)
  recv_loop-frame first goes r f body b more is taken =
      let (front, back, len) =
        mark-ends f (front_mark first) body (end_mark goes) (length-front_mark first)
          (length-end_mark goes) is in
      recv_loop-round (not first) (not goes) r f b more (omega (arith, len))
        (rw front (not_signal first).0) (rw front (not_signal first).1) (rw back (is_last goes))
        taken
