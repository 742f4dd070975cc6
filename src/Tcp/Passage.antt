-- ===== src/Tcp/Passage.antt =====
-- A long message from `SendRAW` to `RecvRAW_SM`.
use net_cpp.Base.{
  ℕ, suc, ◌+◌, ◌-◌, ◌<◌, ◌≤◌, ◌≡◌, refl, ap, ◌∙◌, Bool, true, false, not, none, some, List, [], ◌∷◌,
  ◌++◌, Bytes, length, take, append-nil, append_assoc, take-past, drop-past, take-append-more,
  length-take, length-append, lt→ltb, le→ltb_false, if◌then◌else◌, arith,
}
use net_cpp.Outcome.{ok}
use net_cpp.Tcp.{end_mark, tcp_send_raw}
use net_cpp.Tcp.Frames.{payload, payloads, sent_size, all_got, tcp_send_raw-payloads}
use net_cpp.Tcp.Receive.{realloc, write_at, Received, take_frame, recv_loop, recv_raw_sm}
use net_cpp.Tcp.Marks.{front_mark, IsFrames, send_loop-IsFrames, big_frame, length-payload}
use net_cpp.Tcp.Rounds.{recv_loop-frame}

-- The bytes of all frames.
abbrev pub total : List Bytes → ℕ
total [] = 0
total (f ∷ fs) = length f + total fs

module _ (fresh : ℕ → Bytes) where
  -- What a frame behind the first one adds to the block: realloc's bytes stand before it.
  abbrev pub grown : Bytes → Bytes
  grown f = take 8 (fresh (8 + length (payload f))) ++ payload f

  abbrev pub spaced : List Bytes → Bytes
  spaced [] = []
  spaced (f ∷ fs) = grown f ++ spaced fs

  -- What `RecvRAW_SM` makes of all frames of a message.
  abbrev pub Passes : Bytes → List Bytes → Type 0
  Passes msg fs =
      (f : Bytes) × (more : List Bytes) × (fs ≡ f ∷ more)
      × (recv_raw_sm fresh fs
          ≡ ok (record {
            size = total fs;
            block = some (payload f ++ spaced more);
            gets = length fs;
            unread = [];
          }))
      × (total fs ≡ length (payload f ++ spaced more) + 8)

module _ (fresh : ℕ → Bytes) (length-fresh : (n : ℕ) → length (fresh n) ≡ n) where
  length-grown : (f : Bytes) → 8 ≤ length f → length (grown fresh f) ≡ length f
  length-grown f big =
      let bytes = fresh (8 + length (payload f)) in
      omega (
        arith,
        big,
        length-payload f,
        length-append {0} (take 8 bytes) (payload f),
        length-take 8 bytes,
        length-fresh (8 + length (payload f)),
      )

  take_frame-some :
      (f b : Bytes)
      → 8 ≤ length f
      → take_frame fresh false f (length b + 8) (some b) ≡ ok (b ++ grown fresh f)
  unfolding take_frame realloc write_at
  take_frame-some f b big =
      let p = payload f in
      let n : length b + 8 + length f - 8 ≡ length b + length f = omega arith in
      let added : length b + length f - length b ≡ 8 + length p =
        omega (arith, length-payload f, big) in
      let added_bytes = fresh (8 + length p) in
      let all : length (b ++ added_bytes) ≤ length b + 8 + length p =
        omega (arith, length-append {0} b added_bytes, length-fresh (8 + length p)) in
      rw
        (
          le→ltb_false (length f) 8 big,
          n,
          take-past (length b + length f) b (omega arith),
          added,
          take-append-more b added_bytes (length b + 8) 8 refl,
          drop-past (length b + 8 + length p) (b ++ added_bytes) all,
          append-nil p,
        )
        (ap ok (append_assoc b (take 8 added_bytes) p))

  taken_frame :
      (size : ℕ) (b f body : Bytes) (goes : Bool)
      → f ≡ front_mark false ++ (body ++ end_mark goes)
      → size ≡ length b + 8
      → (8 ≤ length f) × (take_frame fresh false f size (some b) ≡ ok (b ++ grown fresh f))
  taken_frame size b f body goes is e =
      let big = big_frame false goes f body is in (big, rw e (take_frame-some f b big))

  -- The loop behind a frame.
  last_or_more :
      (goes : Bool) (size gets : ℕ) (b : Bytes) (fs : List Bytes)
      → IsFrames false fs
      → (goes ≡ false → fs ≡ [])
      → size ≡ length b + 8
      → (let next : Received = record { size = size; block = some b; gets = gets; unread = [] } in
          if not goes then ok (record next { unread = fs }) else recv_loop fresh true next fs)
        ≡ ok (record {
          size = size + total fs;
          block = some (b ++ spaced fresh fs);
          gets = gets + length fs;
          unread = [];
        })
  unfolding recv_loop
  last_or_more false size gets b fs frames ends e =
      rw (ends refl) (rw (append-nil b) (ap ok (ground arith)))
  last_or_more true size gets b [] frames ends e = rw (append-nil b) (ap ok (ground arith))
  last_or_more true size gets b (f ∷ fs) (body, goes, is, stops, frames) ends e =
      let (big, taken) = taken_frame size b f body goes is e in
      let len : size + length f ≡ length (b ++ grown fresh f) + 8 =
        omega (arith, e, length-append {0} b (grown fresh f), length-grown f big) in
      let size_sum : size + length f + total fs ≡ size + (length f + total fs) = omega arith in
      let gets_sum : gets + 1 + length fs ≡ gets + suc (length fs) = omega arith in
      recv_loop-frame fresh false goes _ f body (b ++ grown fresh f) fs is taken
      ∙ last_or_more goes (size + length f) (gets + 1) (b ++ grown fresh f) fs frames stops len
      ∙ rw (append_assoc b (grown fresh f) (spaced fresh fs), size_sum, gets_sum) refl

  -- The frames of a message, from the first one on.
  recv_raw_sm-frames :
      (f : Bytes) (fs : List Bytes)
      → IsFrames true (f ∷ fs)
      → recv_raw_sm fresh (f ∷ fs)
        ≡ ok (record {
          size = total (f ∷ fs);
          block = some (payload f ++ spaced fresh fs);
          gets = length (f ∷ fs);
          unread = [];
        })
  unfolding recv_raw_sm take_frame
  recv_raw_sm-frames f fs (body, goes, is, ends, frames) =
      let big = big_frame true goes f body is in
      let taken : take_frame fresh false f 0 none ≡ ok (payload f) =
        rw (le→ltb_false (length f) 8 big) refl in
      let size : 0 + length f ≡ length (payload f) + 8 = omega (arith, length-payload f, big) in
      let size_sum : 0 + length f + total fs ≡ length f + total fs = omega arith in
      let gets_sum : 0 + 1 + length fs ≡ suc (length fs) = omega arith in
      recv_loop-frame fresh true goes _ f body (payload f) fs is taken
      ∙ last_or_more goes (0 + length f) (0 + 1) (payload f) fs frames ends size
      ∙ rw (size_sum, gets_sum) refl

  length-spaced : (fs : List Bytes) → IsFrames false fs → length (spaced fresh fs) ≡ total fs
  length-spaced [] frames = refl
  length-spaced (f ∷ fs) (body, goes, is, ends, frames) = omega (
    arith,
    length-append {0} (grown fresh f) (spaced fresh fs),
    length-grown f (big_frame false goes f body is),
    length-spaced fs frames,
  )

  frames-Passes :
      (msg : Bytes) (fs : List Bytes)
      → 1023 < length msg
      → payloads fs ≡ take (sent_size (length msg)) msg
      → IsFrames true fs
      → Passes fresh msg fs
  frames-Passes msg [] long carries frames =
      absurd (ground (arith, long, ap length carries, length-take (sent_size (length msg)) msg))
  frames-Passes msg (f ∷ more) long carries (body, goes, is, ends, frames) = (
    f,
    more,
    refl,
    recv_raw_sm-frames f more (body, goes, is, ends, frames),
    omega (
      arith,
      length-append {0} (payload f) (spaced fresh more),
      length-payload f,
      big_frame true goes f body is,
      length-spaced more frames,
    ),
  )

-- A message of more than 1023 bytes that the other side takes frame by frame: `RecvRAW_SM` reads
-- all the frames that `SendRAW` sends and answers each. Its block holds what the frames carry, the
-- bytes of the message in order but for a last frame of one byte, with eight bytes that nothing
-- was written to in front of each frame but the first. The size that it returns is that of the
-- frames with their marks, eight more than the block has.
pub recv_raw_sm-tcp_send_raw :
    (fresh : ℕ → Bytes)
    → ((n : ℕ) → length (fresh n) ≡ n)
    → (msg : Bytes) → 1023 < length msg
    → (fs : List Bytes) × (tcp_send_raw msg (all_got (suc (length msg))) ≡ ok fs)
      × (payloads fs ≡ take (sent_size (length msg)) msg)
      × Passes fresh msg fs
unfolding tcp_send_raw
recv_raw_sm-tcp_send_raw fresh length-fresh msg long =
    let (fs, sends, carries) = tcp_send_raw-payloads msg long in
    let frames : IsFrames true fs =
      send_loop-IsFrames msg (suc (length msg)) 0 (all_got (suc (length msg))) fs
        (rw (lt→ltb 1023 (length msg) long) at sends) in
    (fs, sends, carries, frames-Passes fresh length-fresh msg fs long carries frames)
