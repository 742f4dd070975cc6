-- ===== src/Tcp/Frames.antt =====
-- What the frames carry.
use net_cpp.Base.{
  ℕ, zero, suc, ◌+◌, ◌-◌, ◌%◌, ◌≤◌, ◌<◌, ◌≡◌, refl, ap, subst, sym, ◌∙◌, Bool, true, false, List,
  [], ◌∷◌, ◌++◌, Bytes, codes, string_eq, length, take, drop, replicate, take-append, drop-append,
  take-append-drop, length-take, length-drop, length-append, append-nil, ltb, ◌==◌, if◌then◌else◌,
  lt→ltb, le→ltb_false, ltb→lt, Bool-cases, inl, inr, arith,
}
use net_cpp.Outcome.{ok, At, At-start}
use net_cpp.Factory.Cursor.{At-skip}
use net_cpp.Wire.{read-At}
use net_cpp.Tcp.{start_mark, end_mark, is_got, send_loop, tcp_send_raw}

-- A frame without its marks.
abbrev pub payload : Bytes → Bytes
payload frame = take (length frame - 8) (drop 4 frame)

abbrev pub payloads : List Bytes → Bytes
payloads [] = []
payloads (f ∷ fs) = payload f ++ payloads fs

-- The bytes that are sent: a last frame of one byte is not.
abbrev pub sent_size : ℕ → ℕ
sent_size n = if n % 1001 == 1 then n - 1 else n

sent_size-step : (n k : ℕ) → n ≡ 1001 + k → 1001 + sent_size k ≡ sent_size n
sent_size-step n k e =
    let same : n % 1001 ≡ k % 1001 = omega (arith, e) in rw same (ground (arith, e))

payload_marks :
    (front body back : Bytes)
    → length front ≡ 4
    → length back ≡ 4
    → payload (front ++ (body ++ back)) ≡ body
payload_marks front body back hf hb =
    let behind : drop 4 (front ++ (body ++ back)) ≡ body ++ back =
      rw hf at (drop-append front (body ++ back)) in
    let size : length (front ++ (body ++ back)) - 8 ≡ length body =
      omega (arith, length-append {0} front (body ++ back), length-append {0} body back, hf, hb) in
    rw (size, behind, take-append body back)

length-start_mark : (idx : ℕ) → length (start_mark idx) ≡ 4
length-start_mark idx = ground arith

pub length-end_mark : (b : Bool) → length (end_mark b) ≡ 4
length-end_mark b = ground arith

take-nil : (k : ℕ) → take k [] ≡ codes ""
take-nil zero = refl
take-nil (suc k) = refl

take-split : (n k : ℕ) (xs : Bytes) → take n xs ++ take k (drop n xs) ≡ take (n + k) xs
take-split zero k xs = ap (λ j. take j xs) (omega arith)
take-split (suc n) k [] = take-nil k ∙ sym (take-nil (suc n + k))
take-split (suc n) k (x ∷ xs) =
    let e : suc (n + k) ≡ suc n + k = omega arith in
    ap (λ ys. x ∷ ys) (take-split n k xs) ∙ ap (λ j. take j (x ∷ xs)) e

-- The other side takes every frame.
abbrev pub all_got : ℕ → List Bytes
all_got n = replicate n (codes "DGET")

module _ (msg : Bytes) where
  send_loop-round :
      (f idx nidx : ℕ) (b : Bool) (rest body more : Bytes) (fs : List Bytes)
      → idx < length msg - 1
      → ltb (idx + 1000) (length msg - 1) ≡ b
      → nidx ≡ (if b then idx + 1000 else length msg - 1)
      → At msg idx rest
      → rest ≡ body ++ more
      → nidx + 1 ≡ idx + length body
      → 0 < length body
      → send_loop f msg (nidx + 1) (all_got f) ≡ ok fs
      → send_loop (suc f) msg idx (all_got (suc f))
        ≡ ok ((start_mark idx ++ (body ++ end_mark b)) ∷ fs)
  unfolding send_loop is_got string_eq
  send_loop-round f idx nidx b rest body more fs on goes e a split l some_byte rec =
      let size : length body ≡ nidx - idx + 1 = omega (arith, l, some_byte) in
      rw (
        lt→ltb idx (length msg - 1) on,
        goes,
        ← e,
        read-At msg idx (nidx - idx + 1) body more (rw split at a) size,
        rec,
      )

  send_loop-end :
      (f idx : ℕ) (answers : List Bytes)
      → 0 < f
      → length msg - 1 ≤ idx
      → send_loop f msg idx answers ≡ ok []
  unfolding send_loop
  send_loop-end zero idx answers pos off = absurd (omega (arith, pos))
  send_loop-end (suc f) idx answers pos off = rw (le→ltb_false idx (length msg - 1) off)

  abbrev Sends : ℕ → ℕ → Bytes → Type 0
  Sends f idx rest =
      (fs : List Bytes) × (send_loop f msg idx (all_got f) ≡ ok fs)
      × (payloads fs ≡ take (sent_size (length rest)) rest)

  Sends-more :
      (f idx : ℕ) (rest : Bytes)
      → At msg idx rest
      → ltb (idx + 1000) (length msg - 1) ≡ true
      → Sends f (idx + 1000 + 1) (drop 1001 rest)
      → Sends (suc f) idx rest
  Sends-more f idx rest a goes (fs, eq, same) =
      let body = take 1001 rest in
      let more = drop 1001 rest in
      let split : rest ≡ body ++ more = sym (take-append-drop 1001 rest) in
      let far = ltb→lt (idx + 1000) (length msg - 1) goes in
      let n : length body ≡ 1001 = omega (arith, length-take 1001 rest, a.count, far) in
      let left = length-drop 1001 rest in
      let total : 1001 + sent_size (length more) ≡ sent_size (length rest) =
        sent_size-step (length rest) (length more) (omega (arith, left, a.count, far)) in
      (
        (start_mark idx ++ (body ++ end_mark true)) ∷ fs,
        send_loop-round f idx (idx + 1000) true rest body more fs (omega (arith, far)) goes refl a
            split (omega (arith, n)) (omega (arith, n)) eq,
        rw
            (
              payload_marks (start_mark idx) body (end_mark true) (length-start_mark idx)
                  (length-end_mark true),
              same,
            )
            (take-split 1001 (sent_size (length more)) rest ∙ ap (λ j. take j rest) total),
      )

  Sends-last :
      (f idx : ℕ) (rest : Bytes)
      → At msg idx rest
      → length rest < suc f
      → ltb idx (length msg - 1) ≡ true
      → ltb (idx + 1000) (length msg - 1) ≡ false
      → Sends (suc f) idx rest
  Sends-last f idx rest a fuel on stops =
      let before = ltb→lt idx (length msg - 1) on in
      let ends =
        send_loop-end f (length msg - 1 + 1) (all_got f) (omega (arith, fuel, a.count, before))
          (omega arith) in
      let all : sent_size (length rest) ≡ length rest = ground (arith, a.count, before) in
      let whole : take (length rest) rest ≡ rest = rw append-nil at (take-append rest []) in
      (
        (start_mark idx ++ (rest ++ end_mark false)) ∷ [],
        send_loop-round f idx (length msg - 1) false rest rest [] [] before stops refl a
            (sym (append-nil rest)) (omega (arith, a.count, before))
            (omega (arith, a.count, before)) ends,
        rw
            (
              payload_marks (start_mark idx) rest (end_mark false) (length-start_mark idx)
                  (length-end_mark false),
              all,
              whole,
            )
            (append-nil rest),
      )

  send_loop-payloads :
      (f idx : ℕ) (rest : Bytes) → At msg idx rest → length rest < f → Sends f idx rest
  send_loop-payloads zero idx rest a fuel = absurd (omega (arith, fuel))
  send_loop-payloads (suc f) idx rest a fuel = elim (Bool-cases (ltb idx (length msg - 1))) [
    | inl on ↦ elim (Bool-cases (ltb (idx + 1000) (length msg - 1))) [
      | inl goes ↦
          let far = ltb→lt (idx + 1000) (length msg - 1) goes in
          let left = length-drop 1001 rest in
          let n : length (take 1001 rest) ≡ 1001 =
            omega (arith, length-take 1001 rest, a.count, far) in
          let split : rest ≡ take 1001 rest ++ drop 1001 rest = sym (take-append-drop 1001 rest) in
          let behind =
            rw n at (At-skip msg idx (take 1001 rest) (drop 1001 rest) (rw split at a)) in
          let step : idx + 1001 ≡ idx + 1000 + 1 = omega arith in
          let next : At msg (idx + 1000 + 1) (drop 1001 rest) =
            subst (λ j. At msg j (drop 1001 rest)) step behind in
          Sends-more f idx rest a goes (
            send_loop-payloads f (idx + 1000 + 1) (drop 1001 rest) next
              (omega (arith, left, fuel, a.count, far)))
      | inr stops ↦ Sends-last f idx rest a fuel on stops
    ]
    | inr off ↦
        let past : length msg - 1 ≤ idx = ground arith in
        let none_left : sent_size (length rest) ≡ 0 = ground (arith, a.count) in
        ([], send_loop-end (suc f) idx (all_got (suc f)) (omega arith) past, rw none_left)
  ]

-- Where the other side takes every frame, the frames of a message of more than 1023 bytes carry its
-- bytes in order, but for the last one where the length leaves the remainder 1 modulo 1001.
pub tcp_send_raw-payloads :
    (msg : Bytes)
    → 1023 < length msg
    → (fs : List Bytes) × (tcp_send_raw msg (all_got (suc (length msg))) ≡ ok fs)
      × (payloads fs ≡ take (sent_size (length msg)) msg)
unfolding tcp_send_raw
tcp_send_raw-payloads msg long =
    let (fs, eq, same) =
      send_loop-payloads msg (suc (length msg)) 0 msg (At-start msg) (omega arith) in
    (fs, rw (lt→ltb 1023 (length msg) long) eq, same)
