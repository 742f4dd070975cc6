-- ===== src/Settings/Files.antt =====
-- `read_file` and `read_settings`: a file of bytes through a stream, in pieces of 512 bytes.
use net_cpp.Base.{
  ◌==◌, ==_iff, ltb→lt, ℕ, zero, suc, ◌+◌, ◌-◌, ◌<◌, ◌≤◌, ◌≡◌, ◌≢◌, ◌⊎◌, refl, sym, ap, ◌∙◌, Bool,
  true, false, not, ◌&&◌, [], ◌∷◌, ◌++◌, Bytes, length, take, drop, replicate, length-drop,
  take-append-drop, append_assoc, append-nil, ltb, leb, le→ltb_false, lt→ltb, if◌then◌else◌,
  Bool-cases, inl, inr, arith,
}
use net_cpp.Outcome.{Outcome, ok, fault, ◌>>=◌}
use net_cpp.Settings.{read_settings}

-- `memset` and `ifsf.read(tmp, n)`: n bytes, zeros behind the end of the stream.
abbrev piece : ℕ → Bytes → Bytes
piece n left = take n left ++ replicate (n - length left) 0

-- The bytes that a round reads: none if the size is 512.
abbrev pub round_size : ℕ → ℕ → ℕ
round_size size idx_count =
    if ltb size 512
    then size
    else if ltb 512 size
    then (if leb 512 (size - idx_count) then 512 else size - idx_count)
    else 0

-- The loop of `read_file`, where `left` is what the stream still has: a read behind its end sets
-- `eof`.
unfoldable pub file_loop : ℕ → ℕ → Bytes → Bool → ℕ → Bytes → Outcome Bytes
file_loop zero size left eof idx_count buff = fault
file_loop (suc f) size left eof idx_count buff =
    let n = round_size size idx_count in
    let rest =
      file_loop f size (drop n left) (ltb (length left) n) (idx_count + n) (buff ++ piece n left) in
    if not eof && ltb idx_count size then rest else ok buff

-- `read_file`
unfoldable pub read_file : ℕ → Bytes → ℕ → Outcome Bytes
unfolding file_loop
read_file f file size = file_loop f size file false 0 []

-- `read_settings` of a file, whose size `stat` gives.
unfoldable pub settings_of_file : ℕ → Bytes → Outcome Bytes
unfolding read_file read_settings
settings_of_file f file = do fbs ← read_file f file (length file); ok (read_settings fbs)

piece-all : (n : ℕ) (left : Bytes) → n ≤ length left → piece n left ≡ take n left
piece-all n left h =
    let none_left : n - length left ≡ 0 = omega (arith, h) in
    rw none_left (append-nil (take n left))

file_loop-end :
    (f size : ℕ) (left : Bytes) (eof : Bool) (idx : ℕ) (buff : Bytes)
    → size ≤ idx
    → file_loop (suc f) size left eof idx buff ≡ ok buff
unfolding file_loop
file_loop-end f size left true idx buff h = refl
file_loop-end f size left false idx buff h = rw (le→ltb_false idx size h)

-- A round that reads bytes which the stream has.
file_loop-read :
    (f size : ℕ) (left : Bytes) (idx : ℕ) (buff : Bytes)
    → idx < size
    → round_size size idx ≤ length left
    → let n = round_size size idx in
      file_loop (suc f) size left false idx buff
      ≡ file_loop f size (drop n left) false (idx + n) (buff ++ take n left)
unfolding file_loop
file_loop-read f size left idx buff on enough =
    let n = round_size size idx in
    rw (lt→ltb idx size on, le→ltb_false (length left) n enough, piece-all n left enough)

round_size-fits :
    (size idx left : ℕ)
    → size ≢ 512
    → (size < 512 → (idx ≡ 0) ⊎ (idx ≡ size))
    → idx + left ≡ size
    → 0 < left
    → (0 < round_size size idx)
      × (round_size size idx ≤ left)
      × (size < 512 → (idx + round_size size idx ≡ 0) ⊎ (idx + round_size size idx ≡ size))
round_size-fits size idx left ne small e h = elim (Bool-cases (ltb size 512)) [
  | inl t ↦ elim (small (ltb→lt size 512 t)) [
    | inl z ↦ rw t (omega (arith, z, e, h), omega (arith, z, e), λ _. inr (omega (arith, z)))
    | inr z ↦ absurd (omega (arith, z, e, h))
  ]
  | inr t ↦ (ground arith, ground arith, λ k. absurd (ground arith))
]

file_loop-stuck : (f : ℕ) (file : Bytes) → file_loop f 512 file false 0 [] ≡ fault
unfolding file_loop
file_loop-stuck zero file = refl
file_loop-stuck (suc f) file =
    let none_read : 0 - length file ≡ 0 = omega arith in
    rw (none_read, le→ltb_false (length file) 0 (omega arith), file_loop-stuck f file)

file_loop-all :
    (f size : ℕ) (left : Bytes) (idx : ℕ) (buff : Bytes)
    → size ≢ 512
    → (size < 512 → (idx ≡ 0) ⊎ (idx ≡ size))
    → idx + length left ≡ size
    → length left < f
    → file_loop f size left false idx buff ≡ ok (buff ++ left)
file_loop-all zero size left idx buff ne small e fuel = absurd (omega (arith, fuel))
file_loop-all (suc f) size [] idx buff ne small e fuel =
    file_loop-end f size [] false idx buff (omega (arith, e)) ∙ ap ok (sym (append-nil buff))
file_loop-all (suc f) size (c ∷ cs) idx buff ne small e fuel =
    let left = c ∷ cs in
    let n = round_size size idx in
    let (some_bytes, enough, ends) =
      round_size-fits size idx (length left) ne small e (omega arith) in
    let less : length (drop n left) ≡ length left - n = length-drop n left in
    file_loop-read f size left idx buff (omega (arith, e)) enough
    ∙ file_loop-all f size (drop n left) (idx + n) (buff ++ take n left) ne ends
        (omega (arith, less, e, enough)) (omega (arith, less, some_bytes, fuel))
    ∙ ap ok (
        append_assoc buff (take n left) (drop n left)
        ∙ ap (λ t. buff ++ t) (take-append-drop n left))

-- `read_file` of a file with its size reads the whole file, unless the size is 512: then no fuel of
-- more than the file's bytes is enough, and the loop does not end.
pub read_file_lem :
    (f : ℕ) (file : Bytes)
    → length file < f
    → read_file f file (length file) ≡ (if length file == 512 then fault else ok file)
unfolding read_file
read_file_lem f file h = elim (Bool-cases (length file == 512)) [
  | inl t ↦
      let e : length file ≡ 512 = (==_iff _ _).0 t in
      rw t (ap (λ n. file_loop f n file false 0 []) e ∙ file_loop-stuck f file)
  | inr t ↦
      let ne : length file ≢ 512 = λ e. ground (arith, e, t) in
      rw t (file_loop-all f (length file) file 0 [] ne (λ _. inl refl) (omega arith) h)
]
