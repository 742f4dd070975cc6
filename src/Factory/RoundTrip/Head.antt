-- ===== src/Factory/RoundTrip/Head.antt =====
-- The head: `decode_head` behind `encode_head`.
use net_cpp.Base.{
  ℕ, suc, ◌+◌, ◌^◌, ◌≡◌, ◌≢◌, ap, ◌∙◌, ◌∷◌, ◌++◌, Bytes, All, All-mono, ℤ, pos, negsuc, eqb_ℤ_iff,
  length, length-append, append_assoc, arith,
}
use net_cpp.Number.{to_string, decimal, InRange}
use net_cpp.Number.RoundTrip.{IsDigit, decimal-All, stoi-to_string, to_int16_id, InRange-mono}
use net_cpp.Outcome.{ok, At, At-start}
use net_cpp.Message.{Message, msg_version, msg_head, set_head}
use net_cpp.Factory.Encode.{head_text}
use net_cpp.Factory.Decode.{decode_head}
use net_cpp.Factory.Cursor.{At-skip, At-next, expect-At, read_until-At, At-read, expect_all-At}

-- A number is printed with digits and a minus sign only.
pub to_string-All :
    (P : ℕ → Type 0) → ((c : ℕ) → IsDigit c → P c) → P b'-' → (z : ℤ) → All P (to_string z)
unfolding to_string
to_string-All P digit minus (pos n) = All-mono IsDigit P digit (decimal n) (decimal-All n)
to_string-All P digit minus (negsuc n) =
    (minus, All-mono IsDigit P digit (decimal (suc n)) (decimal-All (suc n)))

to_string-no_space : (z : ℤ) → All (λ c. c ≢ b' ') (to_string z)
to_string-no_space = to_string-All (λ c. c ≢ b' ') (λ c h. ground arith) (ground arith)

pub to_string-no_cr : (z : ℤ) → All (λ c. c ≢ b'\r') (to_string z)
to_string-no_cr = to_string-All (λ c. c ≢ b'\r') (λ c h. ground arith) (ground arith)

-- The fields that the head carries fit their types, and the version is the one understood.
pub record HeadFits (m : Message) : Type 0 where
  pub version_is : m.version ≡ msg_version
  pub type_range : InRange (2 ^ 15) m.type
  pub tid_range : InRange (2 ^ 31) m.tid

module _ (m : Message) (rest : Bytes) where
  tid_part : Bytes
  tid_part = to_string m.tid ++ (b'\r' ∷ (b'\n' ∷ rest))

  type_part : Bytes
  type_part = to_string m.type ++ (b' ' ∷ tid_part)

  version_part : Bytes
  version_part = to_string m.version ++ (b' ' ∷ type_part)

  head_text-append : head_text m ++ rest ≡ msg_head ++ (b' ' ∷ version_part)
  unfolding version_part type_part tid_part
  head_text-append = simp append_assoc

module _ (raw : Bytes) (m n : Message) (rest : Bytes) (fits : HeadFits m) where
  abbrev behind_version : ℕ
  behind_version = 4 + length (to_string m.version) + 1

  abbrev behind_type : ℕ
  behind_type = behind_version + length (to_string m.type) + 1

  abbrev behind_head : ℕ
  behind_head = behind_type + length (to_string m.tid) + 1 + 1

  decode_head-parts :
      At raw 0 (msg_head ++ (b' ' ∷ version_part m rest))
      → decode_head raw n ≡ ok (behind_head, set_head m.tid m.type n)
  unfolding decode_head version_part type_part tid_part
  decode_head-parts a0 =
      let a3 : At raw 3 (b' ' ∷ version_part m rest) = At-skip raw 0 msg_head _ a0 in
      let a4 : At raw 4 (version_part m rest) = At-next raw 3 b' ' _ a3 in
      let a5 = At-read raw 4 b' ' (to_string m.version) (type_part m rest) a4 in
      let a6 = At-read raw behind_version b' ' (to_string m.type) (tid_part m rest) a5 in
      let a7 = At-read raw behind_type b'\r' (to_string m.tid) (b'\n' ∷ rest) a6 in
      rw (
        expect_all-At raw 0 msg_head (b' ' ∷ version_part m rest) a0,
        expect-At raw 3 b' ' (version_part m rest) a3,
        read_until-At raw 4 b' ' (to_string m.version) (type_part m rest) a4
            (to_string-no_space m.version),
        stoi-to_string m.version (rw fits.version_is (omega arith)),
        to_int16_id m.version (rw fits.version_is (omega arith)),
        (eqb_ℤ_iff m.version msg_version).1 fits.version_is,
        read_until-At raw behind_version b' ' (to_string m.type) (tid_part m rest) a5
            (to_string-no_space m.type),
        stoi-to_string m.type (InRange-mono (2 ^ 15) (2 ^ 31) m.type (omega arith) fits.type_range),
        read_until-At raw behind_type b'\r' (to_string m.tid) (b'\n' ∷ rest) a6
            (to_string-no_cr m.tid),
        stoi-to_string m.tid fits.tid_range,
        expect-At raw (behind_type + length (to_string m.tid) + 1) b'\n' rest a7,
        to_int16_id m.type fits.type_range,
      )

  At-behind_head : At raw 0 (msg_head ++ (b' ' ∷ version_part m rest)) → At raw behind_head rest
  unfolding version_part type_part tid_part
  At-behind_head a0 =
      let a3 : At raw 3 (b' ' ∷ version_part m rest) = At-skip raw 0 msg_head _ a0 in
      let a4 : At raw 4 (version_part m rest) = At-next raw 3 b' ' _ a3 in
      let a5 = At-read raw 4 b' ' (to_string m.version) (type_part m rest) a4 in
      let a6 = At-read raw behind_version b' ' (to_string m.type) (tid_part m rest) a5 in
      let a7 = At-read raw behind_type b'\r' (to_string m.tid) (b'\n' ∷ rest) a6 in
      At-next raw (behind_type + length (to_string m.tid) + 1) b'\n' rest a7

-- Behind the head of m, whatever follows it, `decode_head` gives the index behind it and the two
-- numbers that it carries.
pub decode_head-head_text :
    (m n : Message) (rest : Bytes)
    → HeadFits m
    → decode_head (head_text m ++ rest) n ≡ ok (length (head_text m), set_head m.tid m.type n)
decode_head-head_text m n rest fits =
    let raw = head_text m ++ rest in
    let start : At raw 0 (msg_head ++ (b' ' ∷ version_part m rest)) =
      rw (← head_text-append m rest) (At-start raw) in
    let end = At-behind_head raw m n rest fits start in
    let at_end : behind_head raw m n rest fits ≡ length (head_text m) =
      omega (arith, end.count, length-append {0} (head_text m) rest) in
    decode_head-parts raw m n rest fits start ∙ ap (λ i. ok (i, set_head m.tid m.type n)) at_end
