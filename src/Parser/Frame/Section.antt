-- ===== src/Parser/Frame/Section.antt =====
-- `locate_option` on an option section.
use net_cpp.Base.{
  ℕ, suc, ◌≡◌, ◌≢◌, ◌∙◌, refl, ap, List, [], ◌∷◌, ◌++◌, Bytes, All, All-append, append_assoc, pos,
  negsuc, arith, ==_ne, ℤ,
}
use net_cpp.Number.{to_string, decimal}
use net_cpp.Number.RoundTrip.{IsDigit, decimal-All, decimal-cons}
use net_cpp.Outcome.{ok}
use net_cpp.Message.{MessageOption, Message}
use net_cpp.Factory.Encode.{option_line, push_options}
use net_cpp.Factory.Decode.{decode_message_option}
use net_cpp.Factory.RoundTrip.Head.{to_string-no_cr}
use net_cpp.Factory.RoundTrip.Options.{lines}
use net_cpp.Parser.{Parser, go_on, line_start, in_line, option_done, option_round}
use net_cpp.Parser.Run.{options, round, push_temp, locate}
use net_cpp.Parser.Frame.Head.{in_options}

abbrev pub NoCr : Bytes → Type 0
NoCr s = All (λ c. c ≢ b'\r') s

-- No CR in key and value, which would end the line.
abbrev pub OneLine : MessageOption → Type 0
OneLine o = NoCr o.key × NoCr o.value

abbrev pub in_body : List Message → Message → ℤ → Bytes → Parser
in_body ms m z temp = record (in_options ms m option_done temp) { body_state = z }

module _ (ms : List Message) (m : Message) (rest : Bytes) where
  locate-rest_of_line :
      (text temp : Bytes)
      → NoCr text
      → locate options (text ++ (b'\r' ∷ b'\n' ∷ rest)) (in_options ms m in_line temp)
        ≡ locate options rest (in_options ms m line_start (temp ++ (text ++ (b'\r' ∷ b'\n' ∷ []))))
  unfolding locate round option_round
  locate-rest_of_line [] temp a =
      ap (λ t. locate options rest (in_options ms m line_start t))
        (append_assoc temp (b'\r' ∷ []) (b'\n' ∷ []))
  locate-rest_of_line (c ∷ cs) temp a =
      let kept = append_assoc temp (c ∷ []) (cs ++ (b'\r' ∷ b'\n' ∷ [])) in
      rw (==_ne c b'\r' a.0) (
        locate-rest_of_line cs (temp ++ c ∷ []) a.1
        ∙ ap (λ t. locate options rest (in_options ms m line_start t)) kept)

-- An option line without its first quote and its CRLF.
abbrev line_text : MessageOption → Bytes
line_text o = o.key ++ (b'"' ∷ b':' ∷ b'"' ∷ (o.value ++ (b'"' ∷ [])))

line_text-NoCr : (o : MessageOption) → OneLine o → NoCr (line_text o)
line_text-NoCr o h =
    let quote : NoCr (b'"' ∷ []) = (omega arith, tt) in
    let value = All-append (λ c. c ≢ b'\r') o.value _ h.1 quote in
    let middle : NoCr (b'"' ∷ b':' ∷ b'"' ∷ (o.value ++ (b'"' ∷ []))) =
      (omega arith, (omega arith, (omega arith, value))) in
    All-append (λ c. c ≢ b'\r') o.key _ h.0 middle

line_text-lines :
    (o : MessageOption) (rest : Bytes)
    → lines (o ∷ []) rest ≡ b'"' ∷ (line_text o ++ (b'\r' ∷ b'\n' ∷ rest))
line_text-lines o rest = ap (λ t. b'"' ∷ t) (simp append_assoc)

module _ (ms : List Message) (m : Message) (rest : Bytes) where
  locate-line :
      (o : MessageOption) (temp : Bytes)
      → OneLine o
      → locate options (lines (o ∷ []) rest) (in_options ms m line_start temp)
        ≡ locate options rest (in_options ms m line_start (temp ++ option_line o))
  unfolding locate round option_round
  locate-line o temp h =
      let text = line_text o in
      let put : (temp ++ b'"' ∷ []) ++ (text ++ (b'\r' ∷ b'\n' ∷ [])) ≡ temp ++ option_line o =
        append_assoc temp (b'"' ∷ []) _ ∙ ap (λ t. temp ++ b'"' ∷ t) (simp append_assoc) in
      ap (λ b. locate options b (in_options ms m line_start temp)) (line_text-lines o rest)
      ∙ locate-rest_of_line ms m rest text (temp ++ b'"' ∷ []) (line_text-NoCr o h)
      ∙ ap (λ t. locate options rest (in_options ms m line_start t)) put

pub locate-lines :
    (ms : List Message) (m : Message) (os : List MessageOption) (temp rest : Bytes)
    → All OneLine os
    → locate options (lines os rest) (in_options ms m line_start temp)
      ≡ locate options rest (in_options ms m line_start (push_options os temp))
unfolding push_options
locate-lines ms m [] temp rest h = refl
locate-lines ms m (o ∷ os) temp rest h =
    locate-line ms m (lines os rest) o temp h.0
    ∙ locate-lines ms m os (temp ++ option_line o) rest h.1

option_round-digit :
    (d : ℕ) (p : Parser)
    → IsDigit d
    → option_round line_start d p ≡ go_on (record p { option_state = in_line })
unfolding option_round
option_round-digit d p h = ground arith

-- What follows the digits of the checksum: the end of its line, and the blank line.
abbrev pub blank : Bytes
blank = b'\r' ∷ b'\n' ∷ b'\r' ∷ b'\n' ∷ []

module _ (ms : List Message) (m n : Message) (rest : Bytes) where
  locate-blank :
      (temp : Bytes)
      → decode_message_option (temp ++ (b'\r' ∷ b'\n' ∷ [])) m ≡ ok n
      → locate options (b'\r' ∷ b'\n' ∷ rest) (in_options ms m line_start temp)
        ≡ ok (in_body ms n (negsuc 0) [], rest)
  unfolding locate round option_round
  locate-blank temp e = rw (append_assoc temp (b'\r' ∷ []) (b'\n' ∷ []), e)

  locate-digits :
      (ds temp : Bytes) (d : ℕ)
      → IsDigit d
      → NoCr ds
      → decode_message_option (temp ++ (d ∷ ds ++ blank)) m ≡ ok n
      → locate options
          (d ∷ ds ++ (b'\r' ∷ b'\n' ∷ b'\r' ∷ b'\n' ∷ rest))
          (in_options ms m line_start temp)
        ≡ ok (in_body ms n (negsuc 0) [], rest)
  unfolding locate round
  locate-digits ds temp d h no_cr e =
      let temp_d = temp ++ d ∷ [] in
      let front = temp_d ++ (ds ++ (b'\r' ∷ b'\n' ∷ [])) in
      let whole : front ++ (b'\r' ∷ b'\n' ∷ []) ≡ temp ++ (d ∷ ds ++ blank) = simp append_assoc in
      rw (option_round-digit d (push_temp d (in_options ms m line_start temp)) h)
        (locate-rest_of_line ms m (b'\r' ∷ b'\n' ∷ rest) ds temp_d no_cr)
      ∙ locate-blank front (rw whole e)

module _ (ms : List Message) (m n : Message) (rest : Bytes) where
  locate-minus :
      (buf temp : Bytes)
      → locate options (b'-' ∷ buf) (in_options ms m line_start temp)
        ≡ locate options buf (in_options ms m line_start (temp ++ b'-' ∷ []))
  unfolding locate round option_round
  locate-minus buf temp = refl

  locate-decimal :
      (k : ℕ) (temp : Bytes)
      → decode_message_option (temp ++ (decimal k ++ blank)) m ≡ ok n
      → locate options
          (decimal k ++ (b'\r' ∷ b'\n' ∷ b'\r' ∷ b'\n' ∷ rest))
          (in_options ms m line_start temp)
        ≡ ok (in_body ms n (negsuc 0) [], rest)
  unfolding to_string
  locate-decimal k temp e =
      let (d, ds, split) = decimal-cons k in
      let digit = rw split at (decimal-All k) in
      let no_cr = rw split at (to_string-no_cr (pos k)) in
      rw split (locate-digits ms m n rest ds temp d digit.0 no_cr.1 (rw split at e))

  pub locate-sum :
      (h : ℤ) (temp : Bytes)
      → decode_message_option (temp ++ (to_string h ++ blank)) m ≡ ok n
      → locate options
          (to_string h ++ (b'\r' ∷ b'\n' ∷ b'\r' ∷ b'\n' ∷ rest))
          (in_options ms m line_start temp)
        ≡ ok (in_body ms n (negsuc 0) [], rest)
  unfolding to_string
  locate-sum (pos k) temp e = locate-decimal k temp e
  locate-sum (negsuc k) temp e =
      locate-minus (decimal (suc k) ++ (b'\r' ∷ b'\n' ∷ b'\r' ∷ b'\n' ∷ rest)) temp
      ∙ locate-decimal (suc k) (temp ++ b'-' ∷ [])
          (rw (append_assoc temp (b'-' ∷ []) (decimal (suc k) ++ blank)) e)
