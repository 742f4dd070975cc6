-- ===== src/Parser/Frame/Head.antt =====
-- `locate_head` on the head of a message.
use net_cpp.Base.{
  ℕ, ◌≡◌, ◌≢◌, ◌∙◌, refl, ap, some, List, [], ◌∷◌, ◌++◌, Bytes, All, All-append, append_assoc,
  negsuc, arith, ==_ne,
}
use net_cpp.Number.{to_string}
use net_cpp.Outcome.{ok}
use net_cpp.Message.{Message, msg_head, set_head}
use net_cpp.Factory.Encode.{head_text}
use net_cpp.Factory.Decode.{decode_message_head}
use net_cpp.Factory.RoundTrip.Head.{HeadFits, decode_head-head_text, to_string-no_cr}
use net_cpp.Parser.{
  Parser, HeadState, want_m, want_cr, head_done, OptionState, line_start, want_tail_g, head_round,
}
use net_cpp.Parser.Run.{head, round, locate}

-- Parsers in the head and behind it.
module _ (ms : List Message) (m : Message) where
  abbrev pub in_head : HeadState → Bytes → Parser
  in_head s temp = record {
    head_state = s;
    option_state = line_start;
    body_state = negsuc 0;
    tail_state = want_tail_g;
    msgs = ms;
    temp_buffer = temp;
    temp_msg = some m;
  }

  abbrev pub in_options : OptionState → Bytes → Parser
  in_options s temp = record (in_head head_done temp) { option_state = s }

module _ (ms : List Message) (m n : Message) (rest : Bytes) where
  locate-text :
      (text temp : Bytes)
      → All (λ c. c ≢ b'\r') text
      → decode_message_head (temp ++ (text ++ (b'\r' ∷ b'\n' ∷ []))) m ≡ ok n
      → locate head (text ++ (b'\r' ∷ b'\n' ∷ rest)) (in_head ms m want_cr temp)
        ≡ ok (in_options ms n line_start [], rest)
  unfolding locate round head_round
  locate-text [] temp a e = rw (append_assoc temp (b'\r' ∷ []) (b'\n' ∷ []), e)
  locate-text (c ∷ cs) temp a e =
      let kept = append_assoc temp (c ∷ []) (cs ++ (b'\r' ∷ b'\n' ∷ [])) in
      rw (==_ne c b'\r' a.0) (locate-text cs (temp ++ c ∷ []) a.1 (rw kept e))

-- What stands between the letters and the end of the line.
abbrev head_numbers : Message → Bytes
head_numbers s =
    b' ' ∷ (to_string s.version ++ (b' ' ∷ (to_string s.type ++ (b' ' ∷ to_string s.tid))))

space-no_cr : (c : ℕ) → c ≡ b' ' → c ≢ b'\r'
space-no_cr c e = omega (arith, e)

head_numbers-no_cr : (s : Message) → All (λ c. c ≢ b'\r') (head_numbers s)
head_numbers-no_cr s =
    let no_cr : ℕ → Type 0 = λ c. c ≢ b'\r' in
    let last = to_string-no_cr s.tid in
    let middle =
      All-append no_cr (to_string s.type) _ (to_string-no_cr s.type)
        (space-no_cr b' ' refl, last) in
    (
      space-no_cr b' ' refl,
      All-append no_cr (to_string s.version) _ (to_string-no_cr s.version)
          (space-no_cr b' ' refl, middle),
    )

head_text-numbers :
    (s : Message) (rest : Bytes)
    → head_text s ++ rest ≡ msg_head ++ (head_numbers s ++ (b'\r' ∷ b'\n' ∷ rest))
head_text-numbers s rest = simp append_assoc

pub locate_head-head_text :
    (ms : List Message) (s m : Message) (rest : Bytes)
    → HeadFits s
    → locate head (head_text s ++ rest) (in_head ms m want_m [])
      ≡ ok (in_options ms (set_head s.tid s.type m) line_start [], rest)
unfolding locate round head_round decode_message_head
locate_head-head_text ms s m rest fits =
    let n = set_head s.tid s.type m in
    let decodes : decode_message_head (msg_head ++ (head_numbers s ++ (b'\r' ∷ b'\n' ∷ []))) m
        ≡ ok n =
      rw (← head_text-numbers s [], decode_head-head_text s m [] fits) in
    ap (λ b. locate head b (in_head ms m want_m [])) (head_text-numbers s rest)
    ∙ (locate-text ms m n rest (head_numbers s) msg_head (head_numbers-no_cr s) decodes)
