-- ===== src/Parser/Frame/Data.antt =====
-- `locate_body` and `locate_tail` on the data and the tail of a message.
use net_cpp.Base.{
  ℕ, suc, ◌+◌, ◌^◌, ◌<◌, ◌≡◌, refl, ap, List, [], ◌∷◌, ◌++◌, Bytes, append_assoc, pos, negsuc,
  arith, codes, length, length-append,
}
use net_cpp.Number.{decimal}
use net_cpp.Number.RoundTrip.{stoul-decimal}
use net_cpp.Outcome.{ok}
use net_cpp.Message.{Message, msg_tail, get_value}
use net_cpp.Factory.Decode.{decode_tail, expect_all, decode_message_body, decode_message_tail}
use net_cpp.Parser.{
  Parser, go_on, TailState, want_tail_g, tail_done, body_size, body_left, body_round, tail_round,
  tail_end,
}
use net_cpp.Parser.Run.{body, tail, round, locate}
use net_cpp.Parser.Frame.Section.{in_body}

abbrev pub in_tail : List Message → Message → TailState → Bytes → Parser
in_tail ms m t temp = record (in_body ms m (pos 0) temp) { tail_state = t }

body_size-small : (k : ℕ) → k + 2 < 2 ^ 31 → body_size k ≡ pos (suc (suc k))
unfolding body_size
body_size-small k h = ground arith

-- The first byte finds the option "size".
body_round-first :
    (ms : List Message) (m : Message) (k c : ℕ) (temp : Bytes)
    → k + 2 < 2 ^ 31
    → get_value (codes "size") m ≡ ok (decimal k)
    → body_round (negsuc 0) c (in_body ms m (negsuc 0) temp)
      ≡ go_on (in_body ms m (pos (suc k)) temp)
unfolding body_round body_left
body_round-first ms m k c temp short e =
    rw (e, stoul-decimal k (omega (arith, short)), body_size-small k short)

module _ (ms : List Message) (m n : Message) (rest : Bytes) where
  locate-rest_of_data :
      (text temp : Bytes)
      → decode_message_body (temp ++ (text ++ b'\n' ∷ [])) m ≡ ok n
      → locate body (text ++ b'\n' ∷ rest) (in_body ms m (pos (suc (length text))) temp)
        ≡ ok (in_tail ms n want_tail_g [], rest)
  unfolding locate round body_round body_left
  locate-rest_of_data [] temp e = rw e
  locate-rest_of_data (c ∷ cs) temp e =
      locate-rest_of_data cs (temp ++ c ∷ []) (rw (append_assoc temp (c ∷ []) (cs ++ b'\n' ∷ [])) e)

  pub locate-data :
      (d : Bytes)
      → length d + 2 < 2 ^ 31
      → get_value (codes "size") m ≡ ok (decimal (length d))
      → decode_message_body (d ++ (b'\r' ∷ b'\n' ∷ [])) m ≡ ok n
      → locate body (d ++ (b'\r' ∷ b'\n' ∷ rest)) (in_body ms m (negsuc 0) [])
        ≡ ok (in_tail ms n want_tail_g [], rest)
  unfolding locate round
  locate-data [] short e f =
      rw (body_round-first ms m 0 b'\r' (b'\r' ∷ []) short e)
        (locate-rest_of_data [] (b'\r' ∷ []) f)
  locate-data (c ∷ cs) short e f =
      let text = cs ++ b'\r' ∷ [] in
      let split = append_assoc cs (b'\r' ∷ []) (b'\n' ∷ rest) in
      let split_end = append_assoc cs (b'\r' ∷ []) (b'\n' ∷ []) in
      let size : length text ≡ suc (length cs) = omega (arith, length-append {0} cs (b'\r' ∷ [])) in
      rw (body_round-first ms m (suc (length cs)) c (c ∷ []) short e, ← split, ← size)
        (locate-rest_of_data text (c ∷ []) (rw (ap (λ t. c ∷ t) split_end) f))

pub locate-tail :
    (ms : List Message) (m : Message) (rest : Bytes)
    → locate tail (msg_tail ++ rest) (in_tail ms m want_tail_g [])
      ≡ ok (in_tail ms m tail_done [], rest)
unfolding locate round tail_round tail_end decode_message_tail decode_tail expect_all
locate-tail ms m rest = refl
