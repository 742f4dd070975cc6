-- ===== src/Parser.antt =====
-- src/communicate/message_parser.cpp: a stream of bytes, in pieces of any size, to a queue of
-- messages. The ints that record the state are enumerations here, with their values beside them;
-- the queue `buffer` is an argument, since it is empty between two calls. Where an exception leaves
-- `parse`, the model keeps no parser.
pub mod Run
pub mod Stream
pub mod Frame
use net_cpp.Base.{
  ℕ, zero, suc, ◌+◌, ◌-◌, ◌%◌, ◌^◌, ◌≡◌, Bool, true, false, not, ◌&&◌, Option, none, some, List, [],
  ◌∷◌, ◌++◌, Bytes, codes, ℤ, pos, negsuc, length, ltb, ◌==◌, if◌then◌else◌,
}
use net_cpp.Number.{stoul}
use net_cpp.Outcome.{Outcome, ok, reject, throws, fault, ◌>>=◌}
use net_cpp.Message.{Message, new_message, clear, get_value}
use net_cpp.Factory.Decode.{
  decode_message_head, decode_message_option, decode_message_body, decode_message_tail,
}

-- head_state: -5, -4, -3 for the letters of "MSG", -2 up to CR, -1 for LF, 0.
pub data HeadState : Type 0 where
  want_m want_s want_g want_cr want_lf head_done : HeadState

-- option_state: -4 at the start of a line, -3 within it, -2 behind its CR, -1 behind the CR of the
-- blank line, 0.
pub data OptionState : Type 0 where
  line_start in_line line_cr blank_cr option_done : OptionState

-- tail_state: -4, -3, -2 for the letters of "GSM", -1, 0.
pub data TailState : Type 0 where
  want_tail_g want_tail_s want_tail_m tail_read tail_done : TailState

-- `body_state` is the number of bytes left, or -1.
pub record Parser : Type 0 where
  pub head_state : HeadState
  pub option_state : OptionState
  pub body_state : ℤ
  pub tail_state : TailState
  pub msgs : List Message
  pub temp_buffer : Bytes
  pub temp_msg : Option Message

abbrev pub new_parser : Parser
new_parser = record {
  head_state = want_m;
  option_state = line_start;
  body_state = negsuc 0;
  tail_state = want_tail_g;
  msgs = [];
  temp_buffer = [];
  temp_msg = none;
}

abbrev pub cleared : Option Message → Option Message
cleared none = none
cleared (some m) = some (clear m)

-- `reset_state`
unfoldable pub reset_state : Parser → Parser
unfolding clear
reset_state p = record p {
  head_state = want_m;
  option_state = line_start;
  body_state = negsuc 0;
  tail_state = want_tail_g;
  temp_buffer = [];
  temp_msg = cleared p.temp_msg;
}

-- What a round of a loop leaves: whether the loop goes on (no `break`), and the parser.
abbrev pub Round : Type 0
Round = Outcome (Bool × Parser)

abbrev pub go_on : Parser → Round
go_on p = ok (true, p)

abbrev pub leave : Parser → Round
leave p = ok (false, p)

-- `*temp_msg`
abbrev pub the_message : Option Message → Outcome Message
the_message none = fault
the_message (some m) = ok m

-- `if (!factory.decode...(temp_buffer, *temp_msg)) failed else next`, then `break`.
abbrev pub decoded : Outcome Message → (Message → Parser) → Parser → Round
decoded (ok m) next failed = leave (next m)
decoded reject next failed = leave failed
decoded (throws e) next failed = throws e
decoded fault next failed = fault

-- The body of the loop of `locate_head`, behind `temp_buffer.push_back(c)`.
unfoldable pub head_round : HeadState → ℕ → Parser → Round
unfolding reset_state
head_round want_m c p = go_on (if c == b'M' then record p { head_state = want_s } else p)
head_round want_s c p =
    go_on (if not (c == b'S') then reset_state p else record p { head_state = want_g })
head_round want_g c p =
    go_on (if not (c == b'G') then reset_state p else record p { head_state = want_cr })
head_round want_cr c p = go_on (if c == b'\r' then record p { head_state = want_lf } else p)
head_round want_lf c p =
    if not (c == b'\n')
    then go_on (reset_state p)
    else (the_message p.temp_msg >>= λ m.
        decoded (decode_message_head p.temp_buffer m)
          (λ n. record p { head_state = head_done; temp_msg = some n; temp_buffer = [] })
          (record (reset_state p) { temp_buffer = [] }))
head_round head_done c p = go_on p

-- The body of the loop of `locate_option`.
unfoldable pub option_round : OptionState → ℕ → Parser → Round
unfolding reset_state
option_round line_start c p = go_on (
    if c == b'"'
    then record p { option_state = in_line }
    else if c == b'\r'
    then record p { option_state = blank_cr }
    else if ltb 47 c && ltb c 58
    then record p { option_state = in_line }
    else p)
option_round in_line c p = go_on (if c == b'\r' then record p { option_state = line_cr } else p)
option_round line_cr c p =
    if c == b'\n' then go_on (record p { option_state = line_start }) else leave (reset_state p)
option_round blank_cr c p =
    if not (c == b'\n')
    then leave (reset_state p)
    else (the_message p.temp_msg >>= λ m.
        decoded (decode_message_option p.temp_buffer m)
          (λ n. record p { option_state = option_done; temp_msg = some n; temp_buffer = [] })
          (reset_state p))
option_round option_done c p = go_on p

-- `std::stoul(s_size) + 2` as a ssize_t.
unfoldable pub body_size : ℕ → ℤ
body_size v = let w = (v + 2) % 2 ^ 64 in if ltb w (2 ^ 63) then pos w else negsuc (2 ^ 64 - 1 - w)

-- The tests of the loop of `locate_body` on the bytes that are left. The test for 2 comes behind
-- the one for more than 1, and is never reached.
unfoldable pub body_left : ℤ → ℕ → Parser → Round
unfolding reset_state
body_left (pos (suc (suc n))) c p = go_on (record p { body_state = pos (suc n) })
body_left (pos (suc zero)) c p =
    if not (c == b'\n')
    then leave (reset_state (record p { body_state = pos 1 }))
    else (the_message p.temp_msg >>= λ m.
        decoded (decode_message_body p.temp_buffer m)
          (λ n. record p { body_state = pos 0; temp_msg = some n; temp_buffer = [] })
          (reset_state p))
body_left (pos zero) c p = go_on (record p { body_state = pos 0 })
body_left (negsuc n) c p = go_on (record p { body_state = negsuc n })

-- The body of the loop of `locate_body`. A missing option "size" throws a pointer, which the
-- handler for `std::runtime_error` does not catch.
unfoldable pub body_round : ℤ → ℕ → Parser → Round
unfolding body_left body_size stoul get_value
body_round (negsuc zero) c p = do
  m ← the_message p.temp_msg
  s_size ← get_value (codes "size") m
  v ← stoul s_size
  body_left (body_size v) c p
body_round s c p = body_left s c p

-- The end of the loop of `locate_tail`, in state -1.
unfoldable pub tail_end : Parser → Round
unfolding reset_state
tail_end p = the_message p.temp_msg >>= λ m.
    decoded (decode_message_tail p.temp_buffer m)
      (λ n. record p { tail_state = tail_done; temp_msg = some n; temp_buffer = [] })
      (reset_state p)

-- The body of the loop of `locate_tail`: behind the M it goes on to the end in the same round.
unfoldable pub tail_round : TailState → ℕ → Parser → Round
unfolding reset_state tail_end
tail_round want_tail_g c p =
    if c == b'G' then go_on (record p { tail_state = want_tail_s }) else leave (reset_state p)
tail_round want_tail_s c p =
    if c == b'S' then go_on (record p { tail_state = want_tail_m }) else leave (reset_state p)
tail_round want_tail_m c p =
    if c == b'M' then tail_end (record p { tail_state = tail_read }) else leave (reset_state p)
tail_round tail_read c p = tail_end p
tail_round tail_done c p = go_on p
