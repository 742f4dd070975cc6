-- ===== src/Parser/Stream.antt =====
-- The parser of src/communicate/message_parser.cpp on the pieces of a stream.
pub mod Rounds
pub mod Pieces
pub mod Runs
use net_cpp.Base.{
  codes, ◌+◌, ◌%◌, ◌^◌, ◌==◌, ℕ, zero, suc, ◌≤◌, ◌≡◌, ◌≢◌, refl, sym, ap, ◌∙◌, Bool, true, false,
  not, ◌&&◌, Option, none, some, List, [], ◌∷◌, ◌++◌, Bytes, ℤ, pos, negsuc, length, if◌then◌else◌,
  arith, Bool-cases, inl, inr, append_assoc,
}
use net_cpp.Outcome.{Outcome, ok, reject, throws, fault, ◌>>=◌}
use net_cpp.Number.{stoul}
use net_cpp.Message.{Message, get_value}
use net_cpp.Parser.{
  Parser, Round, HeadState, OptionState, TailState, want_m, want_s, want_g, want_cr, want_lf,
  head_done, line_start, in_line, line_cr, blank_cr, option_done, want_tail_g, want_tail_s,
  want_tail_m, tail_read, tail_done, head_round, option_round, body_left, body_round, tail_end,
  tail_round, reset_state, cleared,
}
use net_cpp.Parser.Run.{
  Part, head, options, body, tail, nowhere, is_tail_done, part_of, round, push_temp, locate, enter,
  finish, parse_loop, parse,
}

-- `parse` called for one byte after the other.
abbrev pub feed : Bytes → Bytes → Parser → Outcome Parser
feed now [] p = ok p
feed now (c ∷ cs) p = parse now (c ∷ []) p >>= feed now cs

-- What the option "size" of a message says.
abbrev pub size_of : Option Message → Outcome ℕ
size_of none = fault
size_of (some m) = get_value (codes "size") m >>= stoul

-- A size from which `std::stoul(s_size) + 2` wraps to 0: 2^64 - 2, as the text "-2" also reads.
abbrev pub is_wrapping : Outcome ℕ → Bool
is_wrapping (ok v) = (v + 2) % 2 ^ 64 == 0
is_wrapping _ = false

abbrev pub fits_behind : (Parser → Bool) → Outcome Parser → Bool
fits_behind fits_rest (ok q) = fits_rest q
fits_behind fits_rest _ = true

-- At no byte the message that is being built has such a size.
abbrev pub fits : Bytes → Bytes → Parser → Bool
fits now [] p = true
fits now (c ∷ cs) p =
    not (is_wrapping (size_of (enter now p).temp_msg))
    && fits_behind (fits now cs) (parse now (c ∷ []) p)

abbrev pub has_msg : Option Message → Bool
has_msg none = false
has_msg (some m) = true

-- A message is being built, and is not complete.
pub record IsOpen (p : Parser) : Type 0 where
  pub unfinished : is_tail_done p.tail_state ≡ false
  pub begun : has_msg p.temp_msg ≡ true

-- The same of a round that goes on.
abbrev pub StaysOpen : Round → Type 0
StaysOpen (ok (true, q)) = IsOpen q
StaysOpen _ = Unit

head_round-IsOpen : (s : HeadState) (c : ℕ) (p : Parser) → IsOpen p → StaysOpen (head_round s c p)
unfolding head_round reset_state
head_round-IsOpen want_m c p h = ground arith
head_round-IsOpen _ c p h = ground arith

option_round-IsOpen :
    (s : OptionState) (c : ℕ) (p : Parser) → IsOpen p → StaysOpen (option_round s c p)
unfolding option_round reset_state
option_round-IsOpen line_start c p h = ground arith
option_round-IsOpen _ c p h = ground arith

body_left-IsOpen : (s : ℤ) (c : ℕ) (p : Parser) → IsOpen p → StaysOpen (body_left s c p)
unfolding body_left reset_state
body_left-IsOpen (pos (suc (suc n))) c p h = ground arith
body_left-IsOpen (pos (suc zero)) c p h = ground arith
body_left-IsOpen (pos zero) c p h = ground arith
body_left-IsOpen (negsuc n) c p h = ground arith

body_round-IsOpen : (s : ℤ) (c : ℕ) (p : Parser) → IsOpen p → StaysOpen (body_round s c p)
unfolding body_round
body_round-IsOpen (negsuc zero) c p h = ground (arith, λ (s : ℤ). body_left-IsOpen s c p h)
body_round-IsOpen (negsuc (suc n)) c p h = body_left-IsOpen (negsuc (suc n)) c p h
body_round-IsOpen (pos n) c p h = body_left-IsOpen (pos n) c p h

tail_round-IsOpen :
    (s : TailState) (c : ℕ) (p : Parser) → IsOpen p → s ≢ tail_done → StaysOpen (tail_round s c p)
unfolding tail_round tail_end reset_state
tail_round-IsOpen want_tail_g c p h ne = ground arith
tail_round-IsOpen _ c p h ne = ground arith

-- A round of the loop that `parse` calls, on a message being built, leaves one if it goes on.
pub round-IsOpen : (part : Part) (c : ℕ) (p : Parser) → IsOpen p → StaysOpen (round part c p)
unfolding round
round-IsOpen head c p h = head_round-IsOpen p.head_state c p h
round-IsOpen options c p h = option_round-IsOpen p.option_state c p h
round-IsOpen body c p h = body_round-IsOpen p.body_state c p h
round-IsOpen tail c p h = tail_round-IsOpen p.tail_state c p h (λ e. ground arith)
round-IsOpen nowhere c p h = tt
