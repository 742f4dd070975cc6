-- ===== src/Parser/Stream/Pieces.antt =====
-- `parse` takes a stream in any pieces.
use net_cpp.Base.{ℕ, suc, ◌≤◌, ◌≡◌, true, false, Bytes, length, arith}
use net_cpp.Outcome.{Outcome, ok, ◌>>=◌}
use net_cpp.Parser.{Parser, Round, reset_state}
use net_cpp.Parser.Run.{is_tail_done, part_of, locate, finish, parse_loop}
use net_cpp.Parser.Stream.{feed, fits, IsOpen}

abbrev pub IsUnfinished : Parser → Type 0
IsUnfinished p = is_tail_done p.tail_state ≡ false

pub finish-IsUnfinished : (p : Parser) → IsUnfinished (finish p)
unfolding finish reset_state
finish-IsUnfinished p = ground arith

-- A parser behind a round.
abbrev settle : Round → Outcome Parser
settle r = r >>= λ (go, q). ok (finish q)

-- What `parse` does behind a call of one of the loops.
abbrev after : ℕ → Bytes → Parser × Bytes → Outcome Parser
after f now (r, rest) = parse_loop f now rest (finish r)

-- A loop in the middle of the bytes, and what `parse` does behind it, take byte after byte.
Agrees : Bytes → Bytes → Type 0
Agrees now b =
    (f : ℕ) (p : Parser)
    → length b ≤ suc f
    → IsOpen p
    → fits now b p ≡ true
    → (locate (part_of p) b p >>= after f now) ≡ feed now b p
