-- ===== src/Parser/Stream/Rounds.antt =====
-- Where a loop of src/communicate/message_parser.cpp goes on, its part of the message goes on too.
use net_cpp.Base.{
  ℕ, zero, suc, ◌+◌, ◌%◌, ◌^◌, ◌==◌, ◌≡◌, refl, sym, subst, Bool-cases, inl, inr, true, false,
  Option, none, some, codes, ℤ, pos, negsuc, arith,
}
use net_cpp.Number.{stoul}
use net_cpp.Outcome.{Outcome, ok, reject, throws, fault, ◌>>=◌, bind_assoc}
use net_cpp.Message.{Message, get_value}
use net_cpp.Parser.{
  Parser, Round, HeadState, OptionState, TailState, want_m, line_start, want_tail_g, head_round,
  option_round, body_left, body_size, body_round, tail_end, tail_round, reset_state,
}
use net_cpp.Parser.Run.{
  Part, head, options, body, tail, is_head_done, is_option_done, is_body_done, is_tail_done,
  part_of, round, push_temp,
}
use net_cpp.Parser.Stream.{size_of, is_wrapping}

-- The part of a round that goes on.
abbrev pub StaysIn : Part → Round → Type 0
StaysIn part (ok (true, q)) = part_of q ≡ part
StaysIn part _ = Unit

head_round-StaysIn :
    (s : HeadState) (c : ℕ) (p : Parser)
    → is_head_done s ≡ false
    → is_head_done p.head_state ≡ false
    → StaysIn head (head_round s c p)
unfolding head_round reset_state part_of
head_round-StaysIn want_m c p hs h = ground arith
head_round-StaysIn _ c p hs h = ground arith

option_round-StaysIn :
    (s : OptionState) (c : ℕ) (p : Parser)
    → is_option_done s ≡ false
    → is_head_done p.head_state ≡ true
    → is_option_done p.option_state ≡ false
    → StaysIn options (option_round s c p)
unfolding option_round reset_state part_of
option_round-StaysIn line_start c p hs h k = ground arith
option_round-StaysIn _ c p hs h k = ground arith

body_left-StaysIn :
    (s : ℤ) (c : ℕ) (p : Parser)
    → is_body_done s ≡ false
    → is_head_done p.head_state ≡ true
    → is_option_done p.option_state ≡ true
    → StaysIn body (body_left s c p)
unfolding body_left reset_state part_of
body_left-StaysIn (pos (suc (suc n))) c p hs h k = ground arith
body_left-StaysIn (pos (suc zero)) c p hs h k = ground arith
body_left-StaysIn (pos zero) c p hs h k = ground arith
body_left-StaysIn (negsuc n) c p hs h k = ground arith

body_size-done : (v : ℕ) → ((v + 2) % 2 ^ 64 == 0) ≡ false → is_body_done (body_size v) ≡ false
unfolding body_size
body_size-done v h = ground arith

size-StaysIn :
    (size : Outcome ℕ) (c : ℕ) (p : Parser)
    → is_wrapping size ≡ false
    → is_head_done p.head_state ≡ true
    → is_option_done p.option_state ≡ true
    → StaysIn body (size >>= λ v. body_left (body_size v) c p)
size-StaysIn (ok v) c p w h k = body_left-StaysIn (body_size v) c p (body_size-done v w) h k
size-StaysIn reject c p w h k = tt
size-StaysIn (throws x) c p w h k = tt
size-StaysIn fault c p w h k = tt

body_start :
    (o : Option Message) (c : ℕ) (p : Parser)
    → p.temp_msg ≡ o
    → body_round (negsuc 0) c p ≡ (size_of o >>= λ v. body_left (body_size v) c p)
unfolding body_round
body_start none c p e = rw e refl
body_start (some m) c p e = rw e (sym (bind_assoc (get_value (codes "size") m) stoul _))

body_round-StaysIn :
    (s : ℤ) (c : ℕ) (p : Parser)
    → is_body_done s ≡ false
    → is_wrapping (size_of p.temp_msg) ≡ false
    → is_head_done p.head_state ≡ true
    → is_option_done p.option_state ≡ true
    → StaysIn body (body_round s c p)
unfolding body_round
body_round-StaysIn (negsuc zero) c p hs w h k =
    subst (StaysIn body) (sym (body_start p.temp_msg c p refl))
      (size-StaysIn (size_of p.temp_msg) c p w h k)
body_round-StaysIn (negsuc (suc n)) c p hs w h k = body_left-StaysIn (negsuc (suc n)) c p hs h k
body_round-StaysIn (pos n) c p hs w h k = body_left-StaysIn (pos n) c p hs h k

tail_round-StaysIn :
    (s : TailState) (c : ℕ) (p : Parser)
    → is_tail_done s ≡ false
    → is_head_done p.head_state ≡ true
    → is_option_done p.option_state ≡ true
    → is_body_done p.body_state ≡ true
    → StaysIn tail (tail_round s c p)
unfolding tail_round tail_end reset_state part_of
tail_round-StaysIn want_tail_g c p hs h k b = ground arith
tail_round-StaysIn _ c p hs h k b = ground arith

-- A round of the loop that `parse` calls stays in its part if it goes on: a loop ends with its part.
pub round-StaysIn :
    (c : ℕ) (p : Parser)
    → is_wrapping (size_of p.temp_msg) ≡ false
    → is_tail_done p.tail_state ≡ false
    → StaysIn (part_of p) (round (part_of p) c (push_temp c p))
unfolding part_of round
round-StaysIn c p w unfinished = elim (Bool-cases (is_head_done p.head_state)) [
  | inr e ↦ rw e (head_round-StaysIn p.head_state c (push_temp c p) e e)
  | inl e ↦ elim (Bool-cases (is_option_done p.option_state)) [
    | inr k ↦ rw (e, k) (option_round-StaysIn p.option_state c (push_temp c p) k e k)
    | inl k ↦ elim (Bool-cases (is_body_done p.body_state)) [
      | inr b ↦ rw (e, k, b) (body_round-StaysIn p.body_state c (push_temp c p) b w e k)
      | inl b ↦
          rw (e, k, b, unfinished)
            (tail_round-StaysIn p.tail_state c (push_temp c p) unfinished e k b)
    ]
  ]
]
