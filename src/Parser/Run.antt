-- ===== src/Parser/Run.antt =====
-- `parse` and the four loops that it calls.
use net_cpp.Base.{
  ℕ, zero, suc, Bool, true, false, not, Option, none, some, List, [], ◌∷◌, ◌++◌, Bytes, ℤ, pos,
  length, if◌then◌else◌,
}
use net_cpp.Outcome.{Outcome, ok, fault, ◌>>=◌}
use net_cpp.Message.{Message, new_message}
use net_cpp.Parser.{
  Parser, Round, HeadState, head_done, OptionState, option_done, TailState, tail_done, head_round,
  option_round, body_round, tail_round, reset_state,
}

-- Which loop `parse` calls.
pub data Part : Type 0 where
  head options body tail nowhere : Part

abbrev pub is_head_done : HeadState → Bool
is_head_done head_done = true
is_head_done _ = false

abbrev pub is_option_done : OptionState → Bool
is_option_done option_done = true
is_option_done _ = false

abbrev pub is_body_done : ℤ → Bool
is_body_done (pos zero) = true
is_body_done _ = false

abbrev pub is_tail_done : TailState → Bool
is_tail_done tail_done = true
is_tail_done _ = false

unfoldable pub part_of : Parser → Part
part_of p =
    if not (is_head_done p.head_state)
    then head
    else if not (is_option_done p.option_state)
    then options
    else if not (is_body_done p.body_state)
    then body
    else if not (is_tail_done p.tail_state)
    then tail
    else nowhere

unfoldable pub round : Part → ℕ → Parser → Round
round head c p = head_round p.head_state c p
round options c p = option_round p.option_state c p
round body c p = body_round p.body_state c p
round tail c p = tail_round p.tail_state c p
round nowhere c p = fault

abbrev pub push_temp : ℕ → Parser → Parser
push_temp c p = record p { temp_buffer = p.temp_buffer ++ c ∷ [] }

-- `while (!buffer.empty()) { ... }` in each of `locate_head`, `locate_option`, `locate_body` and
-- `locate_tail`: it stops at a `break`, or when the buffer is empty. The result has the bytes left.
unfoldable pub locate : Part → Bytes → Parser → Outcome (Parser × Bytes)
unfolding round
locate part [] p = ok (p, [])
locate part (c ∷ cs) p = round part c (push_temp c p) >>= λ (go, q). elim go [
  | true ↦ locate part cs q
  | false ↦ ok (q, cs)
]

-- Before the call: a message to build.
unfoldable pub enter : Bytes → Parser → Parser
unfolding new_message
enter now p = record p {
  temp_msg = elim p.temp_msg [ none ↦ some (new_message now) | some m ↦ some m ];
}

-- After the call: a message that is complete goes to the queue.
abbrev pub queued : List Message → Option Message → List Message
queued ms none = ms
queued ms (some m) = ms ++ m ∷ []

unfoldable pub finish : Parser → Parser
unfolding reset_state
finish p =
    if is_tail_done p.tail_state
    then reset_state (record p { msgs = queued p.msgs p.temp_msg; temp_msg = none })
    else p

-- The loop of `parse` over the bytes of the buffer. Each call takes a byte at least, so that as
-- much fuel as there are bytes is enough.
unfoldable pub parse_loop : ℕ → Bytes → Bytes → Parser → Outcome Parser
unfolding locate enter finish part_of
parse_loop f now [] p = ok p
parse_loop zero now (c ∷ cs) p = fault
parse_loop (suc f) now (c ∷ cs) p =
    let q = enter now p in
    locate (part_of q) (c ∷ cs) q >>= λ (r, rest). parse_loop f now rest (finish r)

-- `parse`: `now` is the date that a message begun in this call gets.
unfoldable pub parse : Bytes → Bytes → Parser → Outcome Parser
unfolding parse_loop
parse now buf p = parse_loop (length buf) now buf p

-- `getMessage`: the oldest message, or none.
unfoldable pub get_message : Parser → Parser × Option Message
get_message p = elim p.msgs [ [] ↦ (p, none) | m ∷ ms ↦ (record p { msgs = ms }, some m) ]

-- `getMessageCount`
unfoldable pub get_message_count : Parser → ℕ
get_message_count p = length p.msgs
