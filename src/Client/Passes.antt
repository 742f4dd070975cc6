-- ===== src/Client/Passes.antt =====
-- What a pass of `ProcessRequestListener` does with each request.
use net_cpp.Base.{
  ℕ, ◌+◌, ◌%◌, ◌^◌, ◌≡◌, refl, sym, ap, ◌∙◌, Bool, true, false, some, Bool-cases, inl, inr, not,
  ◌&&◌, ◌||◌, List, [], ◌∷◌, ◌++◌, map, ltb, ◌==◌, if◌then◌else◌, arith,
}
use net_cpp.Outcome.{ok, fault}
use net_cpp.Wire.Request.{Respond}
use net_cpp.Client.{
  RequestListener, Event, called, sent, Client, answer, answer_all, time_out, time_out_all,
  only_active, process_request_listener,
}

-- An answer with this number is there.
abbrev pub is_answered : List Respond → ℕ → Bool
is_answered [] id = false
is_answered (r ∷ rs) id = id == r.r_id || is_answered rs id

-- A request behind the loops over the answers.
abbrev marked : List Respond → RequestListener → RequestListener
marked rs l = if l.active && is_answered rs l.p_req.r_id then record l { active = false } else l

-- The number of the request is the one of the answer, and of none before it.
abbrev calls : List Respond → Respond → RequestListener → List Event
calls earlier r l =
    if l.active && not (is_answered earlier l.p_req.r_id) && l.p_req.r_id == r.r_id
    then called l.callback l.args (some r) ∷ []
    else []

abbrev pub calls_of : List Respond → Respond → List RequestListener → List Event
calls_of earlier r [] = []
calls_of earlier r (l ∷ ls) = calls earlier r l ++ calls_of earlier r ls

-- The calls for the answers in order, behind earlier ones.
abbrev pub all_calls : List Respond → List Respond → List RequestListener → List Event
all_calls earlier [] ls = []
all_calls earlier (r ∷ rs) ls = calls_of earlier r ls ++ all_calls (r ∷ earlier) rs ls

-- A request that waits on.
abbrev pub waits : List Respond → RequestListener → Bool
waits rs l = l.active && not (is_answered rs l.p_req.r_id)

abbrev in_time : List Respond → RequestListener → Bool
in_time rs l = not (waits rs l) || ltb l.clicks l.timeout

abbrev pub all_in_time : List Respond → List RequestListener → Bool
all_in_time rs [] = true
all_in_time rs (l ∷ ls) = in_time rs l && all_in_time rs ls

abbrev next_click : RequestListener → ℕ
next_click l = (l.clicks + 1) % 2 ^ 32

-- The requests that stay, with a click more, and the messages sent again at each second click.
abbrev staying : List Respond → RequestListener → List RequestListener
staying rs l = if waits rs l then record l { clicks = next_click l } ∷ [] else []

abbrev pub all_staying : List Respond → List RequestListener → List RequestListener
all_staying rs [] = []
all_staying rs (l ∷ ls) = staying rs l ++ all_staying rs ls

abbrev sent_again : List Respond → RequestListener → List Event
sent_again rs l =
    if waits rs l && next_click l % 2 == 0 then sent l.p_req.t_addr l.trwd ∷ [] else []

abbrev pub all_sent_again : List Respond → List RequestListener → List Event
all_sent_again rs [] = []
all_sent_again rs (l ∷ ls) = sent_again rs l ++ all_sent_again rs ls

answer-marked :
    (r : Respond) (ls : List RequestListener) → (answer r ls).0 ≡ map (marked (r ∷ [])) ls
unfolding answer
answer-marked r [] = refl
answer-marked r (l ∷ ls) = ground (arith, answer-marked r ls)

marked-marked :
    (r : Respond) (rs : List Respond) (l : RequestListener)
    → marked rs (marked (r ∷ []) l) ≡ marked (r ∷ rs) l
marked-marked r rs l = ground arith

marked-nil : (ls : List RequestListener) → map (marked []) ls ≡ ls
marked-nil [] = refl
marked-nil (l ∷ ls) = ground (arith, marked-nil ls)

map-marked :
    (r : Respond) (rs : List Respond) (ls : List RequestListener)
    → map (marked rs) (map (marked (r ∷ [])) ls) ≡ map (marked (r ∷ rs)) ls
map-marked r rs [] = refl
map-marked r rs (l ∷ ls) = rw (marked-marked r rs l, map-marked r rs ls)

answer_all-marked :
    (rs : List Respond) (ls : List RequestListener) → (answer_all rs ls).0 ≡ map (marked rs) ls
unfolding answer_all
answer_all-marked [] ls = sym (marked-nil ls)
answer_all-marked (r ∷ rs) ls =
    answer_all-marked rs (answer r ls).0
    ∙ ap (map (marked rs)) (answer-marked r ls)
    ∙ map-marked r rs ls

answer-calls_of :
    (earlier : List Respond) (r : Respond) (ls : List RequestListener)
    → (answer r (map (marked earlier) ls)).1 ≡ calls_of earlier r ls
unfolding answer
answer-calls_of earlier r [] = refl
answer-calls_of earlier r (l ∷ ls) = ground (arith, answer-calls_of earlier r ls)

marked-later :
    (earlier : List Respond) (r : Respond) (ls : List RequestListener)
    → map (marked (r ∷ [])) (map (marked earlier) ls) ≡ map (marked (r ∷ earlier)) ls
marked-later earlier r [] = refl
marked-later earlier r (l ∷ ls) = ground (arith, marked-later earlier r ls)

answer_all-all_calls :
    (earlier rs : List Respond) (ls : List RequestListener)
    → (answer_all rs (map (marked earlier) ls)).1 ≡ all_calls earlier rs ls
unfolding answer_all
answer_all-all_calls earlier [] ls = refl
answer_all-all_calls earlier (r ∷ rs) ls =
    let ls' = map (marked earlier) ls in
    let behind : (answer r ls').0 ≡ map (marked (r ∷ earlier)) ls =
      answer-marked r ls' ∙ marked-later earlier r ls in
    rw (answer-calls_of earlier r ls, behind, answer_all-all_calls (r ∷ earlier) rs ls) refl

-- A request behind the loop over the time-outs, if none is over.
abbrev clicked : List Respond → RequestListener → RequestListener
clicked rs l = if waits rs l then record l { clicks = next_click l } else marked rs l

time_out-in_time :
    (rs : List Respond) (l : RequestListener)
    → time_out (marked rs l) ≡ (if in_time rs l then ok (clicked rs l, sent_again rs l) else fault)
unfolding time_out
time_out-in_time rs l = ground arith

time_out_all-all_in_time :
    (rs : List Respond) (ls : List RequestListener)
    → time_out_all (map (marked rs) ls)
      ≡ (if all_in_time rs ls then ok (map (clicked rs) ls, all_sent_again rs ls) else fault)
unfolding time_out_all
time_out_all-all_in_time rs [] = refl
time_out_all-all_in_time rs (l ∷ ls) = elim (Bool-cases (in_time rs l)) [
  | inr e ↦ rw (time_out-in_time rs l, e) refl
  | inl e ↦ elim (Bool-cases (all_in_time rs ls)) [
    | inr o ↦ rw (time_out-in_time rs l, e, time_out_all-all_in_time rs ls, o) refl
    | inl o ↦ rw (time_out-in_time rs l, e, time_out_all-all_in_time rs ls, o) refl
  ]
]

only_active-staying :
    (rs : List Respond) (ls : List RequestListener)
    → only_active (map (clicked rs) ls) ≡ all_staying rs ls
unfolding only_active
only_active-staying rs [] = refl
only_active-staying rs (l ∷ ls) = ground (arith, only_active-staying rs ls)

-- A pass of `ProcessRequestListener` is defined exactly if each active request that no answer has the
-- number of has clicks left. Then for each answer, in order, it calls each active request with its
-- number, by the callback and the argument of that request, unless an answer before had this number;
-- it leaves no answers, and of the requests exactly those that wait on, in order, each with a click
-- more, and sends the message of those again whose clicks are even.
pub process_request_listener-staying :
    (c : Client)
    → process_request_listener c ≡ (
        if all_in_time c.res_lst c.req_lst
        then ok (record {
          client = record c { req_lst = all_staying c.res_lst c.req_lst; res_lst = [] };
          events = all_calls [] c.res_lst c.req_lst ++ all_sent_again c.res_lst c.req_lst;
        })
        else fault)
unfolding process_request_listener
process_request_listener-staying c =
    let rs = c.res_lst in
    let ls = c.req_lst in
    let called_by : (answer_all rs ls).1 ≡ all_calls [] rs ls =
      ap (λ ls'. (answer_all rs ls').1) (sym (marked-nil ls)) ∙ answer_all-all_calls [] rs ls in
    let timed = time_out_all-all_in_time rs ls in
    elim (Bool-cases (all_in_time rs ls)) [
      | inl e ↦ rw (called_by, answer_all-marked rs ls, timed, e, only_active-staying rs ls) refl
      | inr e ↦ rw (answer_all-marked rs ls, timed, e) refl
    ]
