-- ===== src/Client/Silence.antt =====
-- src/client.cpp: requests that nobody answers.
use net_cpp.Base.{
  leb, ℕ, zero, suc, ◌+◌, ◌%◌, ◌^◌, ◌<◌, ◌≤◌, ◌≡◌, refl, ap, ◌∙◌, Bool, true, false, ◌&&◌, List, [],
  ◌∷◌, ◌++◌, map, All, ◌==◌, if◌then◌else◌, arith, Bool-cases, inl, inr,
}
use net_cpp.Outcome.{Outcome, ok, fault, ◌>>=◌}
use net_cpp.Client.{RequestListener, Event, sent, Client, process_request_listener}
use net_cpp.Client.Passes.{
  all_in_time, all_staying, all_sent_again, process_request_listener-staying,
}

-- k passes while no answer comes: the client, and what happened.
pub silent : ℕ → Client → Outcome (Client × List Event)
silent zero c = ok (c, [])
silent (suc k) c = process_request_listener c >>= λ pass.
    silent k pass.client >>= λ (c', events). ok (c', pass.events ++ events)

-- A request that waits: new ones have no clicks.
abbrev pub IsWaiting : RequestListener → Type 0
IsWaiting l = (l.active ≡ true) × (l.clicks ≤ l.timeout) × (l.timeout < 2 ^ 32)

-- k passes are within the time of all requests.
abbrev pub all_within : ℕ → List RequestListener → Bool
all_within k [] = true
all_within k (l ∷ ls) = leb (l.clicks + k) l.timeout && all_within k ls

abbrev pub later : ℕ → RequestListener → RequestListener
later k l = record l { clicks = l.clicks + k }

-- What the pass sends after which each request has k clicks more, and k passes behind the j-th.
abbrev sent_at : ℕ → List RequestListener → List Event
sent_at k [] = []
sent_at k (l ∷ ls) =
    (if (l.clicks + k) % 2 == 0 then sent l.p_req.t_addr l.trwd ∷ [] else []) ++ sent_at k ls

abbrev pub sent_in : ℕ → ℕ → List RequestListener → List Event
sent_in j zero ls = []
sent_in j (suc k) ls = sent_at (suc j) ls ++ sent_in (suc j) k ls

later-zero : (ls : List RequestListener) → map (later 0) ls ≡ ls
later-zero [] = refl
later-zero (l ∷ ls) = let same : l.clicks + 0 ≡ l.clicks = omega arith in rw (same, later-zero ls)

later-later :
    (j k : ℕ) (ls : List RequestListener)
    → map (later k) (map (later j) ls) ≡ map (later (j + k)) ls
later-later j k [] = refl
later-later j k (l ∷ ls) =
    let same : l.clicks + j + k ≡ l.clicks + (j + k) = omega arith in rw (same, later-later j k ls)

all_within-later :
    (j k : ℕ) (ls : List RequestListener) → all_within k (map (later j) ls) ≡ all_within (j + k) ls
all_within-later j k [] = refl
all_within-later j k (l ∷ ls) =
    let same : l.clicks + j + k ≡ l.clicks + (j + k) = omega arith in
    rw (same, all_within-later j k ls)

sent_at-later :
    (j k : ℕ) (ls : List RequestListener) → sent_at k (map (later j) ls) ≡ sent_at (j + k) ls
sent_at-later j k [] = refl
sent_at-later j k (l ∷ ls) =
    let same : l.clicks + j + k ≡ l.clicks + (j + k) = omega arith in
    rw (same, sent_at-later j k ls)

sent_in-later :
    (i j k : ℕ) (ls : List RequestListener) → sent_in j k (map (later i) ls) ≡ sent_in (i + j) k ls
sent_in-later i j zero ls = refl
sent_in-later i j (suc k) ls =
    let same : i + suc j ≡ suc (i + j) = omega arith in
    rw (sent_at-later i (suc j) ls, sent_in-later i (suc j) k ls, same) refl

-- More passes are not within the time if fewer are not.
all_within-more :
    (j k : ℕ) (ls : List RequestListener) → all_within j ls ≡ false → all_within (j + k) ls ≡ false
all_within-more j k [] h = cc
all_within-more j k (l ∷ ls) h = elim (Bool-cases (all_within j ls)) [
  | inl e ↦
      let over : leb (l.clicks + j) l.timeout ≡ false = ground (arith, h, e) in
      let over_more : leb (l.clicks + (j + k)) l.timeout ≡ false = ground (arith, over) in
      rw over_more refl
  | inr e ↦ ground (arith, all_within-more j k ls e)
]

within-zero : (ls : List RequestListener) → All IsWaiting ls → all_within 0 ls ≡ true
within-zero [] h = refl
within-zero (l ∷ ls) h = ground (arith, within-zero ls h.1)

in_time-within :
    (ls : List RequestListener) → All IsWaiting ls → all_in_time [] ls ≡ all_within 1 ls
in_time-within [] h = refl
in_time-within (l ∷ ls) h = ground (arith, in_time-within ls h.1, h.0.0)

IsWaiting-later :
    (ls : List RequestListener)
    → All IsWaiting ls
    → all_within 1 ls ≡ true
    → All IsWaiting (map (later 1) ls)
      × (all_staying [] ls ≡ map (later 1) ls)
      × (all_sent_again [] ls ≡ sent_at 1 ls)
IsWaiting-later [] h e = (tt, refl, refl)
IsWaiting-later (l ∷ ls) h e =
    let more : all_within 1 ls ≡ true = ground (arith, e) in
    let here : l.clicks + 1 ≤ l.timeout = ground (arith, e) in
    let (waits, stay, again) = IsWaiting-later ls h.1 more in
    let small : (l.clicks + 1) % 2 ^ 32 ≡ l.clicks + 1 = omega (arith, here, h.0.2) in
    (((h.0.0, here, h.0.2), waits), rw (h.0.0, small, stay) refl, rw (h.0.0, small, again) refl)

-- A pass while no answer comes.
pass-silent :
    (c : Client)
    → All IsWaiting c.req_lst
    → c.res_lst ≡ []
    → process_request_listener c ≡ (
        if all_within 1 c.req_lst
        then ok (record {
          client = record c { req_lst = map (later 1) c.req_lst };
          events = sent_at 1 c.req_lst;
        })
        else fault)
pass-silent c h quiet = elim (Bool-cases (all_within 1 c.req_lst)) [
  | inl e ↦
      let (waits, stay, again) = IsWaiting-later c.req_lst h e in
      process_request_listener-staying c
      ∙ rw (quiet, in_time-within c.req_lst h, e, stay, again) refl
  | inr e ↦ process_request_listener-staying c ∙ rw (quiet, in_time-within c.req_lst h, e) refl
]

-- While no answer comes, k passes of `ProcessRequestListener` over requests whose time is not over
-- are defined exactly if k more clicks exceed the time-out of none of them. Then each stays in its
-- place with k clicks more, nothing is called, and the passes send the messages of those again whose
-- clicks are then even. So a request that is never answered comes to the undefined write.
pub silent-later :
    (k : ℕ) (c : Client)
    → All IsWaiting c.req_lst
    → c.res_lst ≡ []
    → silent k c ≡ (
        if all_within k c.req_lst
        then ok (record c { req_lst = map (later k) c.req_lst }, sent_in 0 k c.req_lst)
        else fault)
unfolding silent
silent-later zero c h quiet = rw (within-zero c.req_lst h, later-zero c.req_lst) refl
silent-later (suc k) c h quiet = elim (Bool-cases (all_within 1 c.req_lst)) [
  | inr e ↦
      let over : all_within (suc k) c.req_lst ≡ false =
        ap (λ n. all_within n c.req_lst) (omega arith) ∙ all_within-more 1 k c.req_lst e in
      rw (pass-silent c h quiet, e, over) refl
  | inl e ↦
      let ls = map (later 1) c.req_lst in
      let one : 1 + k ≡ suc k = omega arith in
      let (waits, stay, again) = IsWaiting-later c.req_lst h e in
      let ih = silent-later k (record c { req_lst = ls }) waits quiet in
      let ih' : silent k (record c { req_lst = ls }) ≡ (
          if all_within (suc k) c.req_lst
          then ok (record c { req_lst = map (later (suc k)) c.req_lst }, sent_in 1 k c.req_lst)
          else fault) =
        rw
          (
            all_within-later 1 k c.req_lst,
            later-later 1 k c.req_lst,
            sent_in-later 1 0 k c.req_lst,
            one,
          )
          at ih in
      elim (Bool-cases (all_within (suc k) c.req_lst)) [
        | inl w ↦ rw (pass-silent c h quiet, e, ih', w) refl
        | inr w ↦ rw (pass-silent c h quiet, e, ih', w) refl
      ]
]
