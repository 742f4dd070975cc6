-- ===== src/Clock.antt =====
-- src/clock.cpp: the list of clocks, and the threads that they start. A function and its argument
-- are numbers. The signal handler threadsClock is a step, since its signal is blocked elsewhere.
pub mod Ticks
use net_cpp.Base.{
  ℕ, zero, suc, ◌+◌, ◌-◌, ◌%◌, ◌^◌, Bool, true, false, Option, none, some, List, [], ◌∷◌, ◌++◌, ℤ,
  pos, negsuc, ◌==◌, if◌then◌else◌,
}
use net_cpp.Outcome.{Outcome, ok, fault, ◌>>=◌}

-- `clock_register`
pub record ClockRegister : Type 0 where
  pub func : ℕ
  pub if_thread : Bool
  pub if_reset : Bool
  pub click : ℤ
  pub rawclick : ℤ
  pub arg : ℕ

-- `clock_thread_info`, with the function that its thread runs.
pub record ClockThreadInfo : Type 0 where
  pub tid : ℕ
  pub args : ℕ
  pub thread_func : ℕ

-- The globals: an expired clock is none. `clocks_thread_map` is a list of threads with distinct ids.
pub record Clocks : Type 0 where
  pub clocks_list : List (Option ClockRegister)
  pub clocks_thread_map : List ClockThreadInfo
  pub clock_thread_finished : List ℕ
  pub tid_r : ℕ
  pub clock_erase : ℕ

abbrev pub clockese : ℕ
clockese = 30

-- `newClock`
unfoldable pub new_clock : ClockRegister → Clocks → Clocks
new_clock c s = record s { clocks_list = s.clocks_list ++ some c ∷ [] }

-- `clockThreadFinish`
unfoldable pub clock_thread_finish : ℕ → Clocks → Clocks
clock_thread_finish tid s = record s { clock_thread_finished = s.clock_thread_finished ++ tid ∷ [] }

-- `clocks_thread_map.erase(clocks_thread_map.find(tid))`: the end of the map for an unknown id.
unfoldable pub take_thread : ℕ → List ClockThreadInfo → Outcome (List ClockThreadInfo)
take_thread tid [] = fault
take_thread tid (t ∷ ts) =
    if t.tid == tid then ok ts else (do rest ← take_thread tid ts; ok (t ∷ rest))

-- The first loop of `threadsClock`.
unfoldable pub join_finished : List ℕ → List ClockThreadInfo → Outcome (List ClockThreadInfo)
unfolding take_thread
join_finished [] ts = ok ts
join_finished (tid ∷ tids) ts = do ts ← take_thread tid ts; join_finished tids ts

-- `remove_if(... == NULL)`
unfoldable pub without_expired : List (Option ClockRegister) → List (Option ClockRegister)
without_expired [] = []
without_expired (none ∷ cs) = without_expired cs
without_expired (some c ∷ cs) = some c ∷ without_expired cs

-- A clock in the last loop, and whether it starts its thread.
unfoldable pub tick_clock : Option ClockRegister → Option ClockRegister × Bool
tick_clock none = (none, false)
tick_clock (some c) = elim c.click [
  | pos zero ↦
      (if c.if_reset then some (record c { if_thread = true; click = c.rawclick }) else none, true)
  | pos (suc n) ↦ (some (record c { click = pos n }), false)
  | negsuc n ↦ (some c, false)
]

-- `clocks_thread_map.insert(...)`: a thread with the same id stays.
unfoldable pub insert_thread : ClockThreadInfo → List ClockThreadInfo → List ClockThreadInfo
insert_thread t [] = t ∷ []
insert_thread t (u ∷ us) = if u.tid == t.tid then u ∷ us else u ∷ insert_thread t us

abbrev thread_of : ℕ → Option ClockRegister → List ClockThreadInfo
thread_of tid none = []
thread_of tid (some c) = record { tid = tid; args = c.arg; thread_func = c.func } ∷ []

abbrev insert_threads : List ClockThreadInfo → List ClockThreadInfo → List ClockThreadInfo
insert_threads [] ts = ts
insert_threads (n ∷ ns) ts = insert_threads ns (insert_thread n ts)

-- The last loop of `threadsClock`: the clocks, and the threads that it creates, with their ids.
unfoldable pub tick_clocks :
    ℕ → List (Option ClockRegister) → List (Option ClockRegister) × List ClockThreadInfo
unfolding tick_clock
tick_clocks tid [] = ([], [])
tick_clocks tid (c ∷ cs) =
    let (d, starts) = tick_clock c in
    let next = if starts then (tid + 1) % 2 ^ 32 else tid in
    let (ds, more) = tick_clocks next cs in
    (d ∷ ds, (if starts then thread_of tid c else []) ++ more)

-- `tid_r++` for each of the threads.
abbrev next_tid : ℕ → List ClockThreadInfo → ℕ
next_tid tid [] = tid
next_tid tid (t ∷ ts) = next_tid ((tid + 1) % 2 ^ 32) ts

-- `threadsClock`, with the threads that it creates.
unfoldable pub threads_clock : Clocks → Outcome (Clocks × List ClockThreadInfo)
unfolding join_finished without_expired tick_clocks insert_thread
threads_clock s = do
  ts ← join_finished s.clock_thread_finished s.clocks_thread_map
  let cleans = s.clock_erase == 0
  let cs = if cleans then without_expired s.clocks_list else s.clocks_list
  let (ds, created) = tick_clocks s.tid_r cs
  ok (
    record {
      clocks_list = ds;
      clocks_thread_map = insert_threads created ts;
      clock_thread_finished = [];
      tid_r = next_tid s.tid_r created;
      clock_erase = if cleans then clockese else s.clock_erase - 1;
    },
    created,
  )
