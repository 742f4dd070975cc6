-- ===== src/Clock/Ticks.antt =====
-- When a clock starts its thread.
use net_cpp.Base.{
  ℕ, zero, suc, ◌≡◌, refl, ap, ◌∙◌, Bool, true, false, Option, none, some, List, [], ◌∷◌, ◌++◌, pos,
  if◌then◌else◌, arith, map, replicate,
}
use net_cpp.Clock.{ClockRegister, tick_clock, tick_clocks}

-- n ticks, and in which of them the clock starts its thread.
abbrev pub ticks : ℕ → Option ClockRegister → Option ClockRegister × List Bool
ticks zero c = (c, [])
ticks (suc n) c = let (d, starts) = tick_clock c in let (e, more) = ticks n d in (e, starts ∷ more)

tick_clock-waits :
    (c : ClockRegister) (n : ℕ)
    → c.click ≡ pos (suc n)
    → tick_clock (some c) ≡ (some (record c { click = pos n }), false)
unfolding tick_clock
tick_clock-waits c n e = ground arith

tick_clock-starts :
    (c : ClockRegister)
    → c.click ≡ pos 0
    → tick_clock (some c) ≡ (
      if c.if_reset then some (record c { if_thread = true; click = c.rawclick }) else none,
      true,
    )
unfolding tick_clock
tick_clock-starts c e = ground arith

-- A clock with n clicks left is quiet for n ticks and starts its thread in the next; then it has
-- its raw clicks if it is to be reset, and is gone otherwise.
pub ticks-starts :
    (c : ClockRegister) (n : ℕ)
    → c.click ≡ pos n
    → ticks (suc n) (some c) ≡ (
      if c.if_reset then some (record c { if_thread = true; click = c.rawclick }) else none,
      replicate n false ++ true ∷ [],
    )
ticks-starts c zero e =
    ap (λ (r : Option ClockRegister × Bool). (r.0, r.1 ∷ [])) (tick_clock-starts c e)
ticks-starts c (suc n) e =
    ap (λ (r : Option ClockRegister × Bool). let (d, more) = ticks (suc n) r.0 in (d, r.1 ∷ more))
      (tick_clock-waits c n e)
    ∙ ap (λ (r : Option ClockRegister × List Bool). (r.0, false ∷ r.1))
        (ticks-starts (record c { click = pos n }) n refl)

-- Each clock of the list ticks by itself, whatever the others do: which threads the others start
-- changes the ids of the threads only.
pub tick_clocks-map :
    (cs : List (Option ClockRegister)) (tid : ℕ)
    → (tick_clocks tid cs).0 ≡ map (λ c. (tick_clock c).0) cs
unfolding tick_clocks
tick_clocks-map [] tid = refl
tick_clocks-map (c ∷ cs) tid = ap (λ ds. (tick_clock c).0 ∷ ds) (tick_clocks-map cs _)
