-- ===== src/Tests/Services.antt =====
-- The pool of blocks and the clocks.
use net_cpp.Base.{◌≡◌, refl, true, false, some, [], ◌∷◌, pos, arith}
use net_cpp.Outcome.{ok}
use net_cpp.Memory.{BlocksPool, b_malloc}
use net_cpp.Memory.Balance.{get_times, free_times, free_times-get_times}
use net_cpp.Clock.{ClockRegister}
use net_cpp.Clock.Ticks.{ticks, ticks-starts}

abbrev one_block : BlocksPool
one_block =
    record { ptr = 64; block = record { size = 16; lock = pos 2; pted = false; pvle = 64 } } ∷ []

free_times-get_times_example :
    (q r : BlocksPool) × (get_times 2 32 (b_malloc (some 32) 8 one_block).0 ≡ ok q)
    × (free_times 2 32 q ≡ ok (r, []))
    × (free_times 3 32 q ≡ ok (one_block, 32 ∷ []))
free_times-get_times_example =
    free_times-get_times 32 8 2 one_block (ground arith, tt) (omega arith)

abbrev beat : ClockRegister
beat = record {
  func = 1;
  if_thread = true;
  if_reset = true;
  click = pos 2;
  rawclick = pos 5;
  arg = 9;
}

abbrev once : ClockRegister
once = record beat { if_reset = false; click = pos 0 }

ticks-starts_example :
    ticks 3 (some beat) ≡ (some (record beat { click = pos 5 }), false ∷ false ∷ true ∷ [])
ticks-starts_example = ticks-starts beat 2 refl
