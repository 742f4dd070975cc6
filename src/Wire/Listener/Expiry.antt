-- ===== src/Wire/Listener/Expiry.antt =====
-- What `boxProcessorDeamon` leaves.
use net_cpp.Base.{ℕ, ◌+◌, ◌≡◌, ◌⊎◌, false, List, [], ◌∷◌, All, negsuc, ◌==◌, arith}
use net_cpp.Outcome.{IfOk, bind-IfOk}
use net_cpp.Wire.Signed.{RawData}
use net_cpp.Wire.Listener.{
  BoxListener, is_negative, process_listener, process_listeners, cleaning_boxs, box_processor,
}

abbrev pub HasClicks : BoxListener → Type 0
HasClicks l = is_negative l.clicks ≡ false

-- A listener that still waits for boxes.
abbrev pub Waits : BoxListener → Type 0
Waits l = HasClicks l × ((l.cnt == l.nbn) ≡ false)

abbrev DoneOrWaits : BoxListener → Type 0
DoneOrWaits l = (l.clicks ≡ negsuc 0) ⊎ Waits l

process_listener-DoneOrWaits :
    (fresh : RawData) (l : BoxListener)
    → HasClicks l
    → IfOk (λ (m : BoxListener × List RawData). DoneOrWaits m.0) (process_listener fresh l)
unfolding process_listener
process_listener-DoneOrWaits fresh l h = ground arith

process_listeners-DoneOrWaits :
    (fresh : ℕ → RawData) (i : ℕ) (ls : List BoxListener)
    → All HasClicks ls
    → IfOk
        (λ (m : List BoxListener × List RawData). All DoneOrWaits m.0)
        (process_listeners fresh i ls)
unfolding process_listeners
process_listeners-DoneOrWaits fresh i [] h = tt
process_listeners-DoneOrWaits fresh i (l ∷ ls) h =
    bind-IfOk (λ (m : BoxListener × List RawData). DoneOrWaits m.0)
      (λ (m : List BoxListener × List RawData). All DoneOrWaits m.0) (process_listener (fresh i) l)
      _ (process_listener-DoneOrWaits (fresh i) l h.0)
      (λ m first.
        bind-IfOk (λ (k : List BoxListener × List RawData). All DoneOrWaits k.0)
          (λ (k : List BoxListener × List RawData). All DoneOrWaits k.0)
          (process_listeners fresh (i + 1) ls) _
          (process_listeners-DoneOrWaits fresh (i + 1) ls h.1) (λ k rest. (first, rest)))

cleaning_boxs-Waits : (ls : List BoxListener) → All DoneOrWaits ls → All Waits (cleaning_boxs ls)
unfolding cleaning_boxs
cleaning_boxs-Waits [] h = tt
cleaning_boxs-Waits (l ∷ ls) h = ground (arith, cleaning_boxs-Waits ls h.1)

-- Behind `boxProcessorDeamon`, if it does not run into undefined behaviour, every listener that the
-- server keeps has clicks left and still waits for a box: complete and expired ones are gone.
pub box_processor-Waits :
    (fresh : ℕ → RawData) (ls : List BoxListener)
    → All HasClicks ls
    → IfOk (λ (m : List BoxListener × List RawData). All Waits m.0) (box_processor fresh ls)
unfolding box_processor
box_processor-Waits fresh ls h =
    bind-IfOk (λ (m : List BoxListener × List RawData). All DoneOrWaits m.0)
      (λ (m : List BoxListener × List RawData). All Waits m.0) (process_listeners fresh 0 ls) _
      (process_listeners-DoneOrWaits fresh 0 ls h) (λ m all. cleaning_boxs-Waits m.0 all)
