-- ===== src/Parser/Stream/Runs.antt =====
-- The loop of `parse` in src/communicate/message_parser.cpp ends.
use net_cpp.Base.{ℕ, ◌≡◌, ◌≢◌, Bool, true, false, [], ◌∷◌, Bytes}
use net_cpp.Outcome.{Outcome, ok, reject, throws, fault, Exn}
use net_cpp.Parser.{Parser}
use net_cpp.Parser.Run.{Part, nowhere, part_of, locate, enter, finish}

-- A finite run of the loop: the buffer is empty, or one of the four loops is called and ends in a
-- failure, or it leaves bytes and the loop goes on with them. With no loop to call, the program
-- would go on forever.
pub data ParseRun (now : Bytes) : Bytes → Parser → Outcome Parser → Type 0 where
  empty : {p : Parser} → ParseRun now [] p (ok p)
  rejected :
      {c : ℕ} {cs : Bytes} {p : Parser}
      → part_of (enter now p) ≢ nowhere
      → locate (part_of (enter now p)) (c ∷ cs) (enter now p) ≡ reject
      → ParseRun now (c ∷ cs) p reject
  thrown :
      {c : ℕ} {cs : Bytes} {p : Parser} {x : Exn}
      → part_of (enter now p) ≢ nowhere
      → locate (part_of (enter now p)) (c ∷ cs) (enter now p) ≡ throws x
      → ParseRun now (c ∷ cs) p (throws x)
  undefined :
      {c : ℕ} {cs : Bytes} {p : Parser}
      → part_of (enter now p) ≢ nowhere
      → locate (part_of (enter now p)) (c ∷ cs) (enter now p) ≡ fault
      → ParseRun now (c ∷ cs) p fault
  called :
      {c : ℕ} {cs rest : Bytes} {p r : Parser} {o : Outcome Parser}
      → part_of (enter now p) ≢ nowhere
      → locate (part_of (enter now p)) (c ∷ cs) (enter now p) ≡ ok (r, rest)
      → ParseRun now rest (finish r) o
      → ParseRun now (c ∷ cs) p o

-- A loop behind a round.
abbrev resume : Part → Bytes → Bool → Parser → Outcome (Parser × Bytes)
resume part cs go q = elim go [ true ↦ locate part cs q | false ↦ ok (q, cs) ]
