-- ===== src/Project/Args.antt =====
-- The parameters of functions in the database: written, compared and written again.
use net_cpp.Base.{
  ℕ, suc, ◌+◌, ◌≡◌, ◌↔◌, refl, ap, Bool, true, false, ◌||◌, List, [], ◌∷◌, ◌++◌, string_eq_iff,
  length, drop, eqb_ℤ_iff, ◌⊎◌, Bool-cases, inl, inr, ◌≢◌, arith,
}
use net_cpp.Outcome.{Outcome, ok, reject, throws, fault, ◌>>=◌}
use net_cpp.Cpt.{CptFuncArgs}
use net_cpp.Project.Rows.{ArgRow}
use net_cpp.Project.Tables.{arg_rows}
use net_cpp.Project.Update.{same_arg, compare_args, args_changed}

-- A row but for its id.
abbrev pub SameRow : ArgRow → ArgRow → Type 0
SameRow e r =
    (e.type ≡ r.type) × (e.idx ≡ r.idx) × (e.io ≡ r.io) × (e.key ≡ r.key) × (e.size ≡ r.size)

-- The rows begin with the expected ones.
abbrev pub StartWith : List ArgRow → List ArgRow → Type 0
StartWith [] rows = Unit
StartWith (e ∷ es) [] = ⊥
StartWith (e ∷ es) (r ∷ rows) = SameRow e r × StartWith es rows

-- A comparison that finds a difference, or runs past the last row.
abbrev Differ : Outcome (Bool × List ArgRow) → Type 0
Differ (ok (false, rows)) = ⊥
Differ _ = Unit

same_arg_iff :
    (io idx sidx : ℕ) (farg : CptFuncArgs) (r : ArgRow)
    → (same_arg io idx farg r ≡ true)
      ↔ SameRow
          (record {
            id = sidx;
            type = farg.type;
            idx = idx;
            io = io;
            key = farg.key;
            size = farg.size;
          })
          r
unfolding same_arg
same_arg_iff io idx sidx farg r = ground (
  arith,
  string_eq_iff r.type farg.type,
  string_eq_iff r.key farg.key,
  eqb_ℤ_iff r.size farg.size,
)

-- The comparison takes the rows that it expects, or finds a difference.
compare_cases :
    (io idx sidx : ℕ) (fargs : List CptFuncArgs) (rows : List ArgRow)
    → ((compare_args io idx fargs rows ≡ ok (false, drop (length fargs) rows))
        × StartWith (arg_rows io idx sidx fargs) rows)
      ⊎ (Differ (compare_args io idx fargs rows) × ¬ StartWith (arg_rows io idx sidx fargs) rows)
unfolding compare_args arg_rows
compare_cases io idx sidx [] rows = inl (refl, tt)
compare_cases io idx sidx (farg ∷ more) [] = inr (tt, λ s. s)
compare_cases io idx sidx (farg ∷ more) (r ∷ rows) = elim (Bool-cases (same_arg io idx farg r)) [
  | inl e ↦ elim (compare_cases io (idx + 1) (sidx + 1) more rows) [
    | inl (taken, starts) ↦ inl (rw e taken, ((same_arg_iff io idx sidx farg r).0 e, starts))
    | inr (differ, starts) ↦ inr (rw e differ, λ s. starts s.1)
  ]
  | inr e ↦ inr (rw e tt, λ s. cc (e, (same_arg_iff io idx sidx farg r).1 s.0))
]

StartWith-append :
    (es fs rows : List ArgRow)
    → StartWith (es ++ fs) rows ↔ (StartWith es rows × StartWith fs (drop (length es) rows))
StartWith-append [] fs rows = (λ s. (tt, s), λ s. s.1)
StartWith-append (e ∷ es) fs [] = (λ s. absurd s, λ s. absurd s.0)
StartWith-append (e ∷ es) fs (r ∷ rows) = (
  λ s. let t = (StartWith-append es fs rows).0 s.1 in ((s.0, t.0), t.1),
  λ s. (s.0.0, (StartWith-append es fs rows).1 (s.0.1, s.1)),
)

length-arg_rows :
    (io idx sidx : ℕ) (fargs : List CptFuncArgs)
    → length (arg_rows io idx sidx fargs) ≡ length fargs
unfolding arg_rows
length-arg_rows io idx sidx [] = refl
length-arg_rows io idx sidx (f ∷ more) = ap suc (length-arg_rows io (idx + 1) (sidx + 1) more)

-- A comparison that differs is not forgotten.
second_compare :
    (m : Outcome (Bool × List ArgRow))
    → (m >>= λ (r : Bool × List ArgRow). ok (true || r.0)) ≢ ok false
second_compare (ok (b, rows)) e = cc
second_compare reject e = cc
second_compare (throws x) e = cc
second_compare fault e = cc

first_compare :
    (m : Outcome (Bool × List ArgRow)) (outs : List CptFuncArgs)
    → Differ m
    → (m >>= λ (r : Bool × List ArgRow).
        compare_args 1 0 outs r.1 >>= λ (s : Bool × List ArgRow). ok (r.0 || s.0))
      ≢ ok false
first_compare (ok (true, rows)) outs d e = second_compare (compare_args 1 0 outs rows) e
first_compare (ok (false, rows)) outs d e = absurd d
first_compare reject outs d e = cc
first_compare (throws x) outs d e = cc
first_compare fault outs d e = cc

last_compare :
    (m : Outcome (Bool × List ArgRow))
    → Differ m
    → (m >>= λ (s : Bool × List ArgRow). ok (false || s.0)) ≢ ok false
last_compare (ok (true, rows)) d e = cc
last_compare (ok (false, rows)) d e = absurd d
last_compare reject d e = cc
last_compare (throws x) d e = cc
last_compare fault d e = cc

-- The rows of a function: its parameters, and its results behind them.
unfoldable pub all_rows : List CptFuncArgs → List CptFuncArgs → List ArgRow
unfolding arg_rows
all_rows ins outs = arg_rows 0 0 0 ins ++ arg_rows 1 0 (length ins) outs

-- `UpdateProcess` finds the parameters of a function unchanged exactly if the rows of its table
-- begin with those that `write_args_info` writes, but for their ids: what stands behind them is
-- never looked at, and where there are less rows the result is not "unchanged".
pub args_changed_iff :
    (ins outs : List CptFuncArgs) (rows : List ArgRow)
    → (args_changed ins outs rows ≡ ok false) ↔ StartWith (all_rows ins outs) rows
unfolding args_changed all_rows
args_changed_iff ins outs rows = elim (compare_cases 0 0 0 ins rows) [
  | inr (differ, starts) ↦ (
    λ e. absurd (first_compare (compare_args 0 0 ins rows) outs differ e),
    λ s. absurd (starts ((StartWith-append (arg_rows 0 0 0 ins) _ rows).0 s).0),
  )
  | inl (taken, starts) ↦
      let both = StartWith-append (arg_rows 0 0 0 ins) (arg_rows 1 0 (length ins) outs) rows in
      let n = length-arg_rows 0 0 0 ins in
      elim (compare_cases 1 0 (length ins) outs (drop (length ins) rows)) [
        | inl (taken', starts') ↦ (λ e. both.1 (starts, rw n starts'), λ s. rw (taken, taken') refl)
        | inr (differ, starts') ↦ (
          λ e. absurd (last_compare _ differ (rw taken at e)),
          λ s. absurd (starts' (rw n at (both.0 s).1)),
        )
      ]
]
