-- ===== src/Project/Resync.antt =====
-- The parameters of a function, brought up to date twice.
use net_cpp.Base.{
  ℕ, suc, ◌+◌, ◌≡◌, refl, sym, ap, subst, ◌∙◌, Bool, true, false, List, [], ◌∷◌, ◌++◌, Bytes,
  length, if◌then◌else◌, All, All-append, append-nil, append_assoc, ◌<◌, ◌≤◌, ◌≢◌, arith,
}
use net_cpp.Outcome.{ok}
use net_cpp.Cpt.{Cpt, CptFuncArgs}
use net_cpp.Project.Rows.{ArgRow, Sqlite}
use net_cpp.Project.Tables.{arg_rows, insert_args, write_args}
use net_cpp.Project.Update.{args_changed, update_args}
use net_cpp.Outcome.{bind-eq-ok, ok_inj}
use net_cpp.Project.Ordered.{found}
use net_cpp.Project.Args.{StartWith, all_rows, args_changed_iff}

-- Ids that are lower than a number.
abbrev Below : ℕ → List ArgRow → Type 0
Below n rows = All (λ (r : ArgRow). r.id < n) rows

Below-more : (n m : ℕ) (rows : List ArgRow) → n ≤ m → Below n rows → Below m rows
Below-more n m [] h b = tt
Below-more n m (r ∷ rows) h b = (omega (arith, h, b.0), Below-more n m rows h b.1)

Below-ne : (n : ℕ) (rows : List ArgRow) → Below n rows → All (λ (r : ArgRow). r.id ≢ n) rows
Below-ne n [] b = tt
Below-ne n (r ∷ rows) b = (λ e. absurd (omega (arith, e, b.0)), Below-ne n rows b.1)

StartWith-self : (rows : List ArgRow) → StartWith rows rows
StartWith-self [] = tt
StartWith-self (r ∷ rows) = ((refl, refl, refl, refl, refl), StartWith-self rows)

module _ (q : Sqlite) where
  open q use {Db, args, insert_arg, delete_args}

  -- What SQLite does with the table of a function: a row with a new id is added behind the others,
  -- and "DELETE FROM" leaves none.
  pub record Keeps : Type 0 where
    pub args-insert_arg :
        (func : Bytes) (r : ArgRow) (db : Db)
        → All (λ (s : ArgRow). s.id ≢ r.id) (args func db)
        → args func (insert_arg func r db) ≡ args func db ++ r ∷ []
    pub args-delete_args : (func : Bytes) (db : Db) → args func (delete_args func db) ≡ []

  module _ (keeps : Keeps) where
    insert_args-arg_rows :
        (func : Bytes) (io idx sidx : ℕ) (fargs : List CptFuncArgs) (db : Db)
        → Below sidx (args func db)
        → (args func (insert_args q func (arg_rows io idx sidx fargs) db)
            ≡ args func db ++ arg_rows io idx sidx fargs)
          × Below
              (sidx + length fargs)
              (args func (insert_args q func (arg_rows io idx sidx fargs) db))
    unfolding insert_args arg_rows
    insert_args-arg_rows func io idx sidx [] db b =
        (sym (append-nil (args func db)), Below-more sidx (sidx + 0) (args func db) (omega arith) b)
    insert_args-arg_rows func io idx sidx (f ∷ more) db b =
        let r : ArgRow = record {
          id = sidx;
          type = f.type;
          idx = idx;
          io = io;
          key = f.key;
          size = f.size;
        } in
        let added = keeps.args-insert_arg func r db (Below-ne sidx (args func db) b) in
        let below : Below (sidx + 1) (args func (insert_arg func r db)) = rw added (
          All-append _ (args func db) (r ∷ [])
            (Below-more sidx (sidx + 1) (args func db) (omega arith) b) (omega arith, tt)) in
        let (all, ids) = insert_args-arg_rows func io (idx + 1) (sidx + 1) more _ below in
        let sum : sidx + 1 + length more ≡ sidx + suc (length more) = omega arith in
        (
          all
              ∙ ap (λ rows. rows ++ arg_rows io (idx + 1) (sidx + 1) more) added
              ∙ append_assoc (args func db) (r ∷ []) _,
          rw sum at ids,
        )

    -- The table of a function that was emptied and written.
    args-write_args :
        (func : Bytes) (ins outs : List CptFuncArgs) (db : Db)
        → args func db ≡ []
        → args func (
            insert_args q func
              (arg_rows 1 0 (length ins) outs)
              (insert_args q func (arg_rows 0 0 0 ins) db))
          ≡ all_rows ins outs
    unfolding all_rows
    args-write_args func ins outs db empty =
        let (first, ids) = insert_args-arg_rows func 0 0 0 ins db (rw empty tt) in
        let db' = insert_args q func (arg_rows 0 0 0 ins) db in
        let (both, _) =
          insert_args-arg_rows func 1 0 (length ins) outs db'
            (Below-more _ _ (args func db') (omega arith) ids) in
        both ∙ ap (λ rows. rows ++ arg_rows 1 0 (length ins) outs) (first ∙ rw empty refl)

    -- What `update_args` leaves is unchanged.
    update_args-unchanged :
        (func : Bytes) (pcpt : Cpt) (ins outs : List CptFuncArgs) (changed : Bool) (db db' : Db)
        → found func pcpt.fargs_in ≡ ok ins
        → found func pcpt.fargs_out ≡ ok outs
        → args_changed ins outs (args func db) ≡ ok changed
        → (if changed then write_args q func pcpt (delete_args func db) else ok db) ≡ ok db'
        → args_changed ins outs (args func db') ≡ ok false
    unfolding write_args
    update_args-unchanged func pcpt ins outs false db db' i o c e =
        subst (λ d. args_changed ins outs (args func d) ≡ ok false) (ok_inj e) c
    update_args-unchanged func pcpt ins outs true db db' i o c e =
        let empty = keeps.args-delete_args func db in
        let rows = args-write_args func ins outs (delete_args func db) empty in
        subst (λ d. args_changed ins outs (args func d) ≡ ok false) (ok_inj (rw (i, o) at e))
          ((args_changed_iff ins outs _).1 (rw rows (StartWith-self (all_rows ins outs))))

    -- Where `UpdateProcess` has gone over the parameters of a function, with a table that was written
    -- again or not, going over them a second time changes nothing, if the database keeps a row with
    -- a new id behind the others, and "DELETE FROM" leaves no rows.
    pub update_args-again :
        (func : Bytes) (pcpt : Cpt) (db db' : Db)
        → update_args q func pcpt db ≡ ok db'
        → update_args q func pcpt db' ≡ ok db'
    unfolding update_args
    update_args-again func pcpt db db' e =
        let (ins, i, e1) = bind-eq-ok (found func pcpt.fargs_in) _ e in
        let (outs, o, e2) = bind-eq-ok (found func pcpt.fargs_out) _ e1 in
        let (changed, c, e3) = bind-eq-ok (args_changed ins outs (args func db)) _ e2 in
        rw (i, o) (rw (update_args-unchanged func pcpt ins outs changed db db' i o c e3) refl)
