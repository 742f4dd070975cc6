-- ===== src/Project/Sources.antt =====
-- The source files in the database, brought up to date.
use net_cpp.Base.{
  ◌⊎◌, ℤ, ℕ, ◌≡◌, ◌≢◌, refl, sym, ap, subst, ◌∙◌, false, Option, none, some, List, [], ◌∷◌, ◌++◌,
  Bytes, string_eq, string_eq_iff, if◌then◌else◌, Bool-cases, inl, inr, All,
}
use net_cpp.Outcome.{Outcome, ok, reject, throws, fault, ◌>>=◌, bind-eq-ok, ok_inj}
use net_cpp.Project.{Proj}
use net_cpp.Project.Build.{Machine, source_dir, build_src, lib_name_of, compile_srcfile}
use net_cpp.Project.Ordered.{insert_key}
use net_cpp.Project.Rows.{Sqlite}
use net_cpp.Project.Update.{source_path, update_src, update_srcs}

string_ne : (a b : Bytes) → a ≢ b → string_eq a b ≡ false
string_ne a b ne = elim (Bool-cases (string_eq a b)) [
  | inl e ↦ absurd (ne ((string_eq_iff a b).0 e))
  | inr e ↦ e
]

-- The MD5 in a row that is there.
abbrev pub set_md5 : Bytes → Option Bytes → Option Bytes
set_md5 md5 none = none
set_md5 md5 (some old) = some md5

module _ (m : Machine) (q : Sqlite) where
  open m use {compute_file}
  open q use {Db, src_md5, update_md5}

  -- What "UPDATE srcfiles SET md5" does: the rows of the name that are there get the MD5.
  abbrev pub Sets : Type 0
  Sets =
      (md5 name n : Bytes) (db : Db)
      → src_md5 n (update_md5 md5 name db)
        ≡ (if string_eq name n then set_md5 md5 (src_md5 n db) else src_md5 n db)

  -- The row of a source file has the MD5 of the file.
  abbrev pub IsCurrent : Proj → Db → Bytes × ℕ → Type 0
  IsCurrent p db (src, idx) =
      (dir : Bytes) × (source_dir idx p ≡ ok dir)
      × (src_md5 src db ≡ some (compute_file (source_path src dir p)))

  -- The command that compiles a source file into its library succeeded, and printed nothing.
  abbrev pub IsBuilt : Proj → Bytes × ℕ → Type 0
  IsBuilt p (src, idx) =
      (dir : Bytes) × (source_dir idx p ≡ ok dir)
      × (build_src m (lib_name_of src) (source_path src dir p) (p.proj_path ++ p.lib_path) ≡ ok tt)

  -- Nothing but the libraries changed.
  abbrev SamePlaces : Proj → Proj → Type 0
  SamePlaces p p' = (libs : List (Bytes × Bytes)) × (p' ≡ record p { lib_index = libs })

  -- The names of source files, as keys of a map, are distinct.
  abbrev pub Distinct : List (Bytes × ℕ) → Type 0
  Distinct [] = Unit
  Distinct ((src, idx) ∷ more) = All (λ (s : Bytes × ℕ). src ≢ s.0) more × Distinct more

  compiled :
      (built : Outcome (Unit {0})) (libs : List (Bytes × Bytes)) (p p' : Proj)
      → (built >>= λ u. ok (record p { lib_index = libs })) ≡ ok p'
      → SamePlaces p p' × (built ≡ ok tt)
  compiled (ok u) libs p p' e = ((libs, sym (ok_inj e)), refl)
  compiled reject libs p p' e = cc
  compiled (throws x) libs p p' e = cc
  compiled fault libs p p' e = cc

  compile_srcfile-compiled :
      (src dir : Bytes) (p p' : Proj)
      → compile_srcfile m src dir p ≡ ok p'
      → SamePlaces p p'
        × (build_src m (lib_name_of src) (source_path src dir p) (p.proj_path ++ p.lib_path)
            ≡ ok tt)
  unfolding compile_srcfile
  compile_srcfile-compiled src dir p p' e =
      compiled (build_src m (lib_name_of src) (source_path src dir p) (p.proj_path ++ p.lib_path))
        (insert_key src (lib_name_of src) p.lib_index) p p' e

  -- What `update_src` leaves: a current row, which was current before or has its library built anew,
  -- and the other rows as they were.
  abbrev Updated : Bytes → ℕ → Proj → Db → Proj × Db → Type 0
  Updated src idx p db (p', db') =
      IsCurrent p' db' (src, idx)
      × SamePlaces p p'
      × ((n : Bytes) → src ≢ n → src_md5 n db' ≡ src_md5 n db)
      × (IsCurrent p db (src, idx) ⊎ IsBuilt p (src, idx))

  module _ (sets : Sets) where
    update_md5-Updated :
        (src dir md5 old : Bytes) (idx : ℕ) (p p' : Proj) (db : Db)
        → source_dir idx p ≡ ok dir
        → md5 ≡ compute_file (source_path src dir p)
        → src_md5 src db ≡ some old
        → SamePlaces p p'
        → IsBuilt p (src, idx)
        → Updated src idx p db (p', update_md5 md5 src db)
    unfolding source_dir
    update_md5-Updated src dir md5 old idx p p' db d is known (libs, same) built =
        subst (λ r. Updated src idx p db (r, update_md5 md5 src db)) (sym same)
          (
            (dir, d, sets md5 src src db ∙ rw ((string_eq_iff src src).1 refl, known) (ap some is)),
            (libs, refl),
            (λ n ne. sets md5 src n db ∙ rw (string_ne src n ne) refl),
            inr built,
          )

    update_src-Updated :
        (src : Bytes) (idx : ℕ) (p : Proj) (db : Db) (r : Proj × Db) (found : Option Bytes)
        → src_md5 src db ≡ found
        → update_src m q src idx p db ≡ ok r
        → Updated src idx p db r
    unfolding update_src
    update_src-Updated src idx p db r none missing e = cc (rw (missing, update_src) at e)
    update_src-Updated src idx p db r (some dmd5) known e =
        let (dir, d, e1) = bind-eq-ok (source_dir idx p) _ (rw (known, update_src) at e) in
        let tmd5 = compute_file (source_path src dir p) in
        elim (Bool-cases (string_eq dmd5 tmd5)) [
          | inl same ↦
              let now : IsCurrent p db (src, idx) =
                (dir, d, known ∙ ap some ((string_eq_iff dmd5 tmd5).0 same)) in
              subst (Updated src idx p db) (ok_inj (rw same at e1))
                (now, (p.lib_index, refl), (λ n ne. refl), inl now)
          | inr other ↦
              let (p1, c, e2) = bind-eq-ok (compile_srcfile m src dir p) _ (rw other at e1) in
              let (places, built) = compile_srcfile-compiled src dir p p1 c in
              subst (Updated src idx p db) (ok_inj e2) (
                update_md5-Updated src dir tmd5 dmd5 idx p p1 db d refl known places
                  (dir, d, built))
        ]

    IsCurrent-other :
        (p p' : Proj) (db db' : Db) (s : Bytes × ℕ)
        → SamePlaces p p'
        → src_md5 s.0 db' ≡ src_md5 s.0 db
        → IsCurrent p db s
        → IsCurrent p' db' s
    unfolding source_dir
    IsCurrent-other p p' db db' (src, idx) (libs, same) keeps (dir, d, known) =
        subst (λ r. IsCurrent r db' (src, idx)) (sym same) (dir, d, keeps ∙ known)

    -- What was current or built behind the first file was so before it.
    kept_first :
        (p p1 : Proj) (db db1 : Db) (s : Bytes × ℕ)
        → SamePlaces p p1
        → src_md5 s.0 db1 ≡ src_md5 s.0 db
        → (IsCurrent p1 db1 s ⊎ IsBuilt p1 s)
        → (IsCurrent p db s ⊎ IsBuilt p s)
    unfolding source_dir
    kept_first p p1 db db1 (src, idx) (libs, same) keeps (inl now) =
        let (dir, d, known) = subst (λ r. IsCurrent r db1 (src, idx)) same now in
        inl (dir, d, sym keeps ∙ known)
    kept_first p p1 db db1 (src, idx) (libs, same) keeps (inr built) =
        inr (subst (λ r. IsBuilt r (src, idx)) same built)

    All-kept :
        (p p1 : Proj) (db db1 : Db) (src : Bytes) (more : List (Bytes × ℕ))
        → SamePlaces p p1
        → ((n : Bytes) → src ≢ n → src_md5 n db1 ≡ src_md5 n db)
        → All (λ (s : Bytes × ℕ). src ≢ s.0) more
        → All (λ s. IsCurrent p1 db1 s ⊎ IsBuilt p1 s) more
        → All (λ s. IsCurrent p db s ⊎ IsBuilt p s) more
    All-kept p p1 db db1 src [] places others ne h = tt
    All-kept p p1 db db1 src (s ∷ more) places others ne h = (
      kept_first p p1 db db1 s places (others s.0 ne.0) h.0,
      All-kept p p1 db db1 src more places others ne.1 h.1,
    )

    SamePlaces-trans : (p r s : Proj) → SamePlaces p r → SamePlaces r s → SamePlaces p s
    SamePlaces-trans p r s (l, e) (k, f) = (k, f ∙ ap (λ (t : Proj). record t { lib_index = k }) e)

    update_srcs-Updated :
        (used : List (Bytes × ℕ)) (p p' : Proj) (db db' : Db)
        → Distinct used
        → update_srcs m q used p db ≡ ok (p', db')
        → All (IsCurrent p' db') used
          × SamePlaces p p'
          × ((n : Bytes) → All (λ (s : Bytes × ℕ). n ≢ s.0) used → src_md5 n db' ≡ src_md5 n db)
          × All (λ s. IsCurrent p db s ⊎ IsBuilt p s) used
    unfolding update_srcs
    update_srcs-Updated [] p p' db db' distinct e =
        subst
          (λ (r : Proj × Db).
            Unit × SamePlaces p r.0 × ((n : Bytes) → Unit → src_md5 n r.1 ≡ src_md5 n db) × Unit)
          (ok_inj e) (tt, (p.lib_index, refl), (λ n none. refl), tt)
    update_srcs-Updated ((src, idx) ∷ more) p p' db db' (here, distinct) e =
        let ((p1, db1), e1, e2) = bind-eq-ok (update_src m q src idx p db) _ e in
        let (current, places, others, why) = update_src-Updated src idx p db (p1, db1) _ refl e1 in
        let (rest, places', kept, reasons) = update_srcs-Updated more p1 p' db1 db' distinct e2 in
        (
          (IsCurrent-other p1 p' db1 db' (src, idx) places' (kept src here) current, rest),
          SamePlaces-trans p p1 p' places places',
          (λ n ne. kept n ne.1 ∙ others n (λ s. ne.0 (sym s))),
          (why, All-kept p p1 db db1 src more places others here reasons),
        )

  update_srcs-current :
      (used : List (Bytes × ℕ)) (run : Bytes → ℤ) (log : Bytes → ℕ) (p : Proj) (db : Db)
      → All (IsCurrent p db) used
      → update_srcs (record m { system = run; log_size = log }) q used p db ≡ ok (p, db)
  unfolding update_srcs update_src
  update_srcs-current [] run log p db h = refl
  update_srcs-current ((src, idx) ∷ more) run log p db ((dir, d, known), h) =
      let md5 = compute_file (source_path src dir p) in
      rw (known, update_src, d, (string_eq_iff md5 md5).1 refl)
        (update_srcs-current more run log p db h)

  -- Where the loop of `UpdateProcess` over the source files in use, whose names are distinct, has
  -- gone through, the database has for each of them the MD5 that its file has; each of them had it
  -- before, or the command that compiles it succeeded. Going through them again changes nothing,
  -- whatever the compiler would answer then, if "UPDATE srcfiles SET md5" sets the MD5 of the named
  -- file and of no other.
  pub update_srcs-again :
      (sets : Sets) (used : List (Bytes × ℕ)) (run : Bytes → ℤ) (log : Bytes → ℕ) (p p' : Proj)
      (db db' : Db)
      → Distinct used
      → update_srcs m q used p db ≡ ok (p', db')
      → All (IsCurrent p' db') used
        × All (λ s. IsCurrent p db s ⊎ IsBuilt p s) used
        × (update_srcs (record m { system = run; log_size = log }) q used p' db' ≡ ok (p', db'))
  update_srcs-again sets used run log p p' db db' distinct e =
      let (current, places, kept, why) = update_srcs-Updated sets used p p' db db' distinct e in
      (current, why, update_srcs-current used run log p' db' current)
