-- ===== src/Cpt/Described.antt =====
-- The source files and functions of a project of src/cproj_cpt.cpp, and the tables that they make.
use net_cpp.Base.{
  ap, ◌∙◌, map, append_assoc, append-nil, ◌≡◌, refl, List, [], ◌∷◌, ◌++◌, Bytes, codes,
}
use net_cpp.Cpt.Arguments.{Written, written_args}
use net_cpp.Cpt.Params.{args_text}
use net_cpp.Cpt.Tables.{keep_first, inserts, inserts-append, inserts-all}
use net_cpp.Cpt.{CptFuncArgs, CptFunc, Cpt, add_func}
use net_cpp.Cpt.Functions.{FuncText}

-- A function as it is described: its name, its results and its parameters.
pub record Func : Type 0 where
  pub func_name : Bytes
  pub results : List Written
  pub params : List Written

abbrev pub text_of : Func → FuncText
text_of g = record {
  out_text = args_text g.results;
  name_text = g.func_name;
  in_text = args_text g.params;
}

abbrev pub func_of : Func → CptFunc
func_of g = record {
  func_name = g.func_name;
  fargs_out = map written_args g.results;
  fargs_in = map written_args g.params;
}

-- A source file: its name without `.cpp`, and its functions.
pub record Source : Type 0 where
  pub src_name : Bytes
  pub funcs : List Func

-- What the program does with the description, and what it says: the entries of its tables.
abbrev pub with_funcs : Bytes → List Func → Cpt → Cpt
with_funcs tsrc_name [] c = c
with_funcs tsrc_name (g ∷ fs) c = with_funcs tsrc_name fs (add_func tsrc_name (func_of g) c)

abbrev pub with_sources : List Source → Cpt → Cpt
with_sources [] c = c
with_sources (s ∷ ss) c =
    let tsrc_name = s.src_name ++ codes ".cpp" in
    with_sources ss
      (with_funcs tsrc_name s.funcs (record c { src_files = c.src_files ++ tsrc_name ∷ [] }))

abbrev pub file_names : List Source → List Bytes
file_names [] = []
file_names (s ∷ ss) = (s.src_name ++ codes ".cpp") ∷ file_names ss

abbrev pub func_files : Bytes → List Func → List (Bytes × Bytes)
func_files file fs = map (λ (g : Func). (g.func_name, file)) fs

abbrev pub func_results : List Func → List (Bytes × List CptFuncArgs)
func_results fs = map (λ (g : Func). (g.func_name, map written_args g.results)) fs

abbrev pub func_params : List Func → List (Bytes × List CptFuncArgs)
func_params fs = map (λ (g : Func). (g.func_name, map written_args g.params)) fs

abbrev pub all_files : List Source → List (Bytes × Bytes)
all_files [] = []
all_files (s ∷ ss) = func_files (s.src_name ++ codes ".cpp") s.funcs ++ all_files ss

abbrev pub all_results : List Source → List (Bytes × List CptFuncArgs)
all_results [] = []
all_results (s ∷ ss) = func_results s.funcs ++ all_results ss

abbrev pub all_params : List Source → List (Bytes × List CptFuncArgs)
all_params [] = []
all_params (s ∷ ss) = func_params s.funcs ++ all_params ss

-- The tables that the description says: of each name the first entry.
abbrev pub described : Bytes → Bytes → List Source → Cpt
described name content ss = record {
  src_files = file_names ss;
  funcs_src = keep_first [] (all_files ss);
  fargs_in = keep_first [] (all_params ss);
  fargs_out = keep_first [] (all_results ss);
  name = name;
  content = content;
}

-- The tables before anything is read.
abbrev pub empty_cpt : Bytes → Bytes → Cpt
empty_cpt name content = record {
  src_files = [];
  funcs_src = [];
  fargs_in = [];
  fargs_out = [];
  name = name;
  content = content;
}

with_funcs-inserts :
    (file : Bytes) (fs : List Func) (c : Cpt)
    → with_funcs file fs c ≡ record c {
      funcs_src = inserts c.funcs_src (func_files file fs);
      fargs_in = inserts c.fargs_in (func_params fs);
      fargs_out = inserts c.fargs_out (func_results fs);
    }
unfolding add_func
with_funcs-inserts file [] c = refl
with_funcs-inserts file (g ∷ fs) c = with_funcs-inserts file fs (add_func file (func_of g) c)

with_sources-inserts :
    (ss : List Source) (c : Cpt)
    → with_sources ss c ≡ record c {
      src_files = c.src_files ++ file_names ss;
      funcs_src = inserts c.funcs_src (all_files ss);
      fargs_in = inserts c.fargs_in (all_params ss);
      fargs_out = inserts c.fargs_out (all_results ss);
    }
with_sources-inserts [] c = rw (append-nil c.src_files) refl
with_sources-inserts (s ∷ ss) c =
    let file = s.src_name ++ codes ".cpp" in
    let c' = record c { src_files = c.src_files ++ file ∷ [] } in
    ap (with_sources ss) (with_funcs-inserts file s.funcs c')
    ∙ with_sources-inserts ss (record c' {
      funcs_src = inserts c.funcs_src (func_files file s.funcs);
      fargs_in = inserts c.fargs_in (func_params s.funcs);
      fargs_out = inserts c.fargs_out (func_results s.funcs);
    })
    ∙ rw
        (
          append_assoc c.src_files (file ∷ []) (file_names ss),
          inserts-append c.funcs_src (func_files file s.funcs) (all_files ss),
          inserts-append c.fargs_in (func_params s.funcs) (all_params ss),
          inserts-append c.fargs_out (func_results s.funcs) (all_results ss),
        )
        refl

pub with_sources-described :
    (name content : Bytes) (ss : List Source)
    → with_sources ss (empty_cpt name content) ≡ described name content ss
with_sources-described name content ss =
    with_sources-inserts ss (empty_cpt name content)
    ∙ rw (inserts-all (all_files ss), inserts-all (all_params ss), inserts-all (all_results ss))
        refl
