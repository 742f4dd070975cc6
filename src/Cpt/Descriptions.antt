-- ===== src/Cpt/Descriptions.antt =====
-- A whole description of source files and their functions, written and read back.
use net_cpp.Base.{
  ap, ◌∙◌, suc, ◌<◌, ◌^◌, ◌≡◌, refl, true, false, List, [], ◌∷◌, ◌++◌, Bytes, codes, string_eq,
  string_eq_iff, All, All-append, length, arith,
}
use net_cpp.Outcome.{ok}
use net_cpp.Settings.{contains, starts_with, if_name_illegal, setting, Settings, nil, cons}
use net_cpp.Settings.Text.{settings_text, IsInner, AreSettings, name-IsInner}
use net_cpp.Settings.RoundTrip.{read_blocks-settings_text}
use net_cpp.Cpt.Params.{args_text, AreWritten, deal_args-args_text}
use net_cpp.Cpt.{
  CptFunc, Cpt, add_func, deal_funcs, deal_srcs, find_project, block_keys, deal_content, new_cpt,
}
use net_cpp.Cpt.Functions.{IsList, FuncText, func_text, Describes, deal_func-func_text}
use net_cpp.Cpt.Described.{
  Func, text_of, func_of, Source, with_funcs, with_sources, described, empty_cpt,
  with_sources-described,
}

-- The settings of the functions, of the source files and of the project.
abbrev pub func_settings : List (Func) → Settings
func_settings [] = nil
func_settings (g ∷ fs) = cons (setting [] [] (func_text (text_of g)) false nil) (func_settings fs)

abbrev pub source_settings : List Source → Settings
source_settings [] = nil
source_settings (s ∷ ss) =
    cons (setting (codes "srcfile") s.src_name [] true (func_settings s.funcs)) (source_settings ss)

abbrev pub project_settings : Bytes → List Source → Settings
project_settings name ss = cons (setting (codes "cparts") name [] true (source_settings ss)) nil

-- The lists can be read and hide no keyword, and the names are legal.
abbrev pub IsFunc : Func → Type 0
IsFunc g =
    IsList (args_text g.results)
    × IsList (args_text g.params)
    × AreWritten g.results
    × AreWritten g.params
    × (if_name_illegal g.func_name ≡ true)
    × (length g.func_name < 2 ^ 64)

IsFunc-Describes : (g : Func) → IsFunc g → Describes (text_of g) (func_of g)
IsFunc-Describes g (out_list, in_list, outs, ins, legal, name_size) = record {
  out_list = out_list;
  in_list = in_list;
  outs = deal_args-args_text g.results outs;
  ins = deal_args-args_text g.params ins;
  legal = legal;
  name_size = name_size;
  same_name = refl;
}

abbrev pub IsSource : Source → Type 0
IsSource s =
    (if_name_illegal s.src_name ≡ true)
    × (contains (codes "cparts") (codes "srcfile" ++ s.src_name) ≡ false)
    × All IsFunc s.funcs

func_text-IsInner : (f : FuncText) (g : CptFunc) → Describes f g → IsInner (func_text f)
func_text-IsInner f g h =
    let semi : IsInner (b')' ∷ []) = omega arith in
    (
      omega arith,
      All-append _ f.out_text _ h.out_list.1 (
        omega arith,
        All-append _ f.name_text _ (name-IsInner f.name_text h.legal)
            (omega arith, All-append _ f.in_text (b')' ∷ []) h.in_list.1 semi),
      ),
    )

func_settings-AreSettings :
    (fs : List (Func)) → All IsFunc fs → AreSettings block_keys (func_settings fs)
func_settings-AreSettings [] h = tt
func_settings-AreSettings (g ∷ fs) h = (
  (refl, refl, refl, func_text-IsInner (text_of g) (func_of g) (IsFunc-Describes g h.0)),
  func_settings-AreSettings fs h.1,
)

source_settings-AreSettings :
    (ss : List Source) → All IsSource ss → AreSettings block_keys (source_settings ss)
unfolding contains starts_with
source_settings-AreSettings [] h = tt
source_settings-AreSettings (s ∷ ss) h =
    let (legal, first, described) = h.0 in
    (
      (
        refl,
        rw first refl,
        (λ (e : codes "srcfile" ≡ []). cc),
        omega arith,
        legal,
        func_settings-AreSettings s.funcs described,
      ),
      source_settings-AreSettings ss h.1,
    )

deal_funcs-func_settings :
    (tsrc_name : Bytes) (fs : List (Func)) (c : Cpt)
    → All IsFunc fs
    → deal_funcs tsrc_name (func_settings fs) c ≡ ok (with_funcs tsrc_name fs c)
unfolding deal_funcs
deal_funcs-func_settings tsrc_name [] c h = refl
deal_funcs-func_settings tsrc_name (g ∷ fs) c h =
    rw (deal_func-func_text (text_of g) (func_of g) (IsFunc-Describes g h.0))
      (deal_funcs-func_settings tsrc_name fs (add_func tsrc_name (func_of g) c) h.1)

deal_srcs-source_settings :
    (ss : List Source) (c : Cpt)
    → All IsSource ss
    → deal_srcs (source_settings ss) c ≡ ok (with_sources ss c)
unfolding deal_srcs string_eq
deal_srcs-source_settings [] c h = refl
deal_srcs-source_settings (s ∷ ss) c h =
    let tsrc_name = s.src_name ++ codes ".cpp" in
    let c' = record c { src_files = c.src_files ++ tsrc_name ∷ [] } in
    rw (deal_funcs-func_settings tsrc_name s.funcs c' h.0.2)
      (deal_srcs-source_settings ss (with_funcs tsrc_name s.funcs c') h.1)

-- `Cpt` reads the description of a project from its text: the files in order, and for each function
-- its file, its results and its parameters in order, where of a name that comes twice the first entry
-- counts. It holds for legal names, of which none makes a keyword of another, for parameters that are
-- scalars of type `int` or `double` or arrays with an int as their size, in words without brackets,
-- commas, parentheses and marks of statements and blocks, where a list of one has more than three
-- chars and all of them are those of a name, and for less than 2^64 chars.
pub new_cpt-project_settings :
    (name : Bytes) (ss : List Source)
    → if_name_illegal name ≡ true
    → All IsSource ss
    → length (settings_text (project_settings name ss)) < 2 ^ 64
    → let content = settings_text (project_settings name ss) in
      new_cpt content name ≡ ok (described name content ss)
unfolding new_cpt deal_content find_project contains starts_with
new_cpt-project_settings name ss legal h small =
    let blocks = project_settings name ss in
    let content = settings_text blocks in
    let settings : AreSettings block_keys blocks = (
      (
        refl,
        refl,
        (λ (e : codes "cparts" ≡ []). cc),
        omega arith,
        legal,
        source_settings-AreSettings ss h,
      ),
      tt,
    ) in
    let read =
      read_blocks-settings_text (suc (length content)) block_keys blocks settings (omega arith)
        small in
    rw read (
      rw ((string_eq_iff name name).1 refl) (
        deal_srcs-source_settings ss (empty_cpt name content) h
        ∙ ap ok (with_sources-described name content ss)))
