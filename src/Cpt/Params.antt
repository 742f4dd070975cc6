-- ===== src/Cpt/Params.antt =====
-- Lists of parameters of src/cproj_cpt.cpp of any length, with the lists of one and of none.
use net_cpp.Base.{
  ◌<◌, ◌≡◌, refl, ap, ◌∙◌, true, List, [], ◌∷◌, Bytes, map, All, length, lt→ltb, arith,
}
use net_cpp.Outcome.{ok}
use net_cpp.Settings.{if_name_illegal, if_illegal, is_alnum, is_graph}
use net_cpp.Settings.Finding.{find_char-none}
use net_cpp.Cpt.{graph_chars, deal_list, deal_args}
use net_cpp.Cpt.Arguments.{
  Written, written_text, written_args, IsWritten, deal_arg-written_text, no_comma,
}
use net_cpp.Cpt.Lists.{joined, deal_args-joined}

-- The text of a list of parameters.
abbrev pub args_text : List Written → Bytes
args_text [] = []
args_text (w ∷ ws) = joined w ws

-- Parameters that can be read; a list of one has only letters, digits and underscores, and more
-- than three of them.
abbrev pub AreWritten : List Written → Type 0
AreWritten [] = Unit
AreWritten (w ∷ []) =
    IsWritten w × (if_name_illegal (written_text w) ≡ true) × (3 < length (written_text w))
AreWritten (w ∷ v ∷ vs) = IsWritten w × IsWritten v × All IsWritten vs

graph_chars-name : (s : Bytes) → if_name_illegal s ≡ true → graph_chars s ≡ ok s
unfolding if_name_illegal if_illegal is_alnum is_graph graph_chars
graph_chars-name [] h = refl
graph_chars-name (c ∷ cs) h =
    let rest : if_name_illegal cs ≡ true = ground (arith, h) in
    ground (arith, h, graph_chars-name cs rest)

-- A list of parameters is read back from its text.
pub deal_args-args_text :
    (ws : List Written) → AreWritten ws → deal_args (args_text ws) ≡ ok (map written_args ws)
unfolding deal_args deal_list graph_chars
deal_args-args_text [] h = refl
deal_args-args_text (w ∷ []) (is, name, long) =
    let s = written_text w in
    ap (deal_list s) (find_char-none b',' s (no_comma w is))
    ∙ rw (graph_chars-name s name)
        (rw (lt→ltb 3 (length s) long) (rw (deal_arg-written_text w is) refl))
deal_args-args_text (w ∷ v ∷ vs) (hw, hv, hs) = deal_args-joined w v vs hw hv hs
