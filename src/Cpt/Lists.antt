-- ===== src/Cpt/Lists.antt =====
-- Lists of parameters between commas.
use net_cpp.Base.{
  ℤ, ℕ, zero, suc, ◌+◌, ◌-◌, ◌<◌, ◌≡◌, refl, sym, ap, ◌∙◌, none, some, List, [], ◌∷◌, ◌++◌, Bytes,
  map, All, length, length-append, append_assoc, arith,
}
use net_cpp.Number.{to_string}
use net_cpp.Outcome.{ok, throws, thrown_text}
use net_cpp.Settings.{is_alnum, find_char, find_char_from, substr, is_graph, if_illegal}
use net_cpp.Settings.Finding.{
  find_char_from-drop, find_char-none, find_char-append, substr-append, substr-behind,
}
use net_cpp.Cpt.{graph_chars, deal_commas, deal_list, deal_args}
use net_cpp.Cpt.Arguments.{
  Written, array, written_text, written_args, IsWritten, deal_arg-written_text, no_comma,
}

-- Parameters with commas between them, the first given by itself.
abbrev pub joined : Written → List Written → Bytes
joined w [] = written_text w
joined w (v ∷ vs) = written_text w ++ (b',' ∷ joined v vs)

-- A round at a parameter behind what is done.
module _ (args done : Bytes) (w v : Written) (vs : List Written)
    (e : args ≡ done ++ joined w (v ∷ vs)) where
  abbrev comma : ℕ
  comma = length done + length (written_text w)

  first_arg : substr args (length done) (comma - length done) ≡ ok (written_text w)
  first_arg =
      ap (λ t. substr t (length done) (comma - length done)) e
      ∙ substr-append done (written_text w) (b',' ∷ joined v vs) _ _ refl (omega arith)

  split : args ≡ (done ++ written_text w) ++ (b',' ∷ joined v vs)
  split = e ∙ sym (append_assoc done (written_text w) (b',' ∷ joined v vs))

  next_comma :
      find_char_from b',' args (comma + 1)
      ≡ elim (find_char b',' (joined v vs)) [ none ↦ none | some j ↦ some (comma + 1 + j) ]
  next_comma =
      find_char_from-drop b',' ((done ++ written_text w) ++ (b',' ∷ [])) (joined v vs) (comma + 1)
        args
        (omega (
          arith,
          length-append {0} (done ++ written_text w) (b',' ∷ []),
          length-append {0} done (written_text w),
        ))
        (split ∙ simp append_assoc)

  last_text : substr args (comma + 1) (length args - (comma + 1)) ≡ ok (joined v vs)
  last_text =
      let size = length-append {0} done (written_text w) in
      ap (λ t. substr t (comma + 1) (length args - (comma + 1))) split
      ∙ substr-behind (done ++ written_text w) (joined v vs) b',' _ _ (omega (arith, size)) (
          omega (
            arith,
            size,
            ap length split,
            length-append {0} (done ++ written_text w) (b',' ∷ joined v vs),
          ))

deal_commas-joined :
    (f : ℕ) (args done : Bytes) (w v : Written) (vs : List Written)
    → args ≡ done ++ joined w (v ∷ vs)
    → length args < f + length done
    → IsWritten w
    → IsWritten v
    → All IsWritten vs
    → deal_commas f args (length done) (some (length done + length (written_text w)))
      ≡ ok (written_args w ∷ written_args v ∷ map written_args vs)
unfolding deal_commas
deal_commas-joined zero args done w v vs e fuel hw hv hs =
    absurd (omega (arith, fuel, ap length e, length-append {0} done (joined w (v ∷ vs))))
deal_commas-joined (suc f) args done w v [] e fuel hw hv hs = rw (first_arg args done w v [] e) (
    rw (deal_arg-written_text w hw) (
      rw (next_comma args done w v [] e, find_char-none b',' (written_text v) (no_comma v hv))
        (rw (last_text args done w v [] e) (rw (deal_arg-written_text v hv) refl))))
deal_commas-joined (suc f) args done w v (u ∷ us) e fuel hw hv hs =
    let t = written_text w in
    let i = length done + length t + 1 in
    let done' = (done ++ t) ++ (b',' ∷ []) in
    let size : length done' ≡ i =
      omega (arith, length-append {0} (done ++ t) (b',' ∷ []), length-append {0} done t) in
    let rest : args ≡ done' ++ joined v (u ∷ us) = e ∙ simp append_assoc in
    let more : deal_commas f args i (some (i + length (written_text v)))
        ≡ ok (written_args v ∷ written_args u ∷ map written_args us) =
      rw size at
        (deal_commas-joined f args done' v u us rest (omega (arith, fuel, size)) hv hs.0 hs.1) in
    rw (first_arg args done w v (u ∷ us) e) (
      rw (deal_arg-written_text w hw) (
        rw
          (
            next_comma args done w v (u ∷ us) e,
            find_char-append b',' (written_text v) (joined u us) (no_comma v hv),
          )
          (rw more refl)))

-- `deal_args` reads a list of two or more parameters back from their texts with commas between
-- them, in order. The types of scalars are `int` or `double`, the first of them that stands in the
-- text, sizes are ints, and the words have no brackets and no commas.
pub deal_args-joined :
    (w v : Written) (vs : List Written)
    → IsWritten w
    → IsWritten v
    → All IsWritten vs
    → deal_args (joined w (v ∷ vs)) ≡ ok (map written_args (w ∷ v ∷ vs))
unfolding deal_args
deal_args-joined w v vs hw hv hs =
    let args = joined w (v ∷ vs) in
    let n : length (written_text w) ≡ 0 + length (written_text w) = omega arith in
    ap (deal_list args) (find_char-append b',' (written_text w) (joined v vs) (no_comma w hw))
    ∙ ap (λ k. deal_commas (suc (length args)) args 0 (some k)) n
    ∙ deal_commas-joined (suc (length args)) args [] w v vs refl (omega arith) hw hv hs

graph_chars-bracket : (a b : Bytes) → graph_chars (a ++ (b'[' ∷ b)) ≡ throws thrown_text
unfolding graph_chars is_graph if_illegal is_alnum
graph_chars-bracket [] b = refl
graph_chars-bracket (c ∷ cs) b = ground (arith, graph_chars-bracket cs b)

-- `deal_args` refuses every list of one parameter that is an array, since a bracket is no char of a
-- name, though it takes arrays in longer lists.
pub deal_args-array :
    (type : Bytes) (size : ℤ) (key : Bytes)
    → IsWritten (array type size key)
    → deal_args (written_text (array type size key)) ≡ throws thrown_text
unfolding deal_args
deal_args-array type size key h =
    let w = array type size key in
    ap (deal_list (written_text w)) (find_char-none b',' (written_text w) (no_comma w h))
    ∙ rw (graph_chars-bracket type (to_string size ++ (b']' ∷ key)))
