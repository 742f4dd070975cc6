-- ===== src/Cpt/Functions.antt =====
-- A whole description of source files and their functions, written and read back.
use net_cpp.Base.{
  ℕ, suc, ◌+◌, ◌^◌, ◌<◌, ◌≡◌, ◌≢◌, refl, sym, ap, ◌∙◌, true, some, [], ◌∷◌, ◌++◌, Bytes, All,
  All-mono, length, length-append, append_assoc, arith,
}
use net_cpp.Outcome.{ok}
use net_cpp.Settings.{
  if_illegal, is_alnum, find_char, find_char_from, substr, sub_size, if_name_illegal,
}
use net_cpp.Settings.Finding.{find_char-append, substr-between, sub_size-eq, find_char_from-drop}
use net_cpp.Settings.Text.{IsInner}
use net_cpp.Cpt.{CptFunc, deal_args, deal_func, deal_outs, deal_ins, deal_name, between}

-- A function as it is written: its name and the texts of its results and parameters.
pub record FuncText : Type 0 where
  pub out_text : Bytes
  pub name_text : Bytes
  pub in_text : Bytes

abbrev pub func_text : FuncText → Bytes
func_text f = b'(' ∷ (f.out_text ++ (b')' ∷ (f.name_text ++ (b'(' ∷ (f.in_text ++ (b')' ∷ []))))))

-- No parenthesis, and nothing that ends a statement or a block.
abbrev pub IsList : Bytes → Type 0
IsList s = All (λ c. (c ≢ b'(') × (c ≢ b')')) s × IsInner s × (length s < 2 ^ 64)

-- The function that a text describes.
pub record Describes (f : FuncText) (g : CptFunc) : Type 0 where
  pub out_list : IsList f.out_text
  pub in_list : IsList f.in_text
  pub outs : deal_args f.out_text ≡ ok g.fargs_out
  pub ins : deal_args f.in_text ≡ ok g.fargs_in
  pub legal : if_name_illegal f.name_text ≡ true
  pub name_size : length f.name_text < 2 ^ 64
  pub same_name : f.name_text ≡ g.func_name

name-parens : (n : Bytes) → if_name_illegal n ≡ true → All (λ c. (c ≢ b'(') × (c ≢ b')')) n
unfolding if_name_illegal if_illegal is_alnum
name-parens [] h = tt
name-parens (c ∷ cs) h = ((ground arith, ground arith), name-parens cs (ground arith))

no_open : (s : Bytes) → All (λ c. (c ≢ b'(') × (c ≢ b')')) s → All (λ c. c ≢ b'(') s
no_open s h = All-mono _ _ (λ c (e : (c ≢ b'(') × (c ≢ b')')). e.0) s h

no_close : (s : Bytes) → All (λ c. (c ≢ b'(') × (c ≢ b')')) s → All (λ c. c ≢ b')') s
no_close s h = All-mono _ _ (λ c (e : (c ≢ b'(') × (c ≢ b')')). e.1) s h

-- The indices of the parentheses.
module _ (f : FuncText) (g : CptFunc) (h : Describes f g) where
  abbrev s : Bytes
  s = func_text f

  abbrev dq_r : ℕ
  dq_r = suc (length f.out_text)

  abbrev yq_l : ℕ
  yq_l = dq_r + 1 + length f.name_text

  abbrev yq_r : ℕ
  yq_r = yq_l + (length f.in_text + 1)

  closes : find_char b')' s ≡ some dq_r
  closes =
      find_char-append b')' (b'(' ∷ f.out_text) _ (omega arith, no_close f.out_text h.out_list.0)

  opens : find_char_from b'(' s (dq_r + 1) ≡ some yq_l
  opens =
      find_char_from-drop b'(' ((b'(' ∷ f.out_text) ++ (b')' ∷ []))
        (f.name_text ++ (b'(' ∷ (f.in_text ++ (b')' ∷ [])))) (dq_r + 1) s
        (omega (arith, length-append {0} (b'(' ∷ f.out_text) (b')' ∷ []))) (simp append_assoc)
      ∙ rw (
          find_char-append b'(' f.name_text (f.in_text ++ (b')' ∷ []))
            (no_open f.name_text (name-parens f.name_text h.legal)))

  abbrev before_ins : Bytes
  before_ins = (b'(' ∷ f.out_text) ++ (b')' ∷ f.name_text)

  length-before_ins : length before_ins ≡ yq_l
  length-before_ins = omega (arith, length-append {0} (b'(' ∷ f.out_text) (b')' ∷ f.name_text))

  last : find_char_from b')' s yq_l ≡ some yq_r
  last =
      find_char_from-drop b')' before_ins (b'(' ∷ (f.in_text ++ (b')' ∷ []))) yq_l s
        (sym length-before_ins) (simp append_assoc)
      ∙ rw
          (find_char-append b')' (b'(' ∷ f.in_text) []
            (omega arith, no_close f.in_text h.in_list.0))
          (ap some (omega arith))

  out_between : between s 0 dq_r ≡ ok f.out_text
  unfolding between
  out_between =
      substr-between [] f.out_text _ b'(' (0 + 1) (sub_size dq_r (0 + 1)) refl
        (sub_size-eq dq_r (0 + 1) (length f.out_text) (omega arith) h.out_list.2)

  name_between : between s dq_r yq_l ≡ ok f.name_text
  unfolding between
  name_between =
      substr-between (b'(' ∷ f.out_text) f.name_text _ b')' (dq_r + 1) (sub_size yq_l (dq_r + 1))
        refl (sub_size-eq yq_l (dq_r + 1) (length f.name_text) (omega arith) h.name_size)

  in_between : between s yq_l yq_r ≡ ok f.in_text
  unfolding between
  in_between =
      let split : s ≡ before_ins ++ (b'(' ∷ (f.in_text ++ (b')' ∷ []))) = simp append_assoc in
      ap (λ t. substr t (yq_l + 1) (sub_size yq_r (yq_l + 1))) split
      ∙ substr-between before_ins f.in_text (b')' ∷ []) b'(' (yq_l + 1) (sub_size yq_r (yq_l + 1))
          (omega (arith, length-before_ins))
          (sub_size-eq yq_r (yq_l + 1) (length f.in_text) (omega arith) h.in_list.2)

  -- The text of a function is read back.
  pub deal_func-func_text : deal_func s ≡ ok g
  unfolding deal_func deal_outs deal_ins deal_name
  deal_func-func_text =
      ap (deal_outs s (some 0)) closes
      ∙ rw out_between (
          rw h.outs (
            ap (deal_ins s dq_r g.fargs_out) opens
            ∙ ap (deal_name s dq_r g.fargs_out yq_l) last
            ∙ rw in_between (rw h.ins (rw name_between (rw (h.legal, h.same_name) refl)))))
