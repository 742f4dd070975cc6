-- ===== src/Tests/Configs.antt =====
-- Project and part files.
use net_cpp.Base.{
  Bytes, replicate, ◌==◌, if◌then◌else◌, suc, ◌≡◌, ◌≢◌, refl, [], ◌∷◌, codes, map, length, pos,
  false, true, arith,
}
use net_cpp.Number.{to_string}
use net_cpp.Outcome.{ok, reject, fault}
use net_cpp.Settings.{
  setting, Settings, nil, cons, read_blocks, if_name_illegal, contains, starts_with,
}
use net_cpp.Settings.Files.{read_file, read_file_lem}
use net_cpp.Settings.Text.{settings_text}
use net_cpp.Settings.Totality.{read_blocks-total}
use net_cpp.Settings.RoundTrip.{read_blocks-settings_text}
use net_cpp.Cpt.{block_keys, deal_args, new_cpt}
use net_cpp.Cpt.Arguments.{Written, scalar, array, written_args}
use net_cpp.Cpt.Lists.{deal_args-joined}
use net_cpp.Cpt.Described.{Func, Source}
use net_cpp.Cpt.Descriptions.{IsFunc, project_settings, new_cpt-project_settings}

read_blocks-total_example :
    (read_blocks 40 block_keys (codes "cpartsA{x;") ≢ fault)
    × (read_blocks 40 block_keys (codes "cpartsA{x;") ≢ reject)
    × (read_blocks 40 block_keys (codes "cpartsA{x;")
        ≡ read_blocks (suc (length (codes "cpartsA{x;"))) block_keys (codes "cpartsA{x;"))
read_blocks-total_example = read_blocks-total 40 block_keys (codes "cpartsA{x;") (omega arith)

abbrev nested : Settings
nested =
    cons
      (setting (codes "cparts") (codes "A") [] true (
        cons
          (setting (codes "srcfile") (codes "b") [] true
            (cons (setting [] [] (codes "x") false nil) nil))
          nil))
      (cons (setting [] [] (codes "y") false nil) nil)

read_blocks-settings_text_example :
    read_blocks 60 block_keys (codes "cpartsA{srcfileb{x;};};y;") ≡ ok nested
unfolding contains starts_with if_name_illegal
read_blocks-settings_text_example =
    read_blocks-settings_text 60 block_keys nested
      (
        (
          refl,
          refl,
          (λ (e : codes "cparts" ≡ []). cc),
          omega arith,
          refl,
          (
            (
              refl,
              refl,
              (λ (e : codes "srcfile" ≡ []). cc),
              omega arith,
              refl,
              ((refl, refl, refl, omega arith), tt),
            ),
            tt,
          ),
        ),
        ((refl, refl, refl, omega arith), tt),
      )
      (omega arith) (omega arith)

abbrev count_arg : Written
count_arg = scalar (codes "int") (codes "count")

abbrev rate_arg : Written
rate_arg = scalar (codes "double") (codes "rate")

abbrev table_arg : Written
table_arg = array (codes "int") (pos 16) (codes "table")

deal_args-joined_example :
    deal_args (codes "intcount,doublerate,int[16]table")
    ≡ ok (map written_args (count_arg ∷ rate_arg ∷ table_arg ∷ []))
unfolding contains starts_with to_string
deal_args-joined_example =
    deal_args-joined count_arg rate_arg (table_arg ∷ []) (omega arith, omega arith, refl)
      (omega arith, omega arith, refl) ((omega arith, omega arith, omega arith), tt)

abbrev sum_func : Func
sum_func = record {
  func_name = codes "sum";
  results = scalar (codes "int") (codes "r") ∷ [];
  params = scalar (codes "int") (codes "a") ∷ scalar (codes "int") (codes "b") ∷ [];
}

abbrev one_source : Source
one_source = record { src_name = codes "math"; funcs = sum_func ∷ [] }

sum_func-IsFunc : IsFunc sum_func
unfolding if_name_illegal contains starts_with
sum_func-IsFunc = (
  (omega arith, omega arith, omega arith),
  (omega arith, omega arith, omega arith),
  ((omega arith, omega arith, refl), refl, omega arith),
  ((omega arith, omega arith, refl), (omega arith, omega arith, refl), tt),
  refl,
  omega arith,
)

abbrev net_content : Bytes
net_content = settings_text (project_settings (codes "Net") (one_source ∷ []))

new_cpt-project_settings_example :
    new_cpt net_content (codes "Net")
    ≡ ok (record {
      src_files = codes "math.cpp" ∷ [];
      funcs_src = (codes "sum", codes "math.cpp") ∷ [];
      fargs_in =
          (
            codes "sum",
            written_args (scalar (codes "int") (codes "a"))
                ∷ written_args (scalar (codes "int") (codes "b"))
                ∷ [],
          )
          ∷ [];
      fargs_out = (codes "sum", written_args (scalar (codes "int") (codes "r")) ∷ []) ∷ [];
      name = codes "Net";
      content = net_content;
    })
unfolding if_name_illegal contains starts_with
new_cpt-project_settings_example =
    new_cpt-project_settings (codes "Net") (one_source ∷ []) refl
      ((refl, refl, (sum_func-IsFunc, tt)), tt) (omega arith)

abbrev letters : Bytes
letters = replicate 512 b'a'

read_file_lem_example :
    read_file 600 letters (length letters) ≡ (if length letters == 512 then fault else ok letters)
read_file_lem_example = read_file_lem 600 letters (omega arith)
