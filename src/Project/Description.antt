-- ===== src/Project/Description.antt =====
-- The description of a project, written and read back.
use net_cpp.Base.{
  suc, ◌-◌, ◌<◌, ◌^◌, ◌≡◌, ◌≢◌, refl, ap, ◌∙◌, true, false, List, [], ◌∷◌, ◌++◌, Bytes, codes,
  string_eq, All, length, leb, take-past, append-nil, append_assoc, arith,
}
use net_cpp.Outcome.{ok}
use net_cpp.Settings.{contains, starts_with, read_stn, substr, Settings, nil}
use net_cpp.Settings.Text.{settings_text}
use net_cpp.Settings.RoundTrip.{read_blocks-settings_text}
use net_cpp.Project.{
  Proj, new_project, project_keys, project_stn, deal_files, deal_src_dir, deal_lib_dir, deal_block,
  deal_all_blocks, deal_first, deal_content, proj_of_content, is_empty,
}
use net_cpp.Project.Wording.{
  FileGroup, ProjectText, name_stns, path_stns, block, group_blocks, src_blocks, project_settings,
  group_paths, all_paths, joined, IsName, IsGroup, IsText, project-AreSettings,
}

project_stn-path :
    (v : Bytes) → project_stn (codes "path" ++ v) ≡ ok (record { key = codes "path"; value = v })
unfolding project_stn read_stn substr contains starts_with
project_stn-path v =
    let n : suc (suc (suc (suc (length v)))) - 4 ≡ length v = omega arith in
    let small : leb 4 (suc (suc (suc (suc (length v))))) ≡ true = ground arith in
    rw (project_stn, small, n, take-past (length v) v (omega arith)) refl

project_stn-name :
    (v : Bytes)
    → contains (codes "path") (codes "name" ++ v) ≡ false
    → project_stn (codes "name" ++ v) ≡ ok (record { key = codes "name"; value = v })
unfolding project_stn read_stn substr contains starts_with
project_stn-name v h =
    let n : suc (suc (suc (suc (length v)))) - 4 ≡ length v = omega arith in
    let small : leb 4 (suc (suc (suc (suc (length v))))) ≡ true = ground arith in
    rw (project_stn, h, small, n, take-past (length v) v (omega arith)) refl

deal_files-names :
    (suffix tpath : Bytes) (names : List Bytes)
    → All IsName names
    → deal_files suffix tpath (name_stns names) ≡ ok (group_paths suffix tpath names)
unfolding deal_files string_eq
deal_files-names suffix tpath [] h = refl
deal_files-names suffix tpath (n ∷ ns) h =
    rw (project_stn-name n h.0.1, deal_files-names suffix tpath ns h.1) refl

deal_all_blocks-cpts :
    (gs : List FileGroup) (more : Settings) (p : Proj)
    → All IsGroup gs
    → deal_all_blocks (group_blocks (codes "cpt") gs more) p
      ≡ deal_all_blocks more (record p { cpt_paths = p.cpt_paths ++ all_paths (codes ".cpt") gs })
unfolding deal_all_blocks deal_block deal_files string_eq
deal_all_blocks-cpts [] more p h = rw (append-nil p.cpt_paths) refl
deal_all_blocks-cpts (g ∷ gs) more p h =
    let paths = group_paths (codes ".cpt") g.path g.names in
    rw (project_stn-path g.path, deal_files-names (codes ".cpt") g.path g.names h.0.1)
      (deal_all_blocks-cpts gs more (record p { cpt_paths = p.cpt_paths ++ paths }) h.1
        ∙ ap (λ l. deal_all_blocks more (record p { cpt_paths = l }))
            (append_assoc p.cpt_paths paths (all_paths (codes ".cpt") gs)))

deal_all_blocks-maps :
    (gs : List FileGroup) (more : Settings) (p : Proj)
    → All IsGroup gs
    → deal_all_blocks (group_blocks (codes "map") gs more) p
      ≡ deal_all_blocks more (record p { map_paths = p.map_paths ++ all_paths (codes ".map") gs })
unfolding deal_all_blocks deal_block deal_files string_eq
deal_all_blocks-maps [] more p h = rw (append-nil p.map_paths) refl
deal_all_blocks-maps (g ∷ gs) more p h =
    let paths = group_paths (codes ".map") g.path g.names in
    rw (project_stn-path g.path, deal_files-names (codes ".map") g.path g.names h.0.1)
      (deal_all_blocks-maps gs more (record p { map_paths = p.map_paths ++ paths }) h.1
        ∙ ap (λ l. deal_all_blocks more (record p { map_paths = l }))
            (append_assoc p.map_paths paths (all_paths (codes ".map") gs)))

deal_src_dir-paths : (ps : List Bytes) → deal_src_dir (path_stns ps) ≡ ok ps
unfolding deal_src_dir string_eq
deal_src_dir-paths [] = refl
deal_src_dir-paths (p ∷ ps) = rw (project_stn-path p, deal_src_dir-paths ps) refl

deal_all_blocks-srcs :
    (pss : List (List Bytes)) (more : Settings) (p : Proj)
    → deal_all_blocks (src_blocks pss more) p
      ≡ deal_all_blocks more (record p { src_paths = p.src_paths ++ joined pss })
unfolding deal_all_blocks deal_block string_eq
deal_all_blocks-srcs [] more p = rw (append-nil p.src_paths) refl
deal_all_blocks-srcs (ps ∷ pss) more p = rw (deal_src_dir-paths ps) (
    deal_all_blocks-srcs pss more (record p { src_paths = p.src_paths ++ ps })
    ∙ ap (λ l. deal_all_blocks more (record p { src_paths = l }))
        (append_assoc p.src_paths ps (joined pss)))

is_empty_ne : (n : Bytes) → n ≢ [] → is_empty n ≡ false
is_empty_ne [] h = absurd (h refl)
is_empty_ne (c ∷ cs) h = refl

deal_all_blocks-lib :
    (lib_dir : Bytes) (p : Proj)
    → p.lib_path ≡ []
    → deal_all_blocks (block (codes "lib_dir") (path_stns (lib_dir ∷ [])) nil) p
      ≡ ok (record p { lib_path = lib_dir })
unfolding deal_all_blocks deal_block deal_lib_dir string_eq
deal_all_blocks-lib lib_dir p e = rw (e, project_stn-path lib_dir) refl

-- `Proj` reads the description of a project back from its text: its name, the paths of its cpt and
-- map files in order, each a directory with the names in it, its source directories and the directory
-- of its libraries. The name is legal and not empty, the words have no braces and no semicolons,
-- and no name of a file hides the keyword "path"; the text has less than 2^64 chars.
pub proj_of_content-project_settings :
    (t : ProjectText)
    → IsText t
    → length (settings_text (project_settings t)) < 2 ^ 64
    → let content = settings_text (project_settings t) in
      proj_of_content content
      ≡ ok (record new_project {
        name = t.name;
        content = content;
        cpt_paths = all_paths (codes ".cpt") t.cpts;
        map_paths = all_paths (codes ".map") t.maps;
        src_paths = joined t.src_dirs;
        lib_path = t.lib_dir;
      })
unfolding proj_of_content deal_content deal_first string_eq
proj_of_content-project_settings t h small =
    let blocks = project_settings t in
    let content = settings_text blocks in
    let read =
      read_blocks-settings_text (suc (length content)) project_keys blocks (project-AreSettings t h)
        (omega arith) small in
    let p : Proj = record new_project { name = t.name; content = content } in
    let cpts = all_paths (codes ".cpt") t.cpts in
    let maps = all_paths (codes ".map") t.maps in
    rw (read, is_empty_ne t.name h.some_name)
      (deal_all_blocks-cpts t.cpts _ p h.cpts_ok
        ∙ deal_all_blocks-maps t.maps _ (record p { cpt_paths = cpts }) h.maps_ok
        ∙ deal_all_blocks-srcs t.src_dirs _ (record p { cpt_paths = cpts; map_paths = maps })
        ∙ deal_all_blocks-lib t.lib_dir
            (record p { cpt_paths = cpts; map_paths = maps; src_paths = joined t.src_dirs }) refl)
