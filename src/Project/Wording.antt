-- ===== src/Project/Wording.antt =====
-- The description of a project as settings.
use net_cpp.Base.{◌≡◌, ◌≢◌, refl, true, false, some, List, [], ◌∷◌, ◌++◌, Bytes, codes, All, arith}
use net_cpp.Settings.{contains, starts_with, if_name_illegal, setting, Settings, nil, cons}
use net_cpp.Settings.Text.{first_key, IsInner, AreSettings}
use net_cpp.Project.{project_keys}

-- A directory with the names of files in it, without their suffix.
pub record FileGroup : Type 0 where
  pub path : Bytes
  pub names : List Bytes

-- What a description says.
pub record ProjectText : Type 0 where
  pub name : Bytes
  pub cpts : List FileGroup
  pub maps : List FileGroup
  pub src_dirs : List (List Bytes)
  pub lib_dir : Bytes

-- Its settings.
abbrev pub stn : Bytes → Settings → Settings
stn sentence more = cons (setting [] [] sentence false nil) more

abbrev pub name_stns : List Bytes → Settings
name_stns [] = nil
name_stns (n ∷ ns) = stn (codes "name" ++ n) (name_stns ns)

abbrev pub path_stns : List Bytes → Settings
path_stns [] = nil
path_stns (p ∷ ps) = stn (codes "path" ++ p) (path_stns ps)

abbrev pub block : Bytes → Settings → Settings → Settings
block key childs more = cons (setting key [] [] true childs) more

abbrev pub group_blocks : Bytes → List FileGroup → Settings → Settings
group_blocks key [] more = more
group_blocks key (g ∷ gs) more =
    block key (stn (codes "path" ++ g.path) (name_stns g.names)) (group_blocks key gs more)

abbrev pub src_blocks : List (List Bytes) → Settings → Settings
src_blocks [] more = more
src_blocks (ps ∷ pss) more = block (codes "src_dir") (path_stns ps) (src_blocks pss more)

abbrev pub project_blocks : ProjectText → Settings
project_blocks t = group_blocks (codes "cpt") t.cpts (
    group_blocks (codes "map") t.maps
      (src_blocks t.src_dirs (block (codes "lib_dir") (path_stns (t.lib_dir ∷ [])) nil)))

abbrev pub project_settings : ProjectText → Settings
project_settings t = cons (setting (codes "proj") t.name [] true (project_blocks t)) nil

-- The paths of the files.
abbrev pub group_paths : Bytes → Bytes → List Bytes → List Bytes
group_paths suffix path [] = []
group_paths suffix path (n ∷ ns) =
    (path ++ (codes "/" ++ (n ++ suffix))) ∷ group_paths suffix path ns

abbrev pub all_paths : Bytes → List FileGroup → List Bytes
all_paths suffix [] = []
all_paths suffix (g ∷ gs) = group_paths suffix g.path g.names ++ all_paths suffix gs

abbrev pub joined : List (List Bytes) → List Bytes
joined [] = []
joined (ps ∷ pss) = ps ++ joined pss

-- Words without `;` and braces; a name makes no "path" with the keyword in front of it.
abbrev pub IsName : Bytes → Type 0
IsName n = IsInner n × (contains (codes "path") (codes "name" ++ n) ≡ false)

abbrev pub IsGroup : FileGroup → Type 0
IsGroup g = IsInner g.path × All IsName g.names

pub record IsText (t : ProjectText) : Type 0 where
  pub legal : if_name_illegal t.name ≡ true
  pub some_name : t.name ≢ []
  pub cpts_ok : All IsGroup t.cpts
  pub maps_ok : All IsGroup t.maps
  pub srcs_ok : All (λ ps. All IsInner ps) t.src_dirs
  pub lib_ok : IsInner t.lib_dir

name-IsInner : (n : Bytes) → IsInner n → IsInner (codes "name" ++ n)
name-IsInner n h = (omega arith, (omega arith, (omega arith, (omega arith, h))))

path-IsInner : (p : Bytes) → IsInner p → IsInner (codes "path" ++ p)
path-IsInner p h = (omega arith, (omega arith, (omega arith, (omega arith, h))))

names-AreSettings :
    (names : List Bytes) → All IsName names → AreSettings project_keys (name_stns names)
names-AreSettings [] h = tt
names-AreSettings (n ∷ ns) h = ((refl, refl, refl, name-IsInner n h.0.0), names-AreSettings ns h.1)

paths-AreSettings :
    (paths : List Bytes) → All IsInner paths → AreSettings project_keys (path_stns paths)
paths-AreSettings [] h = tt
paths-AreSettings (p ∷ ps) h = ((refl, refl, refl, path-IsInner p h.0), paths-AreSettings ps h.1)

-- A keyword of a block, with no name behind it.
abbrev IsKeyword : Bytes → Type 0
IsKeyword key = (first_key project_keys (key ++ []) ≡ some key) × (key ≢ []) × IsInner key

groups-AreSettings :
    (key : Bytes) (gs : List FileGroup) (more : Settings)
    → IsKeyword key
    → All IsGroup gs
    → AreSettings project_keys more
    → AreSettings project_keys (group_blocks key gs more)
unfolding if_name_illegal
groups-AreSettings key [] more k h m = m
groups-AreSettings key (g ∷ gs) more k h m = (
  (
    refl,
    k.0,
    k.1,
    k.2,
    refl,
    ((refl, refl, refl, path-IsInner g.path h.0.0), names-AreSettings g.names h.0.1),
  ),
  groups-AreSettings key gs more k h.1 m,
)

srcs-AreSettings :
    (pss : List (List Bytes)) (more : Settings)
    → All (λ ps. All IsInner ps) pss
    → AreSettings project_keys more
    → AreSettings project_keys (src_blocks pss more)
unfolding if_name_illegal contains starts_with
srcs-AreSettings [] more h m = m
srcs-AreSettings (ps ∷ pss) more h m = (
  (refl, refl, (λ (e : codes "src_dir" ≡ []). cc), omega arith, refl, paths-AreSettings ps h.0),
  srcs-AreSettings pss more h.1 m,
)

pub project-AreSettings :
    (t : ProjectText) → IsText t → AreSettings project_keys (project_settings t)
unfolding if_name_illegal contains starts_with
project-AreSettings t h =
    let lib : AreSettings project_keys (block (codes "lib_dir") (path_stns (t.lib_dir ∷ [])) nil) =
      (
        (
          refl,
          refl,
          (λ (e : codes "lib_dir" ≡ []). cc),
          omega arith,
          refl,
          paths-AreSettings (t.lib_dir ∷ []) (h.lib_ok, tt),
        ),
        tt,
      ) in
    let cpt : IsKeyword (codes "cpt") = (refl, (λ (e : codes "cpt" ≡ []). cc), omega arith) in
    let map_key : IsKeyword (codes "map") = (refl, (λ (e : codes "map" ≡ []). cc), omega arith) in
    (
      (
        refl,
        refl,
        (λ (e : codes "proj" ≡ []). cc),
        omega arith,
        h.legal,
        groups-AreSettings (codes "cpt") t.cpts _ cpt h.cpts_ok (
            groups-AreSettings (codes "map") t.maps _ map_key h.maps_ok
              (srcs-AreSettings t.src_dirs _ h.srcs_ok lib)),
      ),
      tt,
    )
