-- ===== src/Client/Config/Roots.antt =====
-- Finding the root of a workspace (rx/client/configuration/config_base.py and local.py). A path is
-- listed from its last part to its first, so its parent is its tail.
pub mod Nearest
use rx.Base.{String, Bool, true, false, Option, none, some, List, [], ◌∷◌, if◌then◌else◌}

abbrev pub UpPath : Type 0
UpPath = List String

-- `path.parents`
unfoldable pub parents : UpPath → List UpPath
parents [] = []
parents (part ∷ path) = path ∷ parents path

-- `get_config_dir`, for the host of `--trex-host`.
unfoldable pub config_dir : String → UpPath → UpPath
config_dir host rxroot = "config" ∷ host ∷ ".rx" ∷ rxroot

-- The loop of `find_rxroot` and `find_local_config`.
unfoldable pub first_root : (UpPath → Bool) → String → List UpPath → Option UpPath
first_root exists host [] = none
first_root exists host (p ∷ ps) =
    let rest = first_root exists host ps in if exists (config_dir host p) then some p else rest

-- `find_rxroot`
unfoldable pub find_rxroot : (UpPath → Bool) → String → UpPath → Option UpPath
unfolding first_root
find_rxroot exists host working_dir = first_root exists host (parents (config_dir host working_dir))

unfoldable pub name_of : UpPath → String
name_of [] = ""
name_of (part ∷ path) = part

-- The loop of `_find_project_name` over the parents.
git_above : (UpPath → Bool) → UpPath → List UpPath → String
git_above exists start [] = name_of start
git_above exists start (p ∷ ps) =
    let rest = git_above exists start ps in if exists (".git" ∷ p) then name_of start else rest

-- `_find_project_name`
unfoldable pub find_project_name : (UpPath → Bool) → UpPath → String
unfolding git_above name_of parents
find_project_name exists start =
    if exists (".git" ∷ start) then name_of start else git_above exists start (parents start)
