-- ===== src/Trex/Listing.antt =====
-- rx/trex/toolchain/local_fs.py: the files that rsync would copy, from what it prints, and how they
-- are shown. What rsync prints, or that it fails, is a parameter.
pub mod Lines
use Prim.Native.Char.{code}
use Prim.Native.String.{String as Str}
use rx.Base.{
  ℕ, zero, suc, ◌-◌, ◌+◌, String, ◌<>◌, Outcome, ok, raised, List, [], ◌∷◌, ◌==◌, string_eq,
  if◌then◌else◌, Bool, true, false, ◌&&◌, nat_eq,
}
use rx.Base.Text.{split, count}
use rx.Base.Paths.{path_of}

-- The body of the loop over the lines: the second word, unless it is "./" or there is none.
filename_of : List String → List String → List String
filename_of [] rest = rest
filename_of (w ∷ []) rest = rest
filename_of (w ∷ name ∷ ws) rest = if name == "./" then rest else name ∷ rest

unfoldable pub filenames : List String → List String
unfolding filename_of
filenames [] = []
filenames (line ∷ lines) = filename_of (split b' ' line) (filenames lines)

-- `get_manifest`: what a successful rsync printed, or its error text.
unfoldable pub get_manifest : Outcome String String → Outcome String (List String)
unfolding filenames
get_manifest (raised message) = raised message
get_manifest (ok stdout) = ok (filenames (split b'\n' stdout))

-- `'  ' * n`
indent : ℕ → String
indent zero = ""
indent (suc n) = "  " <> indent n

-- `filename.endswith('/')`
is_dir : String → Bool
is_dir Str.[] = false
is_dir (Str.◌∷◌ c s) = let rest = is_dir s in if code c == b'/' && s == "" then true else rest

last_part : List String → String
last_part [] = ""
last_part (w ∷ []) = w
last_part (w ∷ v ∷ ws) = last_part (v ∷ ws)

-- The line of `dry_run` for a file: its name, further in the deeper it lies, and a slash behind the
-- name of a directory.
unfoldable pub pretty_name : String → String
unfolding indent last_part is_dir
pretty_name filename =
    let name = last_part (path_of filename).parts in
    if is_dir filename
    then indent (count b'/' filename) <> (name <> "/")
    else indent (suc (count b'/' filename)) <> name

pretty_names : List String → List String
unfolding pretty_name
pretty_names [] = []
pretty_names (filename ∷ manifest) = pretty_name filename ∷ pretty_names manifest

-- `dry_run`: the lines that it prints.
unfoldable pub dry_run : Outcome String String → Outcome String (List String)
unfolding get_manifest pretty_names
dry_run rsync = elim (get_manifest rsync) [
  | ok manifest ↦ ok ("Uploading:" ∷ pretty_names manifest)
  | raised message ↦ raised message
]
