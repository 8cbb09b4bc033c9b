-- ===== src/Base/Paths.antt =====
-- `pathlib.Path` on POSIX: whether the path is absolute, and its parts.
use Prim.Native.String.{String, ◌++◌ as ◌<>◌}
use mathlib.Core.Path.{◌≡◌, refl}
use mathlib.Core.Bool.{Bool, ◌||◌}
use mathlib.Core.Option.{Option, none, some}
use mathlib.Core.List.{List, [], ◌∷◌, ◌++◌}
use native.Mathlib.Omega.{arith}
use rx.Base.Tests.{if◌then◌else◌}
use rx.Base.Equality.{string_eq, ◌==◌}
use rx.Base.Text.{split, join, starts_with}

pub record FilePath : Type 0 where
  pub absolute : Bool
  pub parts : List String

-- Empty parts and "." are dropped.
parts_of : List String → List String
parts_of [] = []
parts_of (w ∷ ws) = let rest = parts_of ws in if w == "" || w == "." then rest else w ∷ rest

-- `pathlib.Path(text)`
unfoldable pub path_of : String → FilePath
unfolding parts_of split
path_of text = record { absolute = starts_with text "/"; parts = parts_of (split b'/' text) }

relative_text : List String → String
relative_text [] = "."
relative_text (w ∷ ws) = join "/" (w ∷ ws)

-- `str(path)`
unfoldable pub path_text : FilePath → String
unfolding relative_text join
path_text p = if p.absolute then "/" <> join "/" p.parts else relative_text p.parts

-- `p / q`
infixl 68 ◌/◌
unfoldable pub ◌/◌ : FilePath → FilePath → FilePath
p / q = if q.absolute then q else record p { parts = p.parts ++ q.parts }

-- The parts below `p`, if `p` begins the list.
unfoldable pub strip_prefix : List String → List String → Option (List String)
strip_prefix [] ws = some ws
strip_prefix (v ∷ vs) [] = none
strip_prefix (v ∷ vs) (w ∷ ws) = let rest = strip_prefix vs ws in if v == w then rest else none

pub strip_prefix-append : (vs ws : List String) → strip_prefix vs (vs ++ ws) ≡ some ws
unfolding strip_prefix
strip_prefix-append [] ws = refl
strip_prefix-append (v ∷ vs) ws = ground (arith, strip_prefix-append vs ws)

pub strip_prefix_sound :
    (vs ws rest : List String) → strip_prefix vs ws ≡ some rest → ws ≡ vs ++ rest
unfolding strip_prefix
strip_prefix_sound [] ws rest h = ground arith
strip_prefix_sound (v ∷ vs) [] rest h = ground arith
strip_prefix_sound (v ∷ vs) (w ∷ ws) rest h = ground (arith, strip_prefix_sound vs ws rest)
