-- ===== src/Trex/Listing/Lines.antt =====
-- local_fs.py: which names are read from the lines of rsync.
use rx.Base.{
  ◌≡◌, refl, ap, ◌∙◌, String, ◌<>◌, ok, List, [], ◌∷◌, arith, ◌==◌, string_eq, nat_eq,
  if◌then◌else◌,
}
use rx.Base.Text.{split, count, split-append_text, split_whole, count-append}
use rx.Trex.Listing.{filename_of, filenames, get_manifest}

-- The line that `rsync --itemize-changes` prints for a file.
abbrev pub item : String → String → String
item change name = change <> (" " <> name)

-- The lines for some files, each with its newline.
abbrev pub printed : String → List String → String
printed change [] = ""
printed change (name ∷ names) = item change name <> ("\n" <> printed change names)

abbrev items : String → List String → List String
items change [] = "" ∷ []
items change (name ∷ names) = item change name ∷ items change names

-- A word without blanks and newlines.
abbrev pub IsWord : String → Type 0
IsWord s = (count b' ' s ≡ 0) × (count b'\n' s ≡ 0)

abbrev pub AllWords : List String → Type 0
AllWords [] = Unit
AllWords (s ∷ ss) = IsWord s × AllWords ss

-- The names without the root of the listing.
abbrev pub below_root : List String → List String
below_root [] = []
below_root (s ∷ ss) = let rest = below_root ss in if s == "./" then rest else s ∷ rest

split-item :
    (change name : String)
    → IsWord change
    → IsWord name
    → split b' ' (item change name) ≡ change ∷ name ∷ []
split-item change name (h, _) (k, _) =
    split-append_text b' ' change name _ refl h ∙ ap (λ ws. change ∷ ws) (split_whole b' ' name k)

blank_is_no_newline : count b'\n' " " ≡ 0
unfolding count nat_eq
blank_is_no_newline = refl

without_newline :
    (change name : String) → IsWord change → IsWord name → count b'\n' (item change name) ≡ 0
without_newline change name (_, h) (_, k) = omega (
  arith,
  h,
  k,
  blank_is_no_newline,
  count-append b'\n' change (" " <> name),
  count-append b'\n' " " name,
)

split-printed :
    (change : String) (names : List String)
    → IsWord change
    → AllWords names
    → split b'\n' (printed change names) ≡ items change names
unfolding split
split-printed change [] h a = refl
split-printed change (name ∷ names) h (k, a) =
    split-append_text b'\n' (item change name) (printed change names) _ refl
      (without_newline change name h k)
    ∙ ap (λ ls. item change name ∷ ls) (split-printed change names h a)

filenames-items :
    (change : String) (names : List String)
    → IsWord change
    → AllWords names
    → filenames (items change names) ≡ below_root names
unfolding filenames split
filenames-items change [] h a = refl
filenames-items change (name ∷ names) h (k, a) =
    rw (split-item change name h k, filenames-items change names h a, filename_of) refl

-- From the lines that rsync prints for files whose names have neither blanks nor newlines, exactly
-- those names are read, in order, without the root.
pub get_manifest-printed :
    (change : String) (names : List String)
    → IsWord change
    → AllWords names
    → get_manifest (ok (printed change names)) ≡ ok (below_root names)
unfolding get_manifest
get_manifest-printed change names h a =
    rw (split-printed change names h a) (ap ok (filenames-items change names h a))
