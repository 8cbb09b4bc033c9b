-- ===== src/Trex/Manifest.antt =====
-- rx/trex/toolchain/manifest.py: the files of a project, and how often each extension occurs. The
-- counts are a dict, which stays empty until it is needed.
pub mod Popularity
pub mod Sorting
use rx.Base.{
  ℕ, zero, suc, String, ◌<>◌, Bool, true, false, not, Option, none, some, List, [], ◌∷◌, ◌||◌, ◌==◌,
  contains, string_eq, if◌then◌else◌, leb,
}
use rx.Base.Dict.{Dict, keys, lookup, insert}
use rx.Base.Text.{split}

-- The part behind the last slash.
base_name : List String → String
base_name [] = ""
base_name (w ∷ []) = w
base_name (w ∷ v ∷ ws) = base_name (v ∷ ws)

-- The extension of a name, from its parts between the dots: leading dots begin none.
extension_from : Bool → List String → String
extension_from seen [] = ""
extension_from seen (w ∷ []) = if seen then "." <> w else ""
extension_from seen (w ∷ v ∷ ws) = extension_from (seen || not (w == "")) (v ∷ ws)

-- The second component of `os.path.splitext(path)`.
unfoldable pub extension : String → String
unfolding base_name extension_from split
extension path = extension_from false (split b'.' (base_name (split b'/' path)))

pub record Manifest : Type 0 where
  pub manifest : List String
  pub counts : Dict String ℕ
  pub processed : Bool

-- `__init__`
unfoldable pub create : List String → Manifest
create files = record { manifest = files; counts = []; processed = false }

-- The value of a `defaultdict` whose default is 0.
abbrev pub count_of : Option ℕ → ℕ
count_of none = 0
count_of (some n) = n

-- The loop of `_process`.
unfoldable pub count_files : List String → Dict String ℕ → Dict String ℕ
count_files [] counts = counts
count_files (f ∷ files) counts =
    count_files files (insert (extension f) (suc (count_of (lookup (extension f) counts))) counts)

-- `_process`, where it has not been done.
unfoldable pub process : Manifest → Manifest
process m =
    if m.processed
    then m
    else record m { counts = count_files m.manifest m.counts; processed = true }

-- `sorted` by the count, the largest first. It is stable: equal counts keep their order.
unfoldable pub insert_by_count : String × ℕ → Dict String ℕ → Dict String ℕ
insert_by_count p [] = p ∷ []
insert_by_count p (q ∷ d) = if leb q.1 p.1 then p ∷ q ∷ d else q ∷ insert_by_count p d

unfoldable pub sort_by_count : Dict String ℕ → Dict String ℕ
sort_by_count [] = []
sort_by_count (p ∷ d) = insert_by_count p (sort_by_count d)

-- `most_popular_extensions`, and the manifest after it.
unfoldable pub most_popular_extensions : Manifest → Manifest × List String
most_popular_extensions m = (process m, keys (sort_by_count (process m).counts))

-- `__contains__`, and the manifest after it.
unfoldable pub has_file : Manifest → String → Manifest × Bool
has_file m path = (process m, contains m.manifest path)
