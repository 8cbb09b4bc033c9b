-- ===== src/Trex/Manifest/Popularity.antt =====
-- manifest.py: the extensions that are given, and their order.
use rx.Base.{
  ℕ, zero, suc, ◌+◌, ◌≡◌, refl, ap, ◌∙◌, String, Option, none, some, List, [], ◌∷◌, arith, ◌==◌,
  contains, Distinct, string_eq, if◌then◌else◌, ltb,
}
use rx.Base.Dict.{Dict, lookup, lookup-nil, insert, lookup-insert, NodupKeys, insert-NodupKeys}
use rx.Trex.Manifest.{extension, create, count_of, count_files, process, most_popular_extensions}
use rx.Trex.Manifest.Sorting.{
  Descending, Values, sort_by_count-Descending, lookup-Values, contains-keys,
  contains-sort_by_count, sort_by_count-Distinct,
}

-- How many of these files have the extension.
abbrev pub occurrences : List String → String → ℕ
occurrences [] e = 0
occurrences (f ∷ files) e =
    let rest = occurrences files e in if e == extension f then suc rest else rest

count_files-NodupKeys :
    (files : List String) (counts : Dict String ℕ)
    → NodupKeys counts
    → NodupKeys (count_files files counts)
unfolding count_files
count_files-NodupKeys [] counts u = u
count_files-NodupKeys (f ∷ files) counts u =
    count_files-NodupKeys files _ (insert-NodupKeys (extension f) _ counts u)

-- The count after the loop, from the one before it.
abbrev counted : Option ℕ → ℕ → Option ℕ
counted none zero = none
counted none (suc n) = some (suc n)
counted (some m) n = some (m + n)

counted_step : (o : Option ℕ) (n : ℕ) → counted (some (suc (count_of o))) n ≡ counted o (suc n)
counted_step none n = ap some (omega arith)
counted_step (some m) n = ap some (omega arith)

lookup-count_files :
    (files : List String) (counts : Dict String ℕ) (e : String)
    → lookup e (count_files files counts) ≡ counted (lookup e counts) (occurrences files e)
unfolding count_files
lookup-count_files [] counts e = ground arith
lookup-count_files (f ∷ files) counts e = ground (
  arith,
  lookup-count_files files
      (insert (extension f) (suc (count_of (lookup (extension f) counts))) counts) e,
  lookup-insert e (extension f) (suc (count_of (lookup (extension f) counts))) counts,
  counted_step (lookup e counts) (occurrences files e),
)

counts-Values : (files : List String) → Values (occurrences files) (count_files files [])
counts-Values files =
    lookup-Values (occurrences files) _ (count_files-NodupKeys files [] tt)
      (λ k n e. ground (arith, lookup-count_files files [] k, lookup-nil {V = ℕ} k))

-- The extensions given are those of some file, each once, one on more files before one on fewer;
-- asking again gives the same, since the files are counted once.
pub most_popular_extensions_order :
    (files : List String) (e : String)
    → Descending (occurrences files) (most_popular_extensions (create files)).1
      × Distinct (most_popular_extensions (create files)).1
      × (contains (most_popular_extensions (create files)).1 e ≡ ltb 0 (occurrences files e))
      × ((most_popular_extensions (most_popular_extensions (create files)).0).1
          ≡ (most_popular_extensions (create files)).1)
unfolding most_popular_extensions process create
most_popular_extensions_order files e = (
  (sort_by_count-Descending (occurrences files) _ (counts-Values files)).1,
  sort_by_count-Distinct _ (count_files-NodupKeys files [] tt),
  contains-sort_by_count (count_files files []) e
      ∙ contains-keys (count_files files []) e
      ∙ ground (arith, lookup-count_files files [] e, lookup-nil {V = ℕ} e),
  refl,
)
