-- ===== src/Checks/Trex.antt =====
-- The tools of a project at concrete inputs, some of them those of the tests.
use rx.Base.{
  ◌≡◌, refl, String, none, some, List, [], ◌∷◌, contains, Distinct, nat_eq, string_eq,
  if◌then◌else◌, ltb,
}
use rx.Base.Dict.{lookup, insert}
use rx.Base.Text.{count, split, join}
use rx.Base.Paths.{path_of}
use rx.Base.{ok, raised}
use rx.Trex.Listing.{dry_run}
use rx.Commands.Init.Options.{commit}
use rx.Trex.Manifest.{
  extension, create, count_files, process, insert_by_count, sort_by_count, most_popular_extensions,
}
use rx.Trex.Manifest.Sorting.{Descending}
use rx.Trex.Manifest.Popularity.{occurrences, most_popular_extensions_order}
use rx.Trex.Detector.{get_languages}
use rx.Trex.Detector.Languages.{packaged, any_file, lookup-get_languages}
use rx.Trex.Toolchain.{file_name}

abbrev files : List String
files = "baz.rs" ∷ "foo.go" ∷ "src/bar.go" ∷ ".bashrc" ∷ []

popular_test : (most_popular_extensions (create files)).1 ≡ ".go" ∷ ".rs" ∷ "" ∷ []
unfolding most_popular_extensions create process count_files extension sort_by_count insert_by_count
    split lookup insert nat_eq string_eq
popular_test = refl

most_popular_extensions_order_example :
    Descending (occurrences files) (most_popular_extensions (create files)).1
    × Distinct (most_popular_extensions (create files)).1
    × (contains (most_popular_extensions (create files)).1 ".go" ≡ ltb 0 (occurrences files ".go"))
    × ((most_popular_extensions (most_popular_extensions (create files)).0).1
        ≡ (most_popular_extensions (create files)).1)
most_popular_extensions_order_example = most_popular_extensions_order files ".go"

abbrev web_project : List String
web_project = "package.json" ∷ "foo.js" ∷ "bar.tsx" ∷ []

lookup-get_languages_example : lookup "node" (get_languages (create web_project)) ≡ (
    if packaged web_project "node"
    then some "package manager"
    else if any_file web_project "node"
    then some "file extension"
    else none)
lookup-get_languages_example = lookup-get_languages web_project "node"

saved_name : file_name "library/node" "20221101" ≡ "library-node-20221101.yaml"
unfolding file_name split join nat_eq
saved_name = refl

listing_is_shown :
    dry_run (ok "cd+++++++++ ./\ncd+++++++++ src/\n>f+++++++++ src/main.py\n")
    ≡ ok ("Uploading:" ∷ "  src/" ∷ "    main.py" ∷ [])
unfolding dry_run split count path_of string_eq nat_eq
listing_is_shown = refl

head_is_commit :
    (commit "HEAD" ≡ ok "HEAD") × (commit "1234" ≡ raised "commit must be a 40-character hash")
unfolding commit string_eq nat_eq
head_is_commit = (refl, refl)
