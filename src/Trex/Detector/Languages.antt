-- ===== src/Trex/Detector/Languages.antt =====
-- lang_detector.py with manifest.py: which tools are detected, and why.
use rx.Base.{
  ◌<◌, ◌≡◌, sym, ◌∙◌, String, Bool, true, false, Bool-cases, Option, none, some, List, [], ◌∷◌,
  arith, ◌||◌, ◌&&◌, ◌==◌, contains, string_eq, if◌then◌else◌, inl, inr,
}
use rx.Base.Dict.{Dict, lookup, lookup-nil, lookup-insert}
use rx.Trex.Manifest.{extension, create, process, most_popular_extensions}
use rx.Trex.Manifest.Popularity.{occurrences, most_popular_extensions_order}
use rx.Trex.Detector.{
  known_extension, add_tool, add_if, by_package, add_known, by_extension, get_languages,
}

abbrev is_name : Option String → String → Bool
is_name none name = false
is_name (some known) name = name == known

-- The extension is one of the tool.
abbrev pub stands_for : String → String → Bool
stands_for ext name = is_name (lookup ext known_extension) name

abbrev any_extension : List String → String → Bool
any_extension [] name = false
any_extension (ext ∷ exts) name = stands_for ext name || any_extension exts name

-- Some file has an extension of the tool.
abbrev pub any_file : List String → String → Bool
any_file [] name = false
any_file (f ∷ files) name = stands_for (extension f) name || any_file files name

-- There is a file that a package manager of the tool uses.
abbrev pub packaged : List String → String → Bool
packaged files name =
    name == "rust" && contains files "Cargo.toml"
    || (name == "node" && contains files "package.json"
        || (name == "maven" && contains files "pom.xml"
            || (name == "pip" && contains files "requirements.txt"
                || name == "conda"
                  && (contains files "environment.yaml" || contains files "environment.yml"))))

abbrev or_else : Option String → Option String → Option String
or_else none b = b
or_else (some a) b = some a

lookup-add_if :
    (found : Bool) (name other : String) (d : Dict String String)
    → lookup other (add_if found name d)
      ≡ or_else (lookup other d) (if other == name && found then some "package manager" else none)
unfolding add_if add_tool
lookup-add_if found name other d = ground (arith, lookup-insert other name "package manager" d)

lookup-by_package :
    (files : List String) (name : String)
    → lookup name (by_package files)
      ≡ (if packaged files name then some "package manager" else none)
unfolding by_package
lookup-by_package files name =
    rw (lookup-add_if, lookup-add_if, lookup-add_if, lookup-add_if, lookup-add_if, lookup-nil)
      (ground arith)

lookup-add_known :
    (known : Option String) (name : String) (d : Dict String String)
    → lookup name (add_known known d)
      ≡ or_else (lookup name d) (if is_name known name then some "file extension" else none)
unfolding add_known add_tool
lookup-add_known none name d = ground arith
lookup-add_known (some known) name d = ground (arith, lookup-insert name known "file extension" d)

lookup-by_extension :
    (exts : List String) (d : Dict String String) (name : String)
    → lookup name (by_extension exts d)
      ≡ or_else (lookup name d) (if any_extension exts name then some "file extension" else none)
unfolding by_extension
lookup-by_extension [] d name = ground arith
lookup-by_extension (ext ∷ exts) d name = ground (
  arith,
  lookup-by_extension exts (add_known (lookup ext known_extension) d) name,
  lookup-add_known (lookup ext known_extension) name d,
)

any_extension_intro :
    (exts : List String) (ext name : String)
    → contains exts ext ≡ true
    → stands_for ext name ≡ true
    → any_extension exts name ≡ true
any_extension_intro [] ext name h k = cc
any_extension_intro (e ∷ exts) ext name h k = ground (arith, any_extension_intro exts ext name)

any_extension_elim :
    (exts : List String) (name : String)
    → any_extension exts name ≡ true
    → (ext : String) × (contains exts ext ≡ true) × (stands_for ext name ≡ true)
any_extension_elim [] name h = cc
any_extension_elim (e ∷ exts) name h = elim (Bool-cases (stands_for e name)) [
  | inl k ↦ (e, ground arith, k)
  | inr k ↦ let (ext, c, s) = any_extension_elim exts name (ground arith) in (ext, ground arith, s)
]

any_file_intro :
    (files : List String) (ext name : String)
    → 0 < occurrences files ext
    → stands_for ext name ≡ true
    → any_file files name ≡ true
any_file_intro [] ext name h k = absurd (omega arith)
any_file_intro (f ∷ files) ext name h k = ground (arith, any_file_intro files ext name)

any_file_elim :
    (files : List String) (name : String)
    → any_file files name ≡ true
    → (ext : String) × (0 < occurrences files ext) × (stands_for ext name ≡ true)
any_file_elim [] name h = cc
any_file_elim (f ∷ files) name h = elim (Bool-cases (stands_for (extension f) name)) [
  | inl k ↦ (extension f, ground arith, k)
  | inr k ↦ let (ext, c, s) = any_file_elim files name (ground arith) in (ext, ground arith, s)
]

popular_any_file :
    (files : List String) (name : String)
    → any_extension (most_popular_extensions (create files)).1 name ≡ any_file files name
popular_any_file files name =
    elim (Bool-cases (any_extension (most_popular_extensions (create files)).1 name)) [
      | inl e ↦
          let (ext, c, s) = any_extension_elim _ name e in
          let (_, _, o, _) = most_popular_extensions_order files ext in
          e ∙ sym (any_file_intro files ext name (ground arith) s)
      | inr e ↦ elim (Bool-cases (any_file files name)) [
        | inr n ↦ e ∙ sym n
        | inl n ↦
            let (ext, c, s) = any_file_elim files name n in
            let (_, _, o, _) = most_popular_extensions_order files ext in
            absurd (
              ground
                (arith, any_extension_intro (most_popular_extensions (create files)).1 ext name))
      ]
    ]

pub lookup-get_languages :
    (files : List String) (name : String)
    → lookup name (get_languages (create files)) ≡ (
        if packaged files name
        then some "package manager"
        else if any_file files name
        then some "file extension"
        else none)
unfolding get_languages create process most_popular_extensions
lookup-get_languages files name =
    lookup-by_extension (most_popular_extensions (create files)).1 (by_package files) name
    ∙ ground (arith, lookup-by_package files name, popular_any_file files name)
