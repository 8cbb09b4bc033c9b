-- ===== src/Trex/Detector.antt =====
-- rx/trex/toolchain/lang_detector.py. The set of tools is a dict from a tool's name to its `why`:
-- tools are equal if their names are, and adding one that is there keeps the first.
pub mod Languages
use rx.Base.{
  String, Bool, true, false, Option, none, some, List, [], ◌∷◌, ◌||◌, ◌==◌, contains, string_eq,
  is_some, if◌then◌else◌,
}
use rx.Base.Dict.{Dict, lookup, insert}
use rx.Trex.Manifest.{Manifest, process, most_popular_extensions}

-- `_KNOWN_EXTENSION`
abbrev pub known_extension : Dict String String
known_extension =
    (".c", "c")
    ∷ (".cc", "cpp")
    ∷ (".go", "golang")
    ∷ (".java", "java")
    ∷ (".js", "node")
    ∷ (".jsx", "node")
    ∷ (".php", "php")
    ∷ (".py", "python")
    ∷ (".rs", "rust")
    ∷ (".ts", "node")
    ∷ (".tsx", "node")
    ∷ []

-- `detected.add(DetectedTool(name, why))`
unfoldable pub add_tool : String → String → Dict String String → Dict String String
add_tool name why detected =
    if is_some (lookup name detected) then detected else insert name why detected

add_if : Bool → String → Dict String String → Dict String String
unfolding add_tool
add_if found name detected = if found then add_tool name "package manager" detected else detected

-- The tests for package managers.
unfoldable pub by_package : List String → Dict String String
unfolding add_if
by_package files = add_if (contains files "Cargo.toml") "rust" (
    add_if (contains files "package.json") "node" (
      add_if (contains files "pom.xml") "maven" (
        add_if (contains files "requirements.txt") "pip" (
          add_if (contains files "environment.yaml" || contains files "environment.yml") "conda"
            []))))

add_known : Option String → Dict String String → Dict String String
unfolding add_tool
add_known none detected = detected
add_known (some name) detected = add_tool name "file extension" detected

-- The loop over the extensions.
unfoldable pub by_extension : List String → Dict String String → Dict String String
unfolding add_known
by_extension [] detected = detected
by_extension (ext ∷ exts) detected =
    by_extension exts (add_known (lookup ext known_extension) detected)

-- `get_languages`. The first `in` processes the manifest, as asking for the extensions would.
unfoldable pub get_languages : Manifest → Dict String String
unfolding by_package by_extension
get_languages m = by_extension (most_popular_extensions (process m)).1 (by_package m.manifest)
