-- ===== src/Client/Menu.antt =====
-- rx/client/menu.py: prompts, over the lines that the user will type. What is printed is not
-- modelled.
pub mod Asking
use rx.Base.{
  ℕ, String, Bool, true, false, not, Option, none, some, List, [], ◌∷◌, ◌||◌, ◌&&◌, ◌==◌, nat_eq,
  string_eq, leb, if◌then◌else◌, Outcome, ok, raised,
}
use rx.Base.Integers.{ℤ, pos, negsuc}

-- How a prompt ends: with a value and the lines that are left, at the end of the input, or with a
-- failed assertion or conversion.
pub data Asked {ℓ} (A : Type ℓ) : Type ℓ where
  chosen : A → List String → Asked A
  end_of_input crashed : Asked A

-- `response.lower() == 'y'`, and the same for 'n'.
abbrev pub says_yes : String → Bool
says_yes r = r == "y" || r == "Y"

abbrev pub says_no : String → Bool
says_no r = r == "n" || r == "N"

abbrev pub or_default : String → String → String
or_default default r = if r == "" then default else r

-- `bool_prompt` without `--quiet`. Asking again is without the default.
unfoldable pub ask_bool : String → List String → Asked Bool
ask_bool default [] = end_of_input
ask_bool default (r ∷ rs) =
    let again = ask_bool "" rs in
    if says_yes (or_default default r)
    then chosen true rs
    else if says_no (or_default default r)
    then chosen false rs
    else again

-- `bool_prompt`
unfoldable pub bool_prompt : Bool → String → List String → Asked Bool
bool_prompt quiet default rs =
    if not (default == "" || (default == "y" || default == "n"))
    then crashed
    else if quiet && not (default == "")
    then chosen (default == "y") rs
    else ask_bool default rs

-- `numbered_options_prompt`, with the number of options and `int`, which may fail. An empty answer
-- stands for 0, whatever the default is, and a negative number is taken.
unfoldable pub ask_number : (String → Option ℤ) → ℕ → List String → Asked ℤ
ask_number int options [] = end_of_input
ask_number int options (r ∷ rs) =
    let again = ask_number int options rs in
    if r == "" then chosen (pos 0) rs else elim (int r) [
      | none ↦ crashed
      | some (negsuc n) ↦ chosen (negsuc n) rs
      | some (pos n) ↦ if leb options n then again else chosen (pos n) rs
    ]

unfoldable pub numbered_options_prompt : Bool → (String → Option ℤ) → ℕ → ℤ → List String → Asked ℤ
unfolding ask_number
numbered_options_prompt quiet int options default rs =
    if quiet then chosen default rs else if options == 0 then crashed else ask_number int options rs

-- `string_prompt` without `--quiet`, where "" stands for no default.
unfoldable pub ask_string : (String → Bool) → String → List String → Asked String
ask_string validation default [] = end_of_input
ask_string validation default (r ∷ rs) =
    let again = ask_string validation default rs in
    if validation (or_default default r) then chosen (or_default default r) rs else again

-- `string_prompt`. A default that is taken without asking is not validated.
unfoldable pub string_prompt : Bool → (String → Bool) → String → List String → Asked String
unfolding ask_string
string_prompt quiet validation default rs =
    if quiet && not (default == "") then chosen default rs else ask_string validation default rs

-- `path_prompt`, where `path` is `pathlib.Path`. Without a default an empty answer is the path of "".
module _ {P : Type 0} (path : String → P) where
  unfoldable pub ask_path : (P → Bool) → Option P → List String → Asked P
  ask_path validation default [] = end_of_input
  ask_path validation default (r ∷ rs) =
      let again = ask_path validation default rs in
      let answer : P = if r == "" then elim default [ none ↦ path r | some p ↦ p ] else path r in
      if validation answer then chosen answer rs else again

  unfoldable pub path_prompt : Bool → (P → Bool) → Option P → List String → Asked P
  unfolding ask_path
  path_prompt quiet validation none rs = ask_path validation none rs
  path_prompt quiet validation (some p) rs =
      if quiet then chosen p rs else ask_path validation (some p) rs
