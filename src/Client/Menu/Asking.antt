-- ===== src/Client/Menu/Asking.antt =====
-- menu.py: which of the lines that are typed decides.
use rx.Base.{String, ◌≡◌, refl, Bool, true, false, List, [], ◌∷◌, ◌++◌, string_eq}
use rx.Client.Menu.{
  chosen, end_of_input, says_yes, says_no, or_default, ask_bool, ask_string, string_prompt,
}

-- Every one of these lines is refused, with the default in place of an empty one.
abbrev pub AllRefused : (String → Bool) → String → List String → Type 0
AllRefused validation default [] = Unit
AllRefused validation default (r ∷ rs) =
    (validation (or_default default r) ≡ false) × AllRefused validation default rs

ask_string_first :
    (validation : String → Bool) (default : String) (before rest : List String) (r : String)
    → AllRefused validation default before
    → validation (or_default default r) ≡ true
    → ask_string validation default (before ++ (r ∷ rest)) ≡ chosen (or_default default r) rest
unfolding ask_string
ask_string_first validation default [] rest r a v = rw v
ask_string_first validation default (q ∷ before) rest r (e, a) v =
    rw e (ask_string_first validation default before rest r a v)

ask_string_none :
    (validation : String → Bool) (default : String) (before : List String)
    → AllRefused validation default before
    → ask_string validation default before ≡ end_of_input
unfolding ask_string
ask_string_none validation default [] a = refl
ask_string_none validation default (q ∷ before) (e, a) =
    rw e (ask_string_none validation default before a)

-- A prompt for a text gives the first line that is valid, with the default in place of an empty one,
-- and leaves the lines after it; it goes on asking exactly as long as the lines are refused.
pub string_prompt_first :
    (validation : String → Bool) (default : String) (before rest : List String) (r : String)
    → AllRefused validation default before
    → validation (or_default default r) ≡ true
    → (string_prompt false validation default (before ++ (r ∷ rest))
        ≡ chosen (or_default default r) rest)
      × (string_prompt false validation default before ≡ end_of_input)
unfolding string_prompt
string_prompt_first validation default before rest r a v = (
  ask_string_first validation default before rest r a v,
  ask_string_none validation default before a,
)

-- After a line that is neither yes nor no the default of a question does not count any more.
pub bool_prompt_again :
    (default r : String) (rs : List String)
    → says_yes (or_default default r) ≡ false
    → says_no (or_default default r) ≡ false
    → ask_bool default (r ∷ "" ∷ rs) ≡ ask_bool "" rs
unfolding ask_bool string_eq
bool_prompt_again default r rs y n = rw (y, n)
