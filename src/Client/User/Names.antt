-- ===== src/Client/User/Names.antt =====
-- user.py: the names that are accepted.
use Prim.Native.String.{String as Str}
use rx.Base.{
  ℕ, suc, ◌+◌, ◌≤◌, ◌≡◌, ap, String, Bool, true, false, Bool-cases, inl, inr, List, [], ◌∷◌, arith,
  string_eq, nat_eq,
}
use rx.Base.Text.{count_chars}
use rx.Client.Menu.{chosen, or_default, ask_string, string_prompt}
use rx.Client.User.{matches_rest, matches, username_validator, username_prompt}

ask_string_valid :
    (validation : String → Bool) (default : String) (lines rest : List String) (s : String)
    → ask_string validation default lines ≡ chosen s rest
    → validation s ≡ true
unfolding ask_string
ask_string_valid validation default [] rest s h = cc
ask_string_valid validation default (r ∷ lines) rest s h =
    elim (Bool-cases (validation (or_default default r))) [
      | inl e ↦ ground (arith, e)
      | inr e ↦ ask_string_valid validation default lines rest s (rw e at h)
    ]

empty_length : (s : String) → s ≡ "" → count_chars s ≡ 0
empty_length s h = ap count_chars h

module _ (alphanumeric : ℕ → Bool) where
  matches_rest_length :
      (n : ℕ) (s : String)
      → matches_rest alphanumeric n s ≡ true
      → (2 ≤ n + count_chars s) × (n + count_chars s ≤ 15)
  unfolding matches_rest
  matches_rest_length n Str.[] h = ground arith
  matches_rest_length n (Str.◌∷◌ c s) h =
      ground (arith, matches_rest_length (suc n) s, empty_length s)

  matches_length :
      (s : String) → matches alphanumeric s ≡ true → (3 ≤ count_chars s) × (count_chars s ≤ 16)
  unfolding matches
  matches_length Str.[] h = cc
  matches_length (Str.◌∷◌ c s) h = ground (arith, matches_rest_length 0 s)

  -- A name that is prompted for has from 3 to 15 characters, or 16 with a newline at its end.
  pub username_prompt_length :
      (quiet : Bool) (lines rest : List String) (name : String)
      → username_prompt alphanumeric quiet lines ≡ chosen name rest
      → (3 ≤ count_chars name) × (count_chars name ≤ 16)
  unfolding username_prompt string_prompt username_validator string_eq
  username_prompt_length true lines rest name h =
      matches_length name (ask_string_valid (matches alphanumeric) "" lines rest name h)
  username_prompt_length false lines rest name h =
      matches_length name (ask_string_valid (matches alphanumeric) "" lines rest name h)
