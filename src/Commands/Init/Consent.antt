-- ===== src/Commands/Init/Consent.antt =====
-- init.py with menu.py: a workspace is made only with the user's consent.
use rx.Base.{
  ℕ, zero, suc, ◌≡◌, refl, Bool, true, false, Bool-cases, inl, inr, String, List, [], ◌∷◌, arith,
  if◌then◌else◌,
}
use rx.Client.Menu.{Asked, chosen, end_of_input, crashed, bool_prompt}
use rx.Commands.Init.{
  Action, stored_config, listed_files, logged_in, saved_config, made_workspace, opened_port, Ended,
  Run, Setting, act, after_answer, confirm, upload, log_in_then, set_up_user, after_message,
  show_init_message, run,
}

-- Whether a workspace is made.
abbrev pub makes : List Action → Bool
makes [] = false
makes (made_workspace sync ∷ actions) = true
makes (stored_config ∷ actions) = makes actions
makes (listed_files ∷ actions) = makes actions
makes (logged_in ∷ actions) = makes actions
makes (saved_config ∷ actions) = makes actions
makes (opened_port p ∷ actions) = makes actions

-- So many questions, one after another, are answered by yes.
abbrev pub Consents : Bool → ℕ → List String → Type 0
Consents quiet zero lines = Unit
Consents quiet (suc n) lines =
    (rest : List String) × (bool_prompt quiet "y" lines ≡ chosen true rest) × Consents quiet n rest

after_answer_made :
    (go : List String → Run) (end : Ended) (a : Asked Bool)
    → makes (after_answer go end a).0 ≡ true
    → (rest : List String) × (a ≡ chosen true rest) × (makes (go rest).0 ≡ true)
unfolding after_answer
after_answer_made go end (chosen true rest) h = (rest, refl, h)
after_answer_made go end (chosen false rest) h = cc
after_answer_made go end end_of_input h = cc
after_answer_made go end crashed h = cc

pub confirm_made :
    (quiet : Bool) (end : Ended) (lines : List String) (go : List String → Run)
    → makes (confirm quiet end lines go).0 ≡ true
    → (rest : List String) × (bool_prompt quiet "y" lines ≡ chosen true rest)
      × (makes (go rest).0 ≡ true)
unfolding confirm
confirm_made quiet end lines go h = after_answer_made go end (bool_prompt quiet "y" lines) h

-- The questions that are left: about the upload, and before it about the login.
abbrev for_upload : Setting → ℕ
for_upload s = if s.sync then 1 else 0

abbrev for_login : Setting → ℕ
for_login s = if s.user_info_exists then for_upload s else suc (for_upload s)

-- All the questions of a run: whether to start over, whether to continue, and those.
abbrev pub questions : Setting → ℕ
questions s = if s.config_exists then suc (suc (for_login s)) else suc (for_login s)

upload_made :
    (s : Setting) (lines : List String)
    → makes (upload s lines).0 ≡ true
    → Consents s.quiet (for_upload s) lines
unfolding upload
upload_made s lines h = elim (Bool-cases s.sync) [
  | inr n ↦ rw n tt
  | inl y ↦ rw y (let (rest, a, _) = confirm_made s.quiet _ lines _ (rw y at h) in (rest, a, tt))
]

log_in_then_made :
    (s : Setting) (lines : List String)
    → makes (log_in_then s lines).0 ≡ true
    → Consents s.quiet (for_upload s) lines
unfolding log_in_then act
log_in_then_made s lines h = upload_made s lines (ground arith)

set_up_user_made :
    (s : Setting) (lines : List String)
    → makes (set_up_user s lines).0 ≡ true
    → Consents s.quiet (for_login s) lines
unfolding set_up_user
set_up_user_made s lines h = elim (Bool-cases s.user_info_exists) [
  | inl y ↦ rw y (log_in_then_made s lines (rw y at h))
  | inr n ↦ rw n (
      let (rest, a, m) = confirm_made s.quiet _ lines _ (rw n at h) in
      (rest, a, log_in_then_made s rest m))
]

after_message_made :
    (s : Setting) (lines : List String)
    → makes (after_message s lines).0 ≡ true
    → (s.is_dry_run ≡ false) × Consents s.quiet (for_login s) lines
unfolding after_message act
after_message_made s lines h = (ground arith, set_up_user_made s lines (ground arith))

show_init_message_made :
    (s : Setting) (lines : List String)
    → makes (show_init_message s lines).0 ≡ true
    → Consents s.quiet (questions s) lines
unfolding show_init_message
show_init_message_made s lines h = elim (Bool-cases s.config_exists) [
  | inl y ↦ rw y (
      let (rest, a, m) = confirm_made s.quiet _ lines _ (rw y at h) in
      let (last, b, n) = confirm_made s.quiet _ rest _ m in
      (rest, a, (last, b, (after_message_made s last n).1)))
  | inr n ↦ rw n (
      let (rest, a, m) = confirm_made s.quiet _ lines _ (rw n at h) in
      (rest, a, (after_message_made s rest m).1))
]

pub run_made :
    (s : Setting) (lines : List String)
    → makes (run s lines).0 ≡ true
    → (s.is_dry_run ≡ false) × Consents s.quiet (questions s) lines
unfolding run
run_made s lines h = elim (Bool-cases s.is_dry_run) [
  | inl y ↦ absurd (ground (arith, y, after_message_made s lines))
  | inr n ↦ (n, show_init_message_made s lines (ground (arith, n)))
]
