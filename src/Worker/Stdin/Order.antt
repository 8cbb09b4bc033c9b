-- ===== src/Worker/Stdin/Order.antt =====
-- StdinIterator: the requests reach the worker in order.
use mathlib.Core.List.{append_assoc}
use rx.Base.{◌≡◌, refl, sym, ap, ◌∙◌, [], ◌∷◌, ◌++◌}
use rx.Worker.Stdin.{
  Stdin, entered, Step, next_called, next_refused, next_returned, next_stopped, next_waits,
  loop_test, loop_end, select_none, select_event, read_nothing, read_some, exit_unregister,
  exit_running, Steps, here, next,
}

module _ {ℓ} {A : Type ℓ} (request : A) where
  -- The command's request and what was typed is what was given and what is still in the buffer.
  abbrev pub IsInOrder : Stdin A → Type ℓ
  IsInOrder s = (request ∷ s.typed) ≡ s.given ++ s.stdin_buffer

  Step-IsInOrder : {s t : Stdin A} → Step s t → IsInOrder s → IsInOrder t
  Step-IsInOrder (next_called c r) h = h
  Step-IsInOrder (next_refused c r) h = h
  Step-IsInOrder {s} (next_returned r q c e) h =
      h ∙ ap (λ b. s.given ++ b) e ∙ sym (append_assoc s.given (r ∷ []) q)
  Step-IsInOrder (next_stopped c e r) h = h
  Step-IsInOrder (next_waits c e r) h = h
  Step-IsInOrder (loop_test l r) h = h
  Step-IsInOrder (loop_end l r) h = h
  Step-IsInOrder (select_none l) h = h
  Step-IsInOrder (select_event l r) h = h
  Step-IsInOrder (read_nothing l) h = h
  Step-IsInOrder {s} (read_some r l) h =
      ap (λ b. b ++ (r ∷ [])) h ∙ append_assoc s.given s.stdin_buffer (r ∷ [])
  Step-IsInOrder exit_unregister h = h
  Step-IsInOrder (exit_running r) h = h

  -- In every state that the threads can reach, the requests given to grpc, followed by those in the
  -- buffer, are the command's own and then all that was typed, in order.
  pub Steps-IsInOrder : {s : Stdin A} → Steps (entered request) s → IsInOrder s
  unfolding entered
  Steps-IsInOrder here = refl
  Steps-IsInOrder (next r s) = Step-IsInOrder s (Steps-IsInOrder r)
