-- ===== src/Worker/Stdin/Waiting.antt =====
-- StdinIterator: `__exit__` does not wake the thread that waits in `__next__`.
use rx.Base.{arith, ◌≡◌, ◌⊎◌, inl, inr, refl, false}
use rx.Worker.Stdin.{
  waiting, at_loop, done, Stdin, entered, Step, next_called, next_refused, next_returned,
  next_stopped, next_waits, loop_test, loop_end, select_none, select_event, read_nothing, read_some,
  exit_unregister, exit_running, Steps, here, next,
}

module _ {ℓ} {A : Type ℓ} where
  -- The block has ended, its reading thread reads no more, and grpc's thread waits.
  pub record IsStuck (s : Stdin A) : Type ℓ where
    pub waits : s.consumer ≡ waiting
    pub ended : s.running ≡ false
    pub unread : (s.reader ≡ at_loop) ⊎ (s.reader ≡ done)

  Step-IsStuck : {s t : Stdin A} → Step s t → IsStuck s → IsStuck t
  Step-IsStuck (next_called c r) h = absurd (ground (arith, h.waits))
  Step-IsStuck (next_refused c r) h = absurd (ground (arith, h.waits))
  Step-IsStuck (next_returned r q c e) h = absurd (ground (arith, h.waits))
  Step-IsStuck (next_stopped c e r) h = absurd (ground (arith, h.waits))
  Step-IsStuck (next_waits c e r) h = absurd (ground (arith, h.waits))
  Step-IsStuck (loop_test l r) h = absurd (ground (arith, h.unread, h.ended))
  Step-IsStuck (loop_end l r) h = record { waits = h.waits; ended = h.ended; unread = inr refl }
  Step-IsStuck (select_none l) h = absurd (ground (arith, h.unread, h.ended))
  Step-IsStuck (select_event l r) h = absurd (ground (arith, h.unread, h.ended))
  Step-IsStuck (read_nothing l) h = absurd (ground (arith, h.unread, h.ended))
  Step-IsStuck (read_some r l) h = absurd (ground (arith, h.unread, h.ended))
  Step-IsStuck exit_unregister h = record { waits = h.waits; ended = h.ended; unread = h.unread }
  Step-IsStuck (exit_running r) h = record { waits = h.waits; ended = refl; unread = h.unread }

  Steps-IsStuck : {s t : Stdin A} → Steps s t → IsStuck s → IsStuck t
  Steps-IsStuck here h = h
  Steps-IsStuck (next r s) h = Step-IsStuck s (Steps-IsStuck r h)

  -- Whatever the command is, the threads can reach a state in which the block has ended and grpc's
  -- thread waits in `__next__`, and from which no steps, however many, lead it on.
  pub next_never_returns :
      (request : A)
      → (s : Stdin A) × Steps (entered request) s
        × ((t : Stdin A) → Steps s t → (t.consumer ≡ waiting) × (t.running ≡ false))
  unfolding entered
  next_never_returns request = (
    _,
    next
        (next
          (next
            (next (next (next here (next_called refl refl)) (next_returned _ _ refl refl))
              (next_called refl refl))
            (next_waits refl refl refl))
          exit_unregister)
        (exit_running refl),
    λ t steps.
        let h = Steps-IsStuck steps (record { waits = refl; ended = refl; unread = inl refl }) in
        (h.waits, h.ended),
  )
