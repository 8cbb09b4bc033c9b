-- ===== src/Daemon/Connection/Stuck.antt =====
-- client_socket.py: `handle` can wait for ever.
use rx.Base.{◌≡◌, ◌≢◌, refl, List, [], ◌∷◌, arith}
use rx.Daemon.Connection.{
  draining, finished, Connection, Step, Steps, Reach, here, next, requests_some, requests_none,
  answer, answer_end, answer_raised, drained, joined, recv_test, recv_stop, recv_frame, recv_end,
  pull_test, pull_end, pull_get, pull_empty, size_some, size_none, event_clear, event_set,
  take_some, take_none, send, send_raised,
}
use rx.Daemon.Connection.Losses.{forwards-Reach}

module _ {ℓ} {A : Type ℓ} where
  -- `handle` waits for the queue, which no thread will empty.
  pub record IsStuck (c : Connection A) : Type ℓ where
    pub waits : c.handler ≡ draining
    pub ended : c.writer ≡ finished
    pub unsent : c.response_queue ≢ []
    pub silent : c.sent ≡ []

  Step-IsStuck : {c d : Connection A} → Step c d → IsStuck c → IsStuck d
  Step-IsStuck (recv_test p e) h = record {
    waits = h.waits;
    ended = h.ended;
    unsent = h.unsent;
    silent = h.silent;
  }
  Step-IsStuck (recv_stop p e) h = record {
    waits = h.waits;
    ended = h.ended;
    unsent = h.unsent;
    silent = h.silent;
  }
  Step-IsStuck (recv_frame f p e l) h = record {
    waits = h.waits;
    ended = h.ended;
    unsent = h.unsent;
    silent = h.silent;
  }
  Step-IsStuck (recv_end p) h = record {
    waits = h.waits;
    ended = h.ended;
    unsent = h.unsent;
    silent = h.silent;
  }
  Step-IsStuck (pull_test p e) h = record {
    waits = h.waits;
    ended = h.ended;
    unsent = h.unsent;
    silent = h.silent;
  }
  Step-IsStuck (pull_end p e) h = record {
    waits = h.waits;
    ended = h.ended;
    unsent = h.unsent;
    silent = h.silent;
  }
  Step-IsStuck (pull_get f q p e) h = record {
    waits = h.waits;
    ended = h.ended;
    unsent = h.unsent;
    silent = h.silent;
  }
  Step-IsStuck (pull_empty p e) h = record {
    waits = h.waits;
    ended = h.ended;
    unsent = h.unsent;
    silent = h.silent;
  }
  Step-IsStuck (requests_some a e) h = absurd (ground (arith, a, h.waits))
  Step-IsStuck (requests_none a e q) h = absurd (ground (arith, a, h.waits))
  Step-IsStuck (answer f a e) h = absurd (ground (arith, a, h.waits))
  Step-IsStuck (answer_end a) h = absurd (ground (arith, a, h.waits))
  Step-IsStuck (answer_raised a) h = absurd (ground (arith, a, h.waits))
  Step-IsStuck (joined a b o) h = absurd (ground (arith, a, h.waits))
  Step-IsStuck (drained a q) h = absurd (h.unsent q)
  Step-IsStuck (size_some w e) h = absurd (ground (arith, w, h.ended))
  Step-IsStuck (size_none w e) h = absurd (ground (arith, w, h.ended))
  Step-IsStuck (event_clear w e) h = absurd (ground (arith, w, h.ended))
  Step-IsStuck (event_set w e) h = absurd (ground (arith, w, h.ended))
  Step-IsStuck (take_some f q w e) h = absurd (ground (arith, w, h.ended))
  Step-IsStuck (take_none w e) h = absurd (ground (arith, w, h.ended))
  Step-IsStuck (send f x n w l) h = absurd (ground (arith, w, h.ended))
  Step-IsStuck (send_raised f x w) h = absurd (ground (arith, w, h.ended))

  Steps-IsStuck : {c d : Connection A} → Steps c d → IsStuck c → IsStuck d
  Steps-IsStuck here h = h
  Steps-IsStuck (next r s) h = Step-IsStuck s (Steps-IsStuck r h)

  -- Whatever frame the worker answers last, the threads can reach a state in which it is still queued,
  -- and from which no steps, however many, send a byte to the client or let `handle` return.
  pub response_stuck :
      (request : A) (f : List A)
      → f ≢ []
      → (c : Connection A) × Reach c
        × (c.response_queue ≡ f ∷ [])
        × ((d : Connection A) → Steps c d → (d.sent ≡ []) × (d.handler ≡ draining))
  response_stuck request f e = (
    _,
    next
        (next (next (next (forwards-Reach request) (size_none refl refl)) (answer f refl e))
          (answer_end refl))
        (event_set refl refl),
    refl,
    λ d steps.
        let h = Steps-IsStuck steps (record {
          waits = refl;
          ended = refl;
          unsent = λ n. absurd (ground (arith, n));
          silent = refl;
        }) in
        (h.silent, h.waits),
  )
