-- ===== src/Daemon/Connection/Losses.antt =====
-- client_socket.py: frames that are never passed on, by the order in which the threads take turns, and
-- bytes that a `send` did not take.
use rx.Base.{◌≡◌, ◌≢◌, refl, true, List, [], ◌∷◌, arith}
use rx.Daemon.Connection.{
  forwarding, returned, at_test, ended, send_from, is_over, Connection, started, Reach, here, next,
  requests_some, answer, answer_end, drained, joined, recv_test, recv_frame, recv_end, pull_end,
  size_some, size_none, event_set, take_some, send,
}

module _ {ℓ} {B : Type ℓ} where
  pub cons-not_nil : (b : B) (f : List B) → b ∷ f ≢ []
  cons-not_nil b f e = absurd (ground (arith, e))

module _ {ℓ} {A : Type ℓ} where
  -- A client has sent one byte, and `handle` calls the stub.
  abbrev pub forwards : A → Connection A
  forwards request = record (started A) {
    received = (request ∷ []) ∷ [];
    request_queue = (request ∷ []) ∷ [];
    handler = forwarding;
    puller = at_test;
  }

  pub forwards-Reach : (request : A) → Reach (forwards request)
  forwards-Reach request =
      next
        (next (next here (recv_test refl refl))
          (recv_frame (request ∷ []) refl (cons-not_nil request []) (omega arith)))
        (requests_some refl (cons-not_nil (request ∷ []) []))

  -- Whatever byte a client sends before it closes its side, the threads can reach a state in which
  -- the generator has ended by its test and has passed nothing on to the worker.
  pub request_lost :
      (request : A)
      → (c : Connection A) × Reach c
        × (c.received ≡ (request ∷ []) ∷ [])
        × (c.pulled ≡ [])
        × (c.puller ≡ ended)
  request_lost request = (
    _,
    next (next (next (forwards-Reach request) (recv_test refl refl)) (recv_end refl))
        (pull_end refl refl),
    refl,
    refl,
    refl,
  )

  -- `send` takes one byte at a time of the worker's answer, and is given the first one twice.
  abbrev garbled : A → A → A → Connection A
  garbled request a b = record (forwards request) {
    answered = (a ∷ b ∷ []) ∷ [];
    taken = (a ∷ b ∷ []) ∷ [];
    sent = a ∷ a ∷ [];
    has_split = true;
  }

  garbled-Reach : (request a b : A) → Reach (garbled request a b)
  unfolding send_from
  garbled-Reach request a b =
      next
        (next
          (next
            (next
              (next (forwards-Reach request) (answer (a ∷ b ∷ []) refl (cons-not_nil a (b ∷ []))))
              (size_some refl (cons-not_nil (a ∷ b ∷ []) [])))
            (take_some (a ∷ b ∷ []) [] refl refl))
          (send (a ∷ b ∷ []) 0 1 refl (omega arith)))
        (send (a ∷ b ∷ []) 1 1 refl (omega arith))

  -- Whatever two bytes the worker answers with, the threads can reach a state in which `handle` has
  -- returned, and the client has got the first of them twice in their place.
  pub response_garbled :
      (request a b : A)
      → (c : Connection A) × Reach c
        × (c.handler ≡ returned)
        × (c.answered ≡ (a ∷ b ∷ []) ∷ [])
        × (c.response_queue ≡ [])
        × (c.sent ≡ a ∷ a ∷ [])
  unfolding is_over
  response_garbled request a b = (
    _,
    next
        (next
          (next
            (next
              (next (next (next (garbled-Reach request a b) (answer_end refl)) (drained refl refl))
                (recv_test refl refl))
              (recv_end refl))
            (size_none refl refl))
          (event_set refl refl))
        (joined refl refl refl),
    refl,
    refl,
    refl,
    refl,
  )
