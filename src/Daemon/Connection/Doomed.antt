-- ===== src/Daemon/Connection/Doomed.antt =====
-- client_socket.py: exactly when `handle` can no longer return.
use rx.Base.{◌≡◌, ◌≢◌, ◌↔◌, ◌∙◌, refl, Bool, true, false, inl, inr, ◌⊎◌, List, [], ◌∷◌, arith}
use rx.Daemon.Connection.{
  Handler, in_has_requests, forwarding, draining, joining, returned, at_event, is_over, Connection,
  Step, Steps, Reach, here, next, requests_some, requests_none, answer, answer_end, answer_raised,
  drained, joined, recv_test, recv_stop, recv_frame, recv_end, pull_test, pull_end, pull_get,
  pull_empty, size_some, size_none, event_clear, event_set, take_some, take_none, send, send_raised,
  closed,
}
use rx.Daemon.Connection.Returning.{onward, close, Returns, from_joining, drain}

-- Behind its loop, `handle` has set the event; and `recv_from_local` sets the other when it ends.
abbrev announces : Handler → Bool
announces draining = true
announces joining = true
announces returned = true
announces in_has_requests = false
announces forwarding = false

module _ {ℓ} {A : Type ℓ} where
  -- `handle` waits for an empty queue, and `remote_to_local` has read the size of the queue for the
  -- last time, or has ended, while something is queued.
  pub record IsDoomed (c : Connection A) : Type ℓ where
    pub waits : c.handler ≡ draining
    pub queued : c.response_queue ≢ []
    pub ends : (c.writer ≡ at_event) ⊎ (is_over c.writer ≡ true)

  record IsAnnounced (c : Connection A) : Type ℓ where
    responses : announces c.handler ≡ true → c.done_with_responses ≡ true
    requests : c.receiver ≡ closed → c.done_with_requests ≡ true

  Step-IsAnnounced : {c d : Connection A} → Step c d → IsAnnounced c → IsAnnounced d
  Step-IsAnnounced (requests_some a e) h = record {
    responses = λ t. absurd (ground (arith, t));
    requests = h.requests;
  }
  Step-IsAnnounced (requests_none a e q) h = record { responses = λ _. refl; requests = λ _. refl }
  Step-IsAnnounced (answer f a e) h = record { responses = h.responses; requests = h.requests }
  Step-IsAnnounced (answer_end a) h = record { responses = λ _. refl; requests = h.requests }
  Step-IsAnnounced (answer_raised a) h = record { responses = λ _. refl; requests = λ _. refl }
  Step-IsAnnounced (drained a q) h = record {
    responses = λ _. h.responses (ground (arith, a));
    requests = h.requests;
  }
  Step-IsAnnounced (joined a b o) h = record { responses = λ _. refl; requests = λ _. refl }
  Step-IsAnnounced (recv_test p e) h = record {
    responses = h.responses;
    requests = λ t. absurd (ground (arith, t));
  }
  Step-IsAnnounced (recv_stop p e) h = record { responses = h.responses; requests = λ _. e }
  Step-IsAnnounced (recv_frame f p e l) h = record {
    responses = h.responses;
    requests = λ t. absurd (ground (arith, t));
  }
  Step-IsAnnounced (recv_end p) h = record { responses = h.responses; requests = λ _. refl }
  Step-IsAnnounced (pull_test p e) h = record { responses = h.responses; requests = h.requests }
  Step-IsAnnounced (pull_end p e) h = record { responses = h.responses; requests = h.requests }
  Step-IsAnnounced (pull_get f q p e) h = record { responses = h.responses; requests = h.requests }
  Step-IsAnnounced (pull_empty p e) h = record { responses = h.responses; requests = h.requests }
  Step-IsAnnounced (size_some w e) h = record { responses = h.responses; requests = h.requests }
  Step-IsAnnounced (size_none w e) h = record { responses = h.responses; requests = h.requests }
  Step-IsAnnounced (event_clear w e) h = record { responses = h.responses; requests = h.requests }
  Step-IsAnnounced (event_set w e) h = record { responses = h.responses; requests = h.requests }
  Step-IsAnnounced (take_some f q w e) h = record { responses = h.responses; requests = h.requests }
  Step-IsAnnounced (take_none w e) h = record { responses = h.responses; requests = h.requests }
  Step-IsAnnounced (send f x n w l) h = record { responses = h.responses; requests = h.requests }
  Step-IsAnnounced (send_raised f x w) h = record { responses = h.responses; requests = h.requests }

  Steps-IsAnnounced : {c d : Connection A} → Steps c d → IsAnnounced c → IsAnnounced d
  Steps-IsAnnounced here h = h
  Steps-IsAnnounced (next r s) h = Step-IsAnnounced s (Steps-IsAnnounced r h)

  Reach-IsAnnounced : {c : Connection A} → Reach c → IsAnnounced c
  Reach-IsAnnounced r = Steps-IsAnnounced r (record {
    responses = λ t. absurd (ground (arith, t));
    requests = λ t. absurd (ground (arith, t));
  })

  -- No step leads out of it.
  Step-IsDoomed : {c d : Connection A} → Step c d → IsAnnounced c → IsDoomed c → IsDoomed d
  unfolding is_over
  Step-IsDoomed (recv_test p e) i h = record { waits = h.waits; queued = h.queued; ends = h.ends }
  Step-IsDoomed (recv_stop p e) i h = record { waits = h.waits; queued = h.queued; ends = h.ends }
  Step-IsDoomed (recv_frame f p e l) i h = record {
    waits = h.waits;
    queued = h.queued;
    ends = h.ends;
  }
  Step-IsDoomed (recv_end p) i h = record { waits = h.waits; queued = h.queued; ends = h.ends }
  Step-IsDoomed (pull_test p e) i h = record { waits = h.waits; queued = h.queued; ends = h.ends }
  Step-IsDoomed (pull_end p e) i h = record { waits = h.waits; queued = h.queued; ends = h.ends }
  Step-IsDoomed (pull_get f q p e) i h = record {
    waits = h.waits;
    queued = h.queued;
    ends = h.ends;
  }
  Step-IsDoomed (pull_empty p e) i h = record { waits = h.waits; queued = h.queued; ends = h.ends }
  Step-IsDoomed (requests_some a e) i h = absurd (ground (arith, a, h.waits))
  Step-IsDoomed (requests_none a e q) i h = absurd (ground (arith, a, h.waits))
  Step-IsDoomed (answer f a e) i h = absurd (ground (arith, a, h.waits))
  Step-IsDoomed (answer_end a) i h = absurd (ground (arith, a, h.waits))
  Step-IsDoomed (answer_raised a) i h = absurd (ground (arith, a, h.waits))
  Step-IsDoomed (joined a b o) i h = absurd (ground (arith, a, h.waits))
  Step-IsDoomed (drained a q) i h = absurd (h.queued q)
  Step-IsDoomed (size_some w e) i h = absurd (ground (arith, w, h.ends))
  Step-IsDoomed (size_none w e) i h = absurd (ground (arith, w, h.ends))
  Step-IsDoomed (take_some f q w e) i h = absurd (ground (arith, w, h.ends))
  Step-IsDoomed (take_none w e) i h = absurd (ground (arith, w, h.ends))
  Step-IsDoomed (send f x n w l) i h = absurd (ground (arith, w, h.ends))
  Step-IsDoomed (send_raised f x w) i h = absurd (ground (arith, w, h.ends))
  Step-IsDoomed {c} (event_clear w e) i h = absurd (ground (arith, e, h.waits, i.responses))
  Step-IsDoomed (event_set w e) i h = record { waits = h.waits; queued = h.queued; ends = inr refl }

  Steps-IsDoomed : {c d : Connection A} → Steps c d → IsAnnounced c → IsDoomed c → IsDoomed d
  Steps-IsDoomed here i h = h
  Steps-IsDoomed (next r s) i h = Step-IsDoomed s (Steps-IsAnnounced r i) (Steps-IsDoomed r i h)

  -- More steps before a return.
  before : {c d : Connection A} → Steps c d → Returns d → Returns c
  before r (d, s, e) = (d, onward r s, e)

  from_forwarding : (c : Connection A) → c.handler ≡ forwarding → Returns c
  from_forwarding c e = before (next here (answer_raised e)) (from_joining _ refl refl)

  from_requests :
      (c : Connection A) (q : List (List A))
      → Reach c
      → c.handler ≡ in_has_requests
      → c.request_queue ≡ q
      → Returns c
  from_requests c (f ∷ q) r e n =
      before (next here (requests_some e (λ m. absurd (ground (arith, m, n)))))
        (from_forwarding _ refl)
  from_requests c [] r e n =
      let (d, s, shut, _, same, queue) = close c c.receiver refl in
      let i = Reach-IsAnnounced (onward r s) in
      before (next s (requests_none (same ∙ e) (i.requests shut) (queue ∙ n)))
        (from_joining _ refl refl)

  from_drained :
      (c : Connection A)
      → c.done_with_responses ≡ true
      → c.handler ≡ draining
      → c.response_queue ≡ []
      → Returns c
  from_drained c i e n = before (next here (drained e n)) (from_joining _ refl i)

  from_draining :
      (c : Connection A) (q : List (List A))
      → Reach c
      → c.handler ≡ draining
      → c.response_queue ≡ q
      → ¬ IsDoomed c
      → Returns c
  from_draining c [] r e n h = from_drained c ((Reach-IsAnnounced r).responses (rw e refl)) e n
  from_draining c (f ∷ q) r e n h =
      elim (drain c c.writer refl ((Reach-IsAnnounced r).responses (rw e refl))) [
        | inr ends ↦
            absurd
              (h (record { waits = e; queued = λ m. absurd (ground (arith, m, n)); ends = ends }))
        | inl (d, k) ↦
            let same = k.handler ∙ e in
            before k.steps (
              from_drained d ((Reach-IsAnnounced (onward r k.steps)).responses (rw same refl)) same
                k.empty)
      ]

  returns_unless :
      (c : Connection A) (w : Handler) → Reach c → c.handler ≡ w → ¬ IsDoomed c → Returns c
  returns_unless c returned r e h = (c, here, e)
  returns_unless c joining r e h = from_joining c e ((Reach-IsAnnounced r).responses (rw e refl))
  returns_unless c draining r e h = from_draining c c.response_queue r e refl h
  returns_unless c forwarding r e h = from_forwarding c e
  returns_unless c in_has_requests r e h = from_requests c c.request_queue r e refl

  waits_for_ever : (c : Connection A) → Reach c → Returns c → ¬ IsDoomed c
  waits_for_ever c r (d, s, e) h =
      absurd (ground (arith, e, (Steps-IsDoomed s (Reach-IsAnnounced r) h).waits))

  -- From any state that the threads can reach, there are steps to one in which `handle` has returned
  -- exactly unless it waits for an empty queue while something is queued and `remote_to_local` has
  -- read the size of the queue for the last time or has ended.
  pub Returns-IsDoomed : (c : Connection A) → Reach c → Returns c ↔ ¬ IsDoomed c
  Returns-IsDoomed c r = (waits_for_ever c r, returns_unless c c.handler r refl)
