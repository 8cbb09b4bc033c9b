-- ===== src/Daemon/Connection/Returning.antt =====
-- client_socket.py: when `handle` can still return.
use rx.Base.{
  ◌≡◌, ◌∙◌, refl, ap, true, Bool-cases, inl, inr, ◌⊎◌, List, [], ◌∷◌, arith, length, ltb, ◌++◌, ◌+◌,
  ℕ,
}
use rx.Daemon.Connection.{
  joining, returned, Receiver, at_loop, in_recv, closed, Writer, at_size, at_event, at_take,
  finished, sending, died, send_from, is_over, Connection, Step, Steps, here, next, joined,
  recv_test, recv_stop, recv_end, size_some, size_none, event_set, take_some, take_none, send,
}

module _ {ℓ} {A : Type ℓ} where
  pub onward : {c d e : Connection A} → Steps c d → Steps d e → Steps c e
  onward r here = r
  onward r (next s t) = next (onward r s) t

  -- `recv_from_local` can end, whatever the others do.
  pub close :
      (c : Connection A) (r : Receiver)
      → c.receiver ≡ r
      → (d : Connection A) × Steps c d
        × (d.receiver ≡ closed)
        × (d.writer ≡ c.writer)
        × (d.handler ≡ c.handler)
        × (d.request_queue ≡ c.request_queue)
  close c closed e = (c, here, e, refl, refl, refl)
  close c in_recv e = (_, next here (recv_end e), refl, refl, refl, refl)
  close c at_loop e = elim (Bool-cases c.done_with_requests) [
    | inl t ↦ (_, next here (recv_stop e t), refl, refl, refl, refl)
    | inr f ↦ (_, next (next here (recv_test e f)) (recv_end refl), refl, refl, refl, refl)
  ]

  -- `remote_to_local` has ended with nothing queued, and the others are where they were.
  pub record Drained (c d : Connection A) : Type ℓ where
    pub steps : Steps c d
    pub over : is_over d.writer ≡ true
    pub empty : d.response_queue ≡ []
    pub handler : d.handler ≡ c.handler
    pub receiver : d.receiver ≡ c.receiver

  -- A `send` that takes all ends the inner loop, if it has not ended.
  sent_all : (f : List A) (x : ℕ) → send_from f (x + length f) ≡ at_size
  unfolding send_from
  sent_all f x = ground arith

  -- The writer is back at its loop, and the others are where they were.
  record Sent (c d : Connection A) : Type ℓ where
    steps : Steps c d
    size : d.writer ≡ at_size
    queue : d.response_queue ≡ c.response_queue
    handler : d.handler ≡ c.handler
    receiver : d.receiver ≡ c.receiver
    done : d.done_with_responses ≡ c.done_with_responses

  from_sending :
      (c : Connection A) (f : List A) (x : ℕ)
      → c.writer ≡ sending f x
      → (d : Connection A) × Sent c d
  from_sending c f x w = (
    _,
    record {
      steps = next here (send f x (length f) w (omega arith));
      size = sent_all f x;
      queue = refl;
      handler = refl;
      receiver = refl;
      done = refl;
    },
  )

  from_taken :
      (c : Connection A) (f : List A) → c.writer ≡ send_from f 0 → (d : Connection A) × Sent c d
  unfolding send_from
  from_taken c f w = elim (Bool-cases (ltb 0 (length f))) [
    | inr n ↦ (
      c,
      record {
        steps = here;
        size = w ∙ rw n refl;
        queue = refl;
        handler = refl;
        receiver = refl;
        done = refl;
      },
    )
    | inl y ↦ from_sending c f 0 (w ∙ rw y refl)
  ]

  from_size :
      (q : List (List A)) (c : Connection A)
      → c.writer ≡ at_size
      → c.response_queue ≡ q
      → c.done_with_responses ≡ true
      → (d : Connection A) × Drained c d
  unfolding is_over
  from_size [] c w e r = (
    _,
    record {
      steps = next (next here (size_none w e)) (event_set refl r);
      over = refl;
      empty = e;
      handler = refl;
      receiver = refl;
    },
  )
  from_size (f ∷ q) c w e r =
      let start = record c {
        taken = c.taken ++ (f ∷ []);
        response_queue = q;
        writer = send_from f 0;
      } in
      let (m, g) = from_taken start f refl in
      let (d, h) = from_size q m g.size g.queue (g.done ∙ r) in
      (
        d,
        record {
          steps =
              onward
                (onward
                  (next (next here (size_some w (λ n. absurd (ground (arith, n, e)))))
                    (take_some f q refl e))
                  g.steps)
                h.steps;
          over = h.over;
          empty = h.empty;
          handler = h.handler ∙ g.handler;
          receiver = h.receiver ∙ g.receiver;
        },
      )

  -- After a frame in hand, the queue.
  sent_then :
      {c m : Connection A}
      → Sent c m
      → c.done_with_responses ≡ true
      → (d : Connection A) × Drained c d
  sent_then {c} {m} g r =
      let (d, h) = from_size m.response_queue m g.size refl (g.done ∙ r) in
      (
        d,
        record {
          steps = onward g.steps h.steps;
          over = h.over;
          empty = h.empty;
          handler = h.handler ∙ g.handler;
          receiver = h.receiver ∙ g.receiver;
        },
      )

  -- What is left to do before a state, after one step.
  first :
      {c m d : Connection A}
      → Step c m
      → m.handler ≡ c.handler
      → m.receiver ≡ c.receiver
      → Drained m d
      → Drained c d
  first t p q h = record {
    steps = onward (next here t) h.steps;
    over = h.over;
    empty = h.empty;
    handler = h.handler ∙ p;
    receiver = h.receiver ∙ q;
  }

  from_take :
      (c : Connection A) (q : List (List A))
      → c.writer ≡ at_take
      → c.response_queue ≡ q
      → c.done_with_responses ≡ true
      → (d : Connection A) × Drained c d
  from_take c [] w e r =
      let (d, h) = from_size [] (record c { writer = at_size }) refl e r in
      (d, first (take_none w e) refl refl h)
  from_take c (f ∷ q) w e r =
      let m = record c {
        taken = c.taken ++ (f ∷ []);
        response_queue = q;
        writer = send_from f 0;
      } in
      let (n, g) = from_taken m f refl in
      let (d, h) = sent_then g r in (d, first (take_some f q w e) refl refl h)

  -- Unless it has read the event or has ended, `remote_to_local` can empty the queue.
  pub drain :
      (c : Connection A) (w : Writer A)
      → c.writer ≡ w
      → c.done_with_responses ≡ true
      → ((d : Connection A) × Drained c d) ⊎ ((c.writer ≡ at_event) ⊎ (is_over c.writer ≡ true))
  unfolding is_over
  drain c at_size w r = inl (from_size c.response_queue c w refl r)
  drain c at_take w r = inl (from_take c c.response_queue w refl r)
  drain c (sending f x) w r = inl (sent_then (from_sending c f x w).1 r)
  drain c at_event w r = inr (inl w)
  drain c finished w r = inr (inr (rw w refl))
  drain c (died f) w r = inr (inr (rw w refl))

  -- In any case it can end.
  end_writer :
      (c : Connection A)
      → c.done_with_responses ≡ true
      → (d : Connection A) × Steps c d
        × (is_over d.writer ≡ true)
        × (d.handler ≡ c.handler)
        × (d.receiver ≡ c.receiver)
  unfolding is_over
  end_writer c r = elim (drain c c.writer refl r) [
    | inl (d, h) ↦ (d, h.steps, h.over, h.handler, h.receiver)
    | inr (inl w) ↦ (_, next here (event_set w r), refl, refl, refl)
    | inr (inr o) ↦ (c, here, o, refl, refl)
  ]

  -- The threads can go on until `handle` has returned.
  abbrev pub Returns : Connection A → Type ℓ
  Returns c = (d : Connection A) × Steps c d × (d.handler ≡ returned)

  pub from_joining :
      (c : Connection A) → c.handler ≡ joining → c.done_with_responses ≡ true → Returns c
  from_joining c j r =
      let (d, s, over, handler, receiver) = end_writer c r in
      let (e, t, shut, writer, same, _) = close d d.receiver refl in
      (_, next (onward s t) (joined (same ∙ handler ∙ j) shut (ap is_over writer ∙ over)), refl)
