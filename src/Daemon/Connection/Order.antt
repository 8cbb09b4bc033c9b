-- ===== src/Daemon/Connection/Order.antt =====
-- client_socket.py: in either direction frames are neither reordered, nor duplicated, nor made up; and
-- what becomes of the bytes of those for the client.
use mathlib.Core.List.{append_assoc, append-nil}
use rx.Base.{
  ℕ, zero, suc, ◌+◌, Bool, true, ◌||◌, ◌≡◌, refl, sym, ap, ◌∙◌, List, [], ◌∷◌, ◌++◌, false, arith,
  length, ltb,
}
use rx.Base.Lists.{take, concat, concat-snoc}
use rx.Daemon.Connection.{
  Writer, at_size, at_event, at_take, finished, sending, died, send_from, Connection, Step,
  requests_some, requests_none, answer, answer_end, answer_raised, drained, joined, recv_test,
  recv_stop, recv_frame, recv_end, pull_test, pull_end, pull_get, pull_empty, size_some, size_none,
  event_clear, event_set, take_some, take_none, send, send_raised, Reach, here, next,
}

module _ {ℓ} {A : Type ℓ} where
  -- The frame in hand that, where every `send` takes all, has not been sent yet.
  abbrev pub unsent : Writer A → List A
  unsent (sending f x) = f
  unsent (died f) = f
  unsent at_size = []
  unsent at_event = []
  unsent at_take = []
  unsent finished = []

  pub record InOrder (c : Connection A) : Type ℓ where
    pub requests : c.received ≡ c.pulled ++ c.request_queue
    pub responses : c.answered ≡ c.taken ++ c.response_queue
    pub bytes : c.has_split ≡ false → c.sent ++ unsent c.writer ≡ concat c.taken

  unsent-send_from : (f : List A) → unsent (send_from f 0) ≡ f
  unfolding send_from
  unsent-send_from [] = ground arith
  unsent-send_from (b ∷ f) = ground arith

  take_all : (n : ℕ) (f : List A) → ltb n (length f) ≡ false → take n f ≡ f
  take_all zero [] h = refl
  take_all (suc n) [] h = refl
  take_all zero (b ∷ f) h = absurd (ground (arith, h))
  take_all (suc n) (b ∷ f) h = ap (λ g. b ∷ g) (take_all n f (ground (arith, h)))

  -- A `send` that takes all ends the inner loop.
  unsent_after :
      (f : List A) (x n : ℕ) → ltb n (length f) ≡ false → unsent (send_from f (x + n)) ≡ []
  unfolding send_from
  unsent_after f x n h = ground (arith, h)

  sent_bytes :
      (s : List A) (f : List A) (x n : ℕ) (b : Bool) (r : List A)
      → (b ≡ false → s ++ f ≡ r)
      → b || ltb n (length f) ≡ false
      → (s ++ take n f) ++ unsent (send_from f (x + n)) ≡ r
  sent_bytes s f x n true r h e = absurd (ground (arith, e))
  sent_bytes s f x n false r h e =
      rw (take_all n f e, unsent_after f x n e, append-nil (s ++ f)) (h refl)

  -- Taking a frame off the queue, where nothing was in hand.
  taken_bytes :
      (s : List A) (t : List (List A)) (f : List A)
      → s ++ [] ≡ concat t
      → s ++ unsent (send_from f 0) ≡ concat (t ++ (f ∷ []))
  taken_bytes s t f h = rw (unsent-send_from f, concat-snoc t f, sym (append-nil s) ∙ h) refl

  Step-InOrder : {c d : Connection A} → Step c d → InOrder c → InOrder d
  Step-InOrder (requests_some a e) h = record {
    requests = h.requests;
    responses = h.responses;
    bytes = h.bytes;
  }
  Step-InOrder (requests_none a e q) h = record {
    requests = h.requests;
    responses = h.responses;
    bytes = h.bytes;
  }
  Step-InOrder (answer_end a) h = record {
    requests = h.requests;
    responses = h.responses;
    bytes = h.bytes;
  }
  Step-InOrder (answer_raised a) h = record {
    requests = h.requests;
    responses = h.responses;
    bytes = h.bytes;
  }
  Step-InOrder (drained a q) h = record {
    requests = h.requests;
    responses = h.responses;
    bytes = h.bytes;
  }
  Step-InOrder (joined a b o) h = record {
    requests = h.requests;
    responses = h.responses;
    bytes = h.bytes;
  }
  Step-InOrder (recv_test p e) h = record {
    requests = h.requests;
    responses = h.responses;
    bytes = h.bytes;
  }
  Step-InOrder (recv_stop p e) h = record {
    requests = h.requests;
    responses = h.responses;
    bytes = h.bytes;
  }
  Step-InOrder (recv_end p) h = record {
    requests = h.requests;
    responses = h.responses;
    bytes = h.bytes;
  }
  Step-InOrder (pull_test p e) h = record {
    requests = h.requests;
    responses = h.responses;
    bytes = h.bytes;
  }
  Step-InOrder (pull_end p e) h = record {
    requests = h.requests;
    responses = h.responses;
    bytes = h.bytes;
  }
  Step-InOrder (pull_empty p e) h = record {
    requests = h.requests;
    responses = h.responses;
    bytes = h.bytes;
  }
  Step-InOrder {c} (answer f a e) h = record {
    requests = h.requests;
    responses =
        ap (λ r. r ++ (f ∷ [])) h.responses ∙ append_assoc c.taken c.response_queue (f ∷ []);
    bytes = h.bytes;
  }
  Step-InOrder {c} (recv_frame f p e l) h = record {
    requests = ap (λ r. r ++ (f ∷ [])) h.requests ∙ append_assoc c.pulled c.request_queue (f ∷ []);
    responses = h.responses;
    bytes = h.bytes;
  }
  Step-InOrder {c} (pull_get f q p e) h = record {
    requests = h.requests ∙ ap (λ r. c.pulled ++ r) e ∙ sym (append_assoc c.pulled (f ∷ []) q);
    responses = h.responses;
    bytes = h.bytes;
  }
  Step-InOrder {c} (size_some w e) h = record {
    requests = h.requests;
    responses = h.responses;
    bytes = rw (ap unsent w) at h.bytes;
  }
  Step-InOrder {c} (size_none w e) h = record {
    requests = h.requests;
    responses = h.responses;
    bytes = rw (ap unsent w) at h.bytes;
  }
  Step-InOrder {c} (event_clear w e) h = record {
    requests = h.requests;
    responses = h.responses;
    bytes = rw (ap unsent w) at h.bytes;
  }
  Step-InOrder {c} (event_set w e) h = record {
    requests = h.requests;
    responses = h.responses;
    bytes = rw (ap unsent w) at h.bytes;
  }
  Step-InOrder {c} (take_none w e) h = record {
    requests = h.requests;
    responses = h.responses;
    bytes = rw (ap unsent w) at h.bytes;
  }
  Step-InOrder {c} (take_some f q w e) h = record {
    requests = h.requests;
    responses = h.responses ∙ ap (λ r. c.taken ++ r) e ∙ sym (append_assoc c.taken (f ∷ []) q);
    bytes = λ u. taken_bytes c.sent c.taken f ((rw (ap unsent w) at h.bytes) u);
  }
  Step-InOrder {c} (send f x n w l) h = record {
    requests = h.requests;
    responses = h.responses;
    bytes = sent_bytes c.sent f x n c.has_split (concat c.taken) (rw (ap unsent w) at h.bytes);
  }
  Step-InOrder {c} (send_raised f x w) h = record {
    requests = h.requests;
    responses = h.responses;
    bytes = rw (ap unsent w) at h.bytes;
  }

  -- In every state that the threads can reach, in whatever order they take their steps, the frames
  -- given to the worker, followed by the queued ones, are those received from the client; those taken
  -- for the client, followed by the queued ones, are the worker's; and if every `send` took all that
  -- it was given, then the bytes sent, followed by the frame in hand, are those of the frames taken.
  pub Reach-InOrder : {c : Connection A} → Reach c → InOrder c
  Reach-InOrder here = record { requests = refl; responses = refl; bytes = λ u. refl }
  Reach-InOrder (next r s) = Step-InOrder s (Reach-InOrder r)
