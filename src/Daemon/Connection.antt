-- ===== src/Daemon/Connection.antt =====
-- rx/daemon/port_forwarding/client_socket.py: one client connection, served by four threads: that of
-- `handle`; that of grpc, which runs the generator `_pull_from_req_queue`; `recv_from_local`; and
-- `remote_to_local`. They share two queues and two events. A frame is a list of bytes.
pub mod Order
pub mod Losses
pub mod Stuck
pub mod Returning
pub mod Doomed
pub mod Answers
use rx.Base.{
  ℕ, ◌+◌, ◌≤◌, Bool, true, false, ◌||◌, ltb, ◌≡◌, ◌≢◌, List, [], ◌∷◌, ◌++◌, length, if◌then◌else◌,
}
use rx.Base.Lists.{take}

-- `_FRAME_SIZE`
abbrev pub frame_size : ℕ
frame_size = 1024

-- Where `handle` stands: in `_has_requests`, in the loop over the stub's answers, in the wait for the
-- queue of responses, before the joins at its end or in `__exit__`, or done.
pub data Handler : Type 0 where
  in_has_requests forwarding draining joining returned : Handler

-- Where `recv_from_local` stands: before the test of its loop, in `recv`, or done.
pub data Receiver : Type 0 where
  at_loop in_recv closed : Receiver

-- Where the generator stands: not made yet, before the test of its loop, before `get_nowait`, or done.
pub data Puller : Type 0 where
  not_made at_test at_get ended : Puller

-- Where `remote_to_local` stands. The test of its loop reads the size of the queue, then the event.
-- `sending buf x` is its inner loop, and `died buf` an exception of `send` there.
pub data Writer {ℓ} (A : Type ℓ) : Type ℓ where
  at_size at_event at_take finished : Writer A
  sending : List A → ℕ → Writer A
  died : List A → Writer A

module _ {ℓ} {A : Type ℓ} where
  -- The test `x < len(buf)` of the inner loop.
  unfoldable pub send_from : List A → ℕ → Writer A
  send_from buf x = if ltb x (length buf) then sending buf x else at_size

  -- Whether the thread of `remote_to_local` can be joined.
  unfoldable pub is_over : Writer A → Bool
  is_over finished = true
  is_over (died buf) = true
  is_over _ = false

module _ {ℓ} (A : Type ℓ) where
  pub record Connection : Type ℓ where
    -- The frames that `recv` has given, that the generator has, that the stub has, and that
    -- `remote_to_local` has taken off its queue; the bytes that `send` has sent; and whether it has
    -- ever sent only a part of what it was given.
    pub received : List (List A)
    pub pulled : List (List A)
    pub answered : List (List A)
    pub taken : List (List A)
    pub sent : List A
    pub has_split : Bool
    pub request_queue : List (List A)
    pub done_with_requests : Bool
    pub response_queue : List (List A)
    pub done_with_responses : Bool
    pub handler : Handler
    pub receiver : Receiver
    pub puller : Puller
    pub writer : Writer A

  -- `handle`, once the threads are started.
  abbrev pub started : Connection
  started = record {
    received = [];
    pulled = [];
    answered = [];
    taken = [];
    sent = [];
    has_split = false;
    request_queue = [];
    done_with_requests = false;
    response_queue = [];
    done_with_responses = false;
    handler = in_has_requests;
    receiver = at_loop;
    puller = not_made;
    writer = at_size;
  }

module _ {ℓ} {A : Type ℓ} where
  -- One atomic step of one of the threads.
  pub data Step (c : Connection A) : Connection A → Type ℓ where
    -- `handle`. `_has_requests` gives true as soon as a frame is queued, and false if the event is
    -- set and none is; then both events are set. The loop puts the answers of the stub, and ends with
    -- an empty one or by an exception, on which `__exit__` sets both events. After the loop `handle`
    -- waits for an empty queue. `__exit__` joins both threads and closes the socket.
    requests_some :
        c.handler ≡ in_has_requests
        → c.request_queue ≢ []
        → Step c (record c { handler = forwarding; puller = at_test })
    requests_none :
        c.handler ≡ in_has_requests
        → c.done_with_requests ≡ true
        → c.request_queue ≡ []
        → Step c
            (record c { handler = joining; done_with_requests = true; done_with_responses = true })
    answer :
        (f : List A)
        → c.handler ≡ forwarding
        → f ≢ []
        → Step c (record c {
          answered = c.answered ++ (f ∷ []);
          response_queue = c.response_queue ++ (f ∷ []);
        })
    answer_end :
        c.handler ≡ forwarding
        → Step c (record c { handler = draining; done_with_responses = true })
    answer_raised :
        c.handler ≡ forwarding
        → Step c
            (record c { handler = joining; done_with_requests = true; done_with_responses = true })
    drained : c.handler ≡ draining → c.response_queue ≡ [] → Step c (record c { handler = joining })
    joined :
        c.handler ≡ joining
        → c.receiver ≡ closed
        → is_over c.writer ≡ true
        → Step c
            (record c { handler = returned; done_with_requests = true; done_with_responses = true })
    -- `recv_from_local`. Its loop ends by its test, with no data, or by an exception; then it sets
    -- the event.
    recv_test :
        c.receiver ≡ at_loop
        → c.done_with_requests ≡ false
        → Step c (record c { receiver = in_recv })
    recv_stop :
        c.receiver ≡ at_loop → c.done_with_requests ≡ true → Step c (record c { receiver = closed })
    recv_frame :
        (f : List A)
        → c.receiver ≡ in_recv
        → f ≢ []
        → length f ≤ frame_size
        → Step c (record c {
          received = c.received ++ (f ∷ []);
          request_queue = c.request_queue ++ (f ∷ []);
          receiver = at_loop;
        })
    recv_end :
        c.receiver ≡ in_recv → Step c (record c { receiver = closed; done_with_requests = true })
    -- `_pull_from_req_queue`
    pull_test :
        c.puller ≡ at_test → c.done_with_requests ≡ false → Step c (record c { puller = at_get })
    pull_end :
        c.puller ≡ at_test → c.done_with_requests ≡ true → Step c (record c { puller = ended })
    pull_get :
        (f : List A) (q : List (List A))
        → c.puller ≡ at_get
        → c.request_queue ≡ f ∷ q
        → Step c (record c { pulled = c.pulled ++ (f ∷ []); request_queue = q; puller = at_test })
    pull_empty : c.puller ≡ at_get → c.request_queue ≡ [] → Step c (record c { puller = at_test })
    -- `remote_to_local`. `send` takes the first bytes of what it is given, and is given all of `buf`
    -- each time.
    size_some : c.writer ≡ at_size → c.response_queue ≢ [] → Step c (record c { writer = at_take })
    size_none : c.writer ≡ at_size → c.response_queue ≡ [] → Step c (record c { writer = at_event })
    event_clear :
        c.writer ≡ at_event → c.done_with_responses ≡ false → Step c (record c { writer = at_take })
    event_set :
        c.writer ≡ at_event → c.done_with_responses ≡ true → Step c (record c { writer = finished })
    take_some :
        (f : List A) (q : List (List A))
        → c.writer ≡ at_take
        → c.response_queue ≡ f ∷ q
        → Step c
            (record c { taken = c.taken ++ (f ∷ []); response_queue = q; writer = send_from f 0 })
    take_none : c.writer ≡ at_take → c.response_queue ≡ [] → Step c (record c { writer = at_size })
    send :
        (buf : List A) (x n : ℕ)
        → c.writer ≡ sending buf x
        → n ≤ length buf
        → Step c (record c {
          sent = c.sent ++ take n buf;
          has_split = c.has_split || ltb n (length buf);
          writer = send_from buf (x + n);
        })
    send_raised :
        (buf : List A) (x : ℕ) → c.writer ≡ sending buf x → Step c (record c { writer = died buf })

  -- Steps in any number, from any state.
  pub data Steps (c : Connection A) : Connection A → Type ℓ where
    here : Steps c c
    next : {d e : Connection A} → Steps c d → Step d e → Steps c e

  -- The states that the threads can reach.
  abbrev pub Reach : Connection A → Type ℓ
  Reach c = Steps (started A) c
