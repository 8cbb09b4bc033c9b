-- ===== src/Worker/Stdin.antt =====
-- `StdinIterator` of rx/worker/executor.py: the thread of `loop` reads what is typed, and grpc calls
-- `__next__` from a thread of its own; a `with` block begins and ends it. A request is the command's
-- own, or what one `read` gives.
pub mod Order
pub mod Waiting
use rx.Base.{Bool, true, false, ◌≡◌, List, [], ◌∷◌, ◌++◌}

-- Where grpc's thread stands: outside of `__next__`, at the test of the buffer with the lock held,
-- in `wait`, or done since `StopIteration` was raised.
pub data Consumer : Type 0 where
  outside at_buffer waiting stopped : Consumer

-- Where `loop` stands: before its test, in `select`, before `read`, or done.
pub data Reader : Type 0 where
  at_loop in_select at_read done : Reader

-- `notify` wakes the thread that waits.
unfoldable pub woken : Consumer → Consumer
woken waiting = at_buffer
woken outside = outside
woken at_buffer = at_buffer
woken stopped = stopped

module _ {ℓ} (A : Type ℓ) where
  pub record Stdin : Type ℓ where
    pub running : Bool
    -- Whether the selector watches the input.
    pub registered : Bool
    pub stdin_buffer : List A
    pub consumer : Consumer
    pub reader : Reader
    -- All that `read` has given, and all that `__next__` has returned.
    pub typed : List A
    pub given : List A

module _ {ℓ} {A : Type ℓ} where
  -- `__init__` and `__enter__`
  unfoldable pub entered : A → Stdin A
  entered request = record {
    running = true;
    registered = true;
    stdin_buffer = request ∷ [];
    consumer = outside;
    reader = at_loop;
    typed = [];
    given = [];
  }

  -- One atomic step of one of the threads. The tests of `__next__` between two waits are one step:
  -- it holds the lock, which `got_stdin` takes too, and reads `_running` once.
  pub data Step (s : Stdin A) : Stdin A → Type ℓ where
    -- `__next__`
    next_called :
        s.consumer ≡ outside → s.running ≡ true → Step s (record s { consumer = at_buffer })
    next_refused :
        s.consumer ≡ outside → s.running ≡ false → Step s (record s { consumer = stopped })
    next_returned :
        (r : A) (q : List A)
        → s.consumer ≡ at_buffer
        → s.stdin_buffer ≡ r ∷ q
        → Step s (record s { stdin_buffer = q; given = s.given ++ (r ∷ []); consumer = outside })
    next_stopped :
        s.consumer ≡ at_buffer
        → s.stdin_buffer ≡ []
        → s.running ≡ false
        → Step s (record s { consumer = stopped })
    next_waits :
        s.consumer ≡ at_buffer
        → s.stdin_buffer ≡ []
        → s.running ≡ true
        → Step s (record s { consumer = waiting })
    -- `loop` and `got_stdin`
    loop_test : s.reader ≡ at_loop → s.running ≡ true → Step s (record s { reader = in_select })
    loop_end : s.reader ≡ at_loop → s.running ≡ false → Step s (record s { reader = done })
    select_none : s.reader ≡ in_select → Step s (record s { reader = at_loop })
    select_event :
        s.reader ≡ in_select → s.registered ≡ true → Step s (record s { reader = at_read })
    read_nothing : s.reader ≡ at_read → Step s (record s { reader = at_loop })
    read_some :
        (r : A)
        → s.reader ≡ at_read
        → Step s (record s {
          stdin_buffer = s.stdin_buffer ++ (r ∷ []);
          typed = s.typed ++ (r ∷ []);
          consumer = woken s.consumer;
          reader = at_loop;
        })
    -- `__exit__`
    exit_unregister : Step s (record s { registered = false })
    exit_running : s.registered ≡ false → Step s (record s { running = false })

  -- Any number of steps.
  pub data Steps (s : Stdin A) : Stdin A → Type ℓ where
    here : Steps s s
    next : {t u : Stdin A} → Steps s t → Step t u → Steps s u
