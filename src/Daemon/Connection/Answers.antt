-- ===== src/Daemon/Connection/Answers.antt =====
-- `_handle_request` of port_forwarder.py, and the loop of `handle` in client_socket.py, over what
-- `forward_to_port` of rx/client/worker_client.py makes of the worker's answers.
use rx.Base.{
  ℕ, ◌≡◌, ◌≢◌, refl, ◌∙◌, ap, sym, Bool, true, false, not, ◌&&◌, ◌==◌, nat_eq, is_some, Bool-cases,
  inl, inr, Outcome, ok, raised, Option, none, some, List, [], ◌∷◌, ◌++◌, map, arith,
}
use mathlib.Core.List.{append_assoc, append-nil}
use rx.Proto.{
  Result, result_of, RpcError, GrpcStatus, unavailable, failed_precondition, other_status,
}
use rx.Client.Worker.{WorkerError, worker_error, rsync_error, forward_to_port}
use rx.Daemon.Connection.{
  Handler, forwarding, draining, joining, Connection, Steps, here, next, answer, answer_end,
  answer_raised,
}
use rx.Daemon.Connection.Returning.{onward}

-- The result of a response of the worker, if it is set, and the frame.
abbrev pub Response : Type 0
Response = Option Result × List ℕ

-- How the thread of a connection ends: as it should, with a `WorkerError` in the log, or by an
-- exception.
pub data Ended : Type 0 where
  handled logged uncaught : Ended

-- The loop of `handle` over what the generator yields: the frames that it puts on the queue, and how
-- it ends.
unfoldable pub put_answers :
    List (List ℕ) → Outcome WorkerError (Unit {0}) → List (List ℕ) × Outcome WorkerError (Unit {0})
put_answers [] end = ([], end)
put_answers ([] ∷ frames) end = ([], ok tt)
put_answers ((b ∷ bs) ∷ frames) end =
    let (queued, o) = put_answers frames end in ((b ∷ bs) ∷ queued, o)

-- The `try` of `_handle_request`.
unfoldable pub request_end : Outcome WorkerError (Unit {0}) → Ended
request_end (ok _) = handled
request_end (raised (worker_error code)) = logged
request_end (raised rsync_error) = logged
request_end (raised _) = uncaught

handled_with : List (List ℕ) × Outcome WorkerError (Unit {0}) → List (List ℕ) × Ended
unfolding request_end
handled_with (frames, end) = (frames, request_end end)

put_all :
    List (List ℕ) × Outcome WorkerError (Unit {0}) → List (List ℕ) × Outcome WorkerError (Unit {0})
unfolding put_answers
put_all (frames, end) = put_answers frames end

-- `_handle_request`, once the client has sent something: what its `handle` puts on the queue, and how
-- its thread ends.
unfoldable pub handle_request : List Response → Option RpcError → List (List ℕ) × Ended
unfolding handled_with put_all forward_to_port
handle_request responses failure = handled_with (put_all (forward_to_port responses failure))

abbrev pub is_error : Option Result → Bool
is_error r = is_some r && not ((result_of r).code == 0)

-- A response that is forwarded.
abbrev pub IsForwarded : Response → Type 0
IsForwarded (r, frame) = (is_error r ≡ false) × (frame ≢ [])

pub data AllForwarded : List Response → Type 0 where
  none_left : AllForwarded []
  one_more :
      (p : Response) (ps : List Response) → IsForwarded p → AllForwarded ps → AllForwarded (p ∷ ps)

-- How the thread ends at the first response that is not forwarded, or without one.
pub data Stops : List Response → Option RpcError → Ended → Type 0 where
  complete : Stops [] none handled
  disconnected : (e : RpcError) → e.code ≡ unavailable → Stops [] (some e) uncaught
  refused : (e : RpcError) → e.code ≢ unavailable → Stops [] (some e) logged
  reported :
      (r : Option Result) (frame : List ℕ) (ps : List Response) (failure : Option RpcError)
      → is_error r ≡ true
      → Stops ((r, frame) ∷ ps) failure logged
  without_frame :
      (r : Option Result) (ps : List Response) (failure : Option RpcError)
      → is_error r ≡ false
      → Stops ((r, []) ∷ ps) failure handled

pub record Cut (responses : List Response) (failure : Option RpcError) : Type 0 where
  pub before : List Response
  pub after : List Response
  pub split : responses ≡ before ++ after
  pub forwarded : AllForwarded before
  pub queued : (handle_request responses failure).0 ≡ map (λ p. p.1) before
  pub stops : Stops after failure (handle_request responses failure).1

handle_request_error :
    (r : Option Result) (frame : List ℕ) (ps : List Response) (failure : Option RpcError)
    → is_error r ≡ true
    → handle_request ((r, frame) ∷ ps) failure ≡ ([], logged)
unfolding handle_request forward_to_port handled_with put_all put_answers request_end
handle_request_error r frame ps failure e = rw e refl

handle_request_empty :
    (r : Option Result) (ps : List Response) (failure : Option RpcError)
    → is_error r ≡ false
    → handle_request ((r, []) ∷ ps) failure ≡ ([], handled)
unfolding handle_request forward_to_port handled_with put_all put_answers request_end
handle_request_empty r ps failure e = rw e refl

handle_request_frame :
    (r : Option Result) (b : ℕ) (bs : List ℕ) (ps : List Response) (failure : Option RpcError)
    → is_error r ≡ false
    → handle_request ((r, b ∷ bs) ∷ ps) failure
      ≡ ((b ∷ bs) ∷ (handle_request ps failure).0, (handle_request ps failure).1)
unfolding handle_request forward_to_port handled_with put_all put_answers request_end
handle_request_frame r b bs ps failure e = rw e refl

handle_request_disconnected :
    (e : RpcError) → e.code ≡ unavailable → handle_request [] (some e) ≡ ([], uncaught)
unfolding handle_request forward_to_port handled_with put_all put_answers request_end
handle_request_disconnected e h = rw h refl

handle_request_failed :
    (e : RpcError) (code : GrpcStatus)
    → e.code ≡ code
    → code ≢ unavailable
    → handle_request [] (some e) ≡ ([], logged)
unfolding handle_request forward_to_port handled_with put_all put_answers request_end
handle_request_failed e unavailable h n = elim (n refl) [ ]
handle_request_failed e failed_precondition h n = rw h refl
handle_request_failed e other_status h n = rw h refl

Cut-here :
    (responses : List Response) (failure : Option RpcError) (end : Ended)
    → Stops responses failure end
    → handle_request responses failure ≡ ([], end)
    → Cut responses failure
Cut-here responses failure end h e = record {
  before = [];
  after = responses;
  split = refl;
  forwarded = none_left;
  queued = ap (λ p. p.0) e;
  stops = rw e h;
}

Cut-failed : (e : RpcError) (code : GrpcStatus) → e.code ≡ code → Cut [] (some e)
Cut-failed e unavailable h =
    Cut-here [] (some e) uncaught (disconnected e h) (handle_request_disconnected e h)
Cut-failed e code h =
    Cut-here [] (some e) logged (refused e (λ u. ground (arith, u, h)))
      (handle_request_failed e code h (λ u. ground (arith, u)))

Cut-later :
    (r : Option Result) (b : ℕ) (bs : List ℕ) (ps : List Response) (failure : Option RpcError)
    → is_error r ≡ false
    → Cut ps failure
    → Cut ((r, b ∷ bs) ∷ ps) failure
Cut-later r b bs ps failure e c =
    let h = handle_request_frame r b bs ps failure e in
    record {
      before = (r, b ∷ bs) ∷ c.before;
      after = c.after;
      split = ap (λ xs. (r, b ∷ bs) ∷ xs) c.split;
      forwarded = one_more (r, b ∷ bs) c.before (e, λ n. ground (arith, n)) c.forwarded;
      queued = ap (λ p. p.0) h ∙ ap (λ xs. (b ∷ bs) ∷ xs) c.queued;
      stops = rw h c.stops;
    }

Cut-without_error :
    (r : Option Result) (frame : List ℕ) (ps : List Response) (failure : Option RpcError)
    → is_error r ≡ false
    → Cut ps failure
    → Cut ((r, frame) ∷ ps) failure
Cut-without_error r [] ps failure e c =
    Cut-here _ failure handled (without_frame r ps failure e) (handle_request_empty r ps failure e)
Cut-without_error r (b ∷ bs) ps failure e c = Cut-later r b bs ps failure e c

Cut-first :
    (r : Option Result) (frame : List ℕ) (ps : List Response) (failure : Option RpcError)
    → Cut ps failure
    → Cut ((r, frame) ∷ ps) failure
Cut-first r frame ps failure c = elim (Bool-cases (is_error r)) [
  | inl e ↦
      Cut-here _ failure logged (reported r frame ps failure e)
        (handle_request_error r frame ps failure e)
  | inr e ↦ Cut-without_error r frame ps failure e c
]

every_Cut : (responses : List Response) (failure : Option RpcError) → Cut responses failure
unfolding handle_request forward_to_port handled_with put_all put_answers request_end
every_Cut [] none = Cut-here [] none handled complete refl
every_Cut [] (some e) = Cut-failed e e.code refl
every_Cut ((r, frame) ∷ ps) failure = Cut-first r frame ps failure (every_Cut ps failure)

put-Steps :
    (c : Connection ℕ) (ps : List Response)
    → AllForwarded ps
    → c.handler ≡ forwarding
    → (d : Connection ℕ) × Steps c d
      × (d.answered ≡ c.answered ++ map (λ p. p.1) ps)
      × (d.handler ≡ forwarding)
put-Steps c [] none_left h = (c, here, sym (append-nil c.answered), h)
put-Steps c (p ∷ ps) (one_more _ _ f fs) h =
    let (d, s, a, e) = put-Steps _ ps fs h in
    (
      d,
      onward (next here (answer p.1 h f.1)) s,
      a ∙ append_assoc c.answered (p.1 ∷ []) (map (λ q. q.1) ps),
      e,
    )

-- Where `handle` stands after its loop.
pub handler_after : Ended → Handler
handler_after handled = draining
handler_after logged = joining
handler_after uncaught = joining

end-Steps :
    (c : Connection ℕ) (end : Ended)
    → c.handler ≡ forwarding
    → (d : Connection ℕ) × Steps c d × (d.answered ≡ c.answered) × (d.handler ≡ handler_after end)
unfolding handler_after
end-Steps c handled h = (_, next here (answer_end h), refl, refl)
end-Steps c logged h = (_, next here (answer_raised h), refl, refl)
end-Steps c uncaught h = (_, next here (answer_raised h), refl, refl)

pub handle_request_forwards :
    (responses : List Response) (failure : Option RpcError) (c : Connection ℕ)
    → c.handler ≡ forwarding
    → Cut responses failure
      × ((d : Connection ℕ) × Steps c d
          × (d.answered ≡ c.answered ++ (handle_request responses failure).0)
          × (d.handler ≡ handler_after (handle_request responses failure).1))
handle_request_forwards responses failure c h =
    let k = every_Cut responses failure in
    let (d, s, a, e) = put-Steps c k.before k.forwarded h in
    let (x, t, b, f) = end-Steps d (handle_request responses failure).1 e in
    (k, (x, onward s t, b ∙ a ∙ ap (λ fs. c.answered ++ fs) (sym k.queued), f))
