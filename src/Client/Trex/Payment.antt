-- ===== src/Client/Trex/Payment.antt =====
-- trex_client.py: when waiting for a payment ends.
use rx.Base.{
  ℕ, ◌<◌, ◌≤◌, ◌≡◌, refl, List, [], ◌∷◌, ◌++◌, arith, ◌==◌, nat_eq, Bool-cases, inl, inr, ap, sym,
  ◌∙◌, ◌⊎◌,
}
use rx.Proto.{Result, Reply, response, rpc_error}
use rx.Proto.StatusCode
use rx.Client.Trex.{
  Waiting, paid, waiting, stopped, timeout_error, Poll, wait_reply, wait_for_payment,
}

-- A reply with a response of this code.
abbrev pub Answers : Reply Result → ℕ → Type 0
Answers reply code = (r : Result) × (reply ≡ response r) × (r.code ≡ code)

-- Each of these polls is made in time and finds that a subscription is still required.
abbrev pub Pending : ℕ → List Poll → Type 0
Pending end [] = Unit
Pending end (p ∷ ps) =
    (p.now < end) × Answers p.reply StatusCode.subscription_required × Pending end ps

wait_reply-eq-paid :
    (reply : Reply Result) (later : Waiting)
    → wait_reply reply later ≡ paid
    → Answers reply StatusCode.okay
      ⊎ (Answers reply StatusCode.subscription_required × (later ≡ paid))
unfolding wait_reply
wait_reply-eq-paid (rpc_error e) later h = cc
wait_reply-eq-paid (response r) later h = elim (Bool-cases (r.code == StatusCode.okay)) [
  | inl e ↦ inl (r, refl, ground (arith, e))
  | inr e ↦ inr ((r, refl, ground (arith, e)), ground (arith, e))
]

wait_reply_pending :
    (reply : Reply Result) (later : Waiting)
    → Answers reply StatusCode.subscription_required
    → wait_reply reply later ≡ later
unfolding wait_reply
wait_reply_pending reply later (r, e, c) = ground arith

wait_step :
    (end : ℕ) (p : Poll) (ps : List Poll)
    → p.now < end
    → wait_for_payment end (p ∷ ps) ≡ wait_reply p.reply (wait_for_payment end ps)
unfolding wait_for_payment
wait_step end p ps h = ground arith

in_time : (end : ℕ) (p : Poll) (ps : List Poll) → wait_for_payment end (p ∷ ps) ≡ paid → p.now < end
unfolding wait_for_payment
in_time end p ps h = ground arith

-- Waiting returns only after a poll, made in time, that finds the subscription active, where every
-- poll before it was made in time and found it still required.
pub wait_for_payment_sound :
    (end : ℕ) (polls : List Poll)
    → wait_for_payment end polls ≡ paid
    → (before after : List Poll) × (p : Poll) × (polls ≡ before ++ (p ∷ after))
      × Pending end before
      × (p.now < end)
      × Answers p.reply StatusCode.okay
unfolding wait_for_payment
wait_for_payment_sound end [] h = cc
wait_for_payment_sound end (p ∷ ps) h =
    let early = in_time end p ps h in
    elim (wait_reply-eq-paid p.reply _ (sym (wait_step end p ps early) ∙ h)) [
      | inl good ↦ ([], ps, p, refl, tt, early, good)
      | inr (pending, later) ↦
          let (before, after, q, split, all, early', good) = wait_for_payment_sound end ps later in
          (p ∷ before, after, q, ap (λ xs. p ∷ xs) split, (early, pending, all), early', good)
    ]

-- While every poll is in time and finds that a subscription is still required, the wait goes on;
-- the first poll at or after the deadline ends it with a timeout.
pub wait_for_payment_timeout :
    (end : ℕ) (before after : List Poll) (p : Poll)
    → Pending end before
    → end ≤ p.now
    → (wait_for_payment end before ≡ waiting)
      × (wait_for_payment end (before ++ (p ∷ after)) ≡ stopped timeout_error)
unfolding wait_for_payment
wait_for_payment_timeout end [] after p h late = (refl, ground arith)
wait_for_payment_timeout end (q ∷ before) after p (early, pending, h) late =
    let (goes, ends) = wait_for_payment_timeout end before after p h late in
    (
      wait_step end q before early ∙ wait_reply_pending q.reply _ pending ∙ goes,
      wait_step end q (before ++ (p ∷ after)) early ∙ wait_reply_pending q.reply _ pending ∙ ends,
    )
