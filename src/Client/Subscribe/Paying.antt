-- ===== src/Client/Subscribe/Paying.antt =====
-- payment.py with trex_client.py and menu.py: when somebody has subscribed.
use rx.Base.{
  ℕ, ◌≡◌, ◌<◌, refl, String, Bool, true, false, Outcome, ok, raised, List, ◌∷◌, ◌++◌, arith,
}
use rx.Proto.{Reply, response, rpc_error}
use rx.Proto.StatusCode
use rx.Client.Menu.{Asked, chosen, end_of_input, crashed, bool_prompt}
use rx.Client.Browser.{BrowserError}
use rx.Client.Trex.{Poll, Waiting, paid, wait_for_payment}
use rx.Client.Trex.Payment.{Answers, Pending, wait_for_payment_sound}
use rx.Client.Subscribe.{
  SubscribeFault, Subscribed, subscribed, explain_subscription, asked, agreed, pays, waits, ended,
  subscribe,
}

ended-eq-subscribed : (w : Waiting) → ended w ≡ subscribed → w ≡ paid
unfolding ended
ended-eq-subscribed w h = ground arith

waits-eq-subscribed :
    (end : ℕ) (polls : List Poll) (browsed : Outcome BrowserError (Unit {0}))
    → waits end polls browsed ≡ subscribed
    → ended (wait_for_payment end polls) ≡ subscribed
unfolding waits
waits-eq-subscribed end polls (ok _) h = h
waits-eq-subscribed end polls (raised e) h = ground arith

pays-eq-subscribed :
    (end : ℕ) (polls : List Poll) (browse : String → Outcome BrowserError (Unit {0}))
    (reply : Reply String)
    → pays end polls browse reply ≡ subscribed
    → wait_for_payment end polls ≡ paid
unfolding pays
pays-eq-subscribed end polls browse (rpc_error e) h = ground arith
pays-eq-subscribed end polls browse (response link) h =
    ended-eq-subscribed _ (waits-eq-subscribed end polls (browse link) h)

agreed-eq-subscribed :
    (answer : Outcome SubscribeFault Bool) (rest : Subscribed)
    → agreed answer rest ≡ subscribed
    → (answer ≡ ok true) × (rest ≡ subscribed)
unfolding agreed
agreed-eq-subscribed answer rest h = ground arith

asked-eq-ok : (a : Asked Bool) → asked a ≡ ok true → (rest : List String) × (a ≡ chosen true rest)
unfolding asked
asked-eq-ok (chosen true rest) h = (rest, refl)
asked-eq-ok (chosen false rest) h = ground arith
asked-eq-ok end_of_input h = ground arith
asked-eq-ok crashed h = ground arith

explained :
    (has_config quiet : Bool) (lines : List String)
    → explain_subscription has_config quiet lines ≡ ok true
    → (has_config ≡ true)
      × ((rest : List String) × (bool_prompt quiet "y" lines ≡ chosen true rest))
unfolding explain_subscription
explained true quiet lines h = (refl, asked-eq-ok _ h)
explained false quiet lines h = ground arith

-- A subscription is made only if there is a file of the user and the user said yes, or asked with
-- `--quiet` for the default; and `rx subscribe` then returns only after a poll, made in time, that
-- finds the subscription active, where every poll before it was in time and found it still required.
pub subscribe_sound :
    (has_config quiet : Bool) (lines : List String)
    (browse : String → Outcome BrowserError (Unit {0})) (reply : Reply String) (end : ℕ)
    (polls : List Poll)
    → subscribe (explain_subscription has_config quiet lines) browse reply end polls ≡ subscribed
    → (has_config ≡ true)
      × ((rest : List String) × (bool_prompt quiet "y" lines ≡ chosen true rest))
      × ((before after : List Poll) × (p : Poll) × (polls ≡ before ++ (p ∷ after))
          × Pending end before
          × (p.now < end)
          × Answers p.reply StatusCode.okay)
unfolding subscribe
subscribe_sound has_config quiet lines browse reply end polls h =
    let (answered, rest) = agreed-eq-subscribed _ _ h in
    let (has, said) = explained has_config quiet lines answered in
    (has, said, wait_for_payment_sound end polls (pays-eq-subscribed end polls browse reply rest))
