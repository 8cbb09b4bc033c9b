-- ===== src/Client/Subscribe.antt =====
-- rx/client/payment.py, and `subscribe` of rx/client/trex_client.py. The lines are those that the
-- user will type.
pub mod Paying
use rx.Base.{
  ℕ, String, Bool, true, false, Outcome, ok, raised, List, [], ◌∷◌, ◌==◌, string_eq, if◌then◌else◌,
}
use rx.Proto.{Reply, response, rpc_error, RpcError}
use rx.Client.Menu.{Asked, chosen, end_of_input, crashed, bool_prompt}
use rx.Client.Browser.{System, BrowserError, open_browser}
use rx.Client.Trex.{TrexFault, Poll, Waiting, paid, waiting, stopped, wait_for_payment}

pub data SubscribeFault : Type 0 where
  no_user_info no_input menu_assertion : SubscribeFault
  rpc_fault : RpcError → SubscribeFault
  browser_fault : BrowserError → SubscribeFault
  trex_fault : TrexFault → SubscribeFault

pub data Subscribed : Type 0 where
  declined subscribed still_waiting : Subscribed
  faulted : SubscribeFault → Subscribed

asked : Asked Bool → Outcome SubscribeFault Bool
asked (chosen pay rest) = ok pay
asked end_of_input = raised no_input
asked crashed = raised menu_assertion

-- `explain_subscription`
unfoldable pub explain_subscription : Bool → Bool → List String → Outcome SubscribeFault Bool
unfolding asked
explain_subscription has_config quiet lines =
    if has_config then asked (bool_prompt quiet "y" lines) else raised no_user_info

-- `payment.open_browser`, for the link of a `SubscribeInfo`.
unfoldable pub open_payment :
    (List String → Outcome BrowserError (Unit {0}))
    → System
    → String
    → Outcome BrowserError (Unit {0})
open_payment run system link = if link == "" then ok tt else open_browser run system link

ended : Waiting → Subscribed
ended paid = subscribed
ended waiting = still_waiting
ended (stopped e) = faulted (trex_fault e)

waits : ℕ → List Poll → Outcome BrowserError (Unit {0}) → Subscribed
unfolding ended
waits end polls (ok _) = ended (wait_for_payment end polls)
waits end polls (raised e) = faulted (browser_fault e)

pays : ℕ → List Poll → (String → Outcome BrowserError (Unit {0})) → Reply String → Subscribed
unfolding waits
pays end polls browse (response link) = waits end polls (browse link)
pays end polls browse (rpc_error e) = faulted (rpc_fault e)

agreed : Outcome SubscribeFault Bool → Subscribed → Subscribed
agreed (ok true) rest = rest
agreed (ok false) rest = declined
agreed (raised e) rest = faulted e

-- `subscribe`, from the reply of `GetSubscribeInfo`, the deadline and the polls.
unfoldable pub subscribe :
    Outcome SubscribeFault Bool
    → (String → Outcome BrowserError (Unit {0}))
    → Reply String
    → ℕ
    → List Poll
    → Subscribed
unfolding pays agreed
subscribe answer browse reply end polls = agreed answer (pays end polls browse reply)
