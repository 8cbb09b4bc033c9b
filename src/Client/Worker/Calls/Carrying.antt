-- ===== src/Client/Worker/Calls/Carrying.antt =====
-- worker_client.py: what the calls of the client carry, by the law of the login manager.
use rx.Base.{
  Bool, false, Bool-cases, inl, inr, suc, ◌≡◌, refl, ap, String, Outcome, Outcome-cases, Option,
  none, some, List, [], ◌∷◌, map, ℕ,
}
use rx.Base.Integers.{ℤ}
use rx.Base.Lists.{take}
use rx.Proto.{Result, Stream}
use rx.Worker.Executor.{Progress}
use rx.Client.Worker.{WorkerError, Action, RunEnd, init, exec}
use rx.Client.Worker.Calls.{
  Metadata, Authenticator, Calls, is_remote, walk, with_metadata, without_metadata, init_calls,
  exec_calls,
}

module _ (auth : Authenticator) where
  open auth use {State, metadata, IsGood, metadata-IsGood}

  -- Each call of the stub carries good metadata.
  abbrev pub AllCarry : Calls → Type 0
  AllCarry [] = Unit
  AllCarry ((a, none) ∷ calls) = (is_remote a ≡ false) × AllCarry calls
  AllCarry ((a, some m) ∷ calls) = IsGood m × AllCarry calls

  -- The actions that were taken.
  abbrev pub taken : Calls → List Action
  taken calls = map (λ c. c.0) calls

  -- Good calls, which are the first of some actions.
  pub record AreCalls (actions : List Action) (calls : Calls) : Type 0 where
    pub good : AllCarry calls
    pub first : (n : ℕ) × (taken calls ≡ take n actions)

  one_more :
      (a : Action) (actions : List Action) (m : Option Metadata) (calls : Calls)
      → AllCarry ((a, m) ∷ [])
      → AreCalls actions calls
      → AreCalls (a ∷ actions) ((a, m) ∷ calls)
  one_more a actions none calls (h, _) c = record {
    good = (h, c.good);
    first = (suc c.first.0, ap (λ more. a ∷ more) c.first.1);
  }
  one_more a actions (some m) calls (h, _) c = record {
    good = (h, c.good);
    first = (suc c.first.0, ap (λ more. a ∷ more) c.first.1);
  }

  walk-AreCalls : (actions : List Action) (s : State) → AreCalls actions (walk auth actions s).0
  unfolding walk
  walk-AreCalls [] s = record { good = tt; first = (0, refl) }
  walk-AreCalls (a ∷ actions) s = elim (Bool-cases (is_remote a)) [
    | inr local ↦
        rw (local, without_metadata)
          (one_more a actions none _ (local, tt) (walk-AreCalls actions s))
    | inl remote ↦ elim (Outcome-cases (metadata s).1) [
      | inr (e, r) ↦ rw (remote, r, with_metadata) (record { good = tt; first = (0, refl) })
      | inl (m, r) ↦
          rw (remote, r, with_metadata)
            (one_more a actions (some m) _ (metadata-IsGood s m r, tt)
              (walk-AreCalls actions (metadata s).0))
    ]
  ]

  -- Whatever the outcomes, and whenever a login error ends it, `exec` and `init` of the client take
  -- the first of the actions that they would take with a login that never fails, in that order, and
  -- each call of the stub among them carries metadata that the login manager has just given as good.
  pub exec_calls-AreCalls :
      (should_sync : Bool) (status : ℤ) (cwd : Outcome WorkerError (Option String))
      (argv : List String) (p : Progress) (end : RunEnd) (setup : Option Result)
      (has_name : ℤ → Bool) (containers installed : Stream Result) (s : State)
      → AreCalls
          (exec should_sync status cwd argv p end).0
          (exec_calls auth should_sync status cwd argv p end s).0
        × AreCalls
            (init should_sync setup has_name status containers installed).0
            (init_calls auth should_sync setup has_name status containers installed s).0
  unfolding exec_calls init_calls
  exec_calls-AreCalls should_sync status cwd argv p end setup has_name containers installed s =
      (walk-AreCalls _ s, walk-AreCalls _ s)
