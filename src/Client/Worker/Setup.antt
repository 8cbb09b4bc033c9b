-- ===== src/Client/Worker/Setup.antt =====
-- worker_client.py: setting up a workspace.
use rx.Base.{
  ◌≡◌, ◌∙◌, refl, Bool, true, ok, raised, Option, some, List, [], ◌∷◌, ◌++◌, arith, nat_eq,
  if◌then◌else◌, Option-cases, inl, inr, ◌≢◌,
}
use rx.Base.Integers.{ℤ}
use rx.Proto.{Result, Stream}
use rx.Proto.StatusCode
use rx.Shared.Progress.{result_after}
use rx.Client.Worker.{
  WorkerError, relocation, setup_rsync, sync_to, sync_from, init_container, install_deps, Did, ◌>>◌,
  check_setup, check_sync, init_codes, init_stream, last_of, deps_result, deps, init,
}

>>-eq-ok {ℓ} :
    {A : Type ℓ} (m : Did (Unit {0})) (n : Did A) (a : A)
    → (m >> n).1 ≡ ok a
    → (m.1 ≡ ok tt) × (n.1 ≡ ok a) × ((m >> n).0 ≡ m.0 ++ n.0)
>>-eq-ok (done, ok tt) (more, r) a h = (refl, h, refl)
>>-eq-ok (done, raised e) (more, r) a h = cc

>>-eq-raised :
    (m n : Did (Unit {0})) (x : WorkerError)
    → (m >> n).1 ≡ raised x
    → m.1 ≢ raised x
    → n.1 ≡ raised x
>>-eq-raised (done, ok tt) (more, r) x h k = h
>>-eq-raised (done, raised e) (more, r) x h k = absurd (k h)

init_codes-ne-relocation : (rs : List Result) → init_codes rs ≢ raised relocation
unfolding init_codes
init_codes-ne-relocation [] h = cc
init_codes-ne-relocation (r ∷ rs) h = ground (arith, init_codes-ne-relocation rs)

init_stream-ne-relocation : (s : Stream Result) → (init_stream s).1 ≢ raised relocation
unfolding init_stream result_after
init_stream-ne-relocation s h = ground (arith, init_codes-ne-relocation s.items)

deps-eq-relocation :
    (should_sync : Bool) (s : Stream Result)
    → (deps should_sync s).1 ≡ raised relocation
    → (r : Result) × (last_of s.items ≡ some r) × (r.code ≡ StatusCode.moved)
unfolding deps deps_result
deps-eq-relocation should_sync s h = elim (Option-cases (last_of s.items)) [
  | inl e ↦ ground (arith, e)
  | inr (r, e) ↦ (r, e, ground (arith, e))
]

prepare-ne-relocation :
    (should_sync : Bool) (setup : Option Result) (has_name : ℤ → Bool) (status : ℤ)
    → (if should_sync then check_setup setup >> check_sync has_name status else ([], ok tt)).1
      ≢ raised relocation
unfolding check_setup check_sync
prepare-ne-relocation should_sync setup has_name status h = ground arith

-- Setting up reports that the workspace has moved only if the last response to `InstallDeps` does,
-- whatever the stream of `Init` gives.
pub init_relocation :
    (should_sync : Bool) (setup : Option Result) (has_name : ℤ → Bool) (status : ℤ)
    (containers installed : Stream Result)
    → (init should_sync setup has_name status containers installed).1 ≡ raised relocation
    → (r : Result) × (last_of installed.items ≡ some r) × (r.code ≡ StatusCode.moved)
unfolding init
init_relocation should_sync setup has_name status containers installed h =
    deps-eq-relocation should_sync installed (
      >>-eq-raised (init_stream containers) _ _
        (>>-eq-raised _ _ _ h (prepare-ne-relocation should_sync setup has_name status))
        (init_stream-ne-relocation containers))

actions-check_setup : (setup : Option Result) → (check_setup setup).0 ≡ setup_rsync ∷ []
unfolding check_setup
actions-check_setup setup = ground arith

actions-init_stream : (s : Stream Result) → (init_stream s).0 ≡ init_container ∷ []
unfolding init_stream
actions-init_stream s = ground arith

actions-deps :
    (s : Stream Result) → (deps true s).1 ≡ ok tt → (deps true s).0 ≡ install_deps ∷ sync_from ∷ []
unfolding deps deps_result
actions-deps s h = ground arith

-- A workspace that syncs is set up without an error only by all five parts, in this order.
pub init_order :
    (setup : Option Result) (has_name : ℤ → Bool) (status : ℤ)
    (containers installed : Stream Result)
    → (init true setup has_name status containers installed).1 ≡ ok tt
    → (init true setup has_name status containers installed).0
      ≡ setup_rsync ∷ sync_to ∷ init_container ∷ install_deps ∷ sync_from ∷ []
unfolding init check_sync
init_order setup has_name status containers installed h =
    let (p, q, e) = >>-eq-ok (check_setup setup >> check_sync has_name status) _ tt h in
    let (p1, p2, e1) = >>-eq-ok (check_setup setup) (check_sync has_name status) tt p in
    let (q1, q2, e2) = >>-eq-ok (init_stream containers) (deps true installed) tt q in
    e
    ∙ rw (e1, e2, actions-check_setup setup, actions-init_stream containers)
        (rw (actions-deps installed q2))
