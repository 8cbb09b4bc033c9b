-- ===== src/Client/Trex/Workspace.antt =====
-- trex_client.py together with config_base.py: what the remote configuration's file holds afterwards.
use rx.Base.{
  String, ◌≡◌, ◌∙◌, refl, Outcome, ok, Option, none, some, true, raised, arith, List, [], ◌∷◌, ◌++◌,
  ◌==◌, nat_eq, string_eq, if◌then◌else◌, Bool-cases, inl, inr,
}
use rx.Proto.{Stream, Reply, response, rpc_error}
use rx.Proto.StatusCode
use rx.Client.Config.Values.{Value, Fields, find, text}
use rx.Client.Config.Store.{done, assign}
use rx.Client.Config.Store.Commit.{entries, assigned, with_config_commit}
use rx.Client.Login.{LoginError}
use rx.Client.Worker.{WorkerError}
use rx.Client.Trex.{InitResponse, remote_body, init, Status, last_status, unfrozen, unfreeze}

-- If the server accepts `init`, the file gets the three entries of its response, also where setting
-- up the worker fails afterwards; if it does not, the file is as it was. No other entry changes.
pub init_file :
    (r : InitResponse) (login : Outcome LoginError (Unit {0}))
    (worker : Outcome WorkerError (Unit {0})) (file : Option Fields) (j : String)
    → find j (entries (init (ok tt) (response r) login worker file).0) ≡ (
        if r.result.code == 0
        then assigned j (remote_body r) (find j (entries file))
        else find j (entries file))
unfolding init
init_file r login worker file j = elim (Bool-cases (r.result.code == 0)) [
  | inl e ↦ rw (e, init) (with_config_commit (remote_body r) file j)
  | inr e ↦ rw (e, init)
]

-- A workspace is made only if the server accepts `init`.
pub init_accepted :
    (target : Outcome String (Unit {0})) (reply : Reply InitResponse)
    (login : Outcome LoginError (Unit {0})) (worker : Outcome WorkerError (Unit {0}))
    (file : Option Fields) (id : String)
    → (init target reply login worker file).1 ≡ ok id
    → (r : InitResponse) × (target ≡ ok tt) × (reply ≡ response r) × (r.result.code == 0 ≡ true)
unfolding init
init_accepted (raised m) reply login worker file id h = absurd (ground (arith, h))
init_accepted (ok _) (rpc_error e) login worker file id h = absurd (ground (arith, h))
init_accepted (ok _) (response r) login worker file id h = elim (Bool-cases (r.result.code == 0)) [
  | inl e ↦ (r, refl, refl, e)
  | inr e ↦ absurd (ground (arith, h, e))
]

setting_written :
    (r : InitResponse) (login : Outcome LoginError (Unit {0}))
    (worker : Outcome WorkerError (Unit {0})) (file : Option Fields) (j : String) (v : Value)
    → r.result.code == 0 ≡ true
    → assigned j (remote_body r) (find j (entries file)) ≡ some v
    → find j (entries (init (ok tt) (response r) login worker file).0) ≡ some v
setting_written r login worker file j v e h = init_file r login worker file j ∙ rw e h

-- Then the file has the address and the id of the response.
pub init_settings :
    (target : Outcome String (Unit {0})) (reply : Reply InitResponse)
    (login : Outcome LoginError (Unit {0})) (worker : Outcome WorkerError (Unit {0}))
    (file : Option Fields) (id : String)
    → (init target reply login worker file).1 ≡ ok id
    → (r : InitResponse) × (find "worker_addr" (entries (init target reply login worker file).0)
        ≡ some (text r.worker_addr))
      × (find "workspace_id" (entries (init target reply login worker file).0)
          ≡ some (text r.workspace_id))
unfolding remote_body string_eq
init_settings target reply login worker file id h =
    let (r, t, p, e) = init_accepted target reply login worker file id h in
    (
      r,
      rw (t, p) (setting_written r login worker file "worker_addr" _ e refl),
      rw (t, p) (setting_written r login worker file "workspace_id" _ e refl),
    )

last_status_snoc : (before : List Status) (s : Status) → last_status (before ++ (s ∷ [])) ≡ some s
unfolding last_status
last_status_snoc [] s = refl
last_status_snoc (t ∷ []) s = refl
last_status_snoc (t ∷ u ∷ rest) s = last_status_snoc (u ∷ rest) s

-- A stream of statuses that does not fail.
abbrev pub ending_with : List Status → Status → Stream Status
ending_with before s = record { items = before ++ (s ∷ []); failure = none }

-- After a stream of statuses the file's worker address is the last one's, if its code is OK, and
-- else the old one; no other entry changes, and the result is the last status's.
pub unfreeze_file :
    (before : List Status) (s : Status) (file : Option Fields) (j : String)
    → (find j (entries (unfreeze (ending_with before s) file).0) ≡ (
        if s.result.code == StatusCode.okay
        then assigned j (assign "worker_addr" (text s.worker_addr) done) (find j (entries file))
        else find j (entries file)))
      × ((unfreeze (ending_with before s) file).1 ≡ ok s.result)
unfolding unfreeze
unfreeze_file before s file j = elim (Bool-cases (s.result.code == StatusCode.okay)) [
  | inl e ↦
      rw (last_status_snoc before s, unfrozen, e)
        (with_config_commit (assign "worker_addr" (text s.worker_addr) done) file j, refl)
  | inr e ↦ rw (last_status_snoc before s, unfrozen, e) (refl, refl)
]
