-- ===== src/Worker/Executor/Responses.antt =====
-- executor.py together with output_handler.py: what is left after all responses.
use mathlib.Core.List.{append-nil, append_assoc}
use rx.Base.{
  ℕ, String, Bool-cases, inl, inr, false, ◌≡◌, refl, ◌∙◌, ◌||◌, Option, none, some, List, [], ◌∷◌,
  ◌++◌, arith, contains, Distinct, string_eq, ◌==◌,
}
use rx.Worker.Executor.{ExecResponse, Progress, add_output, handle, take_response, run_loop, run}

-- All standard output, and all output files, of some responses.
abbrev pub all_out : List ExecResponse → List ℕ
all_out [] = []
all_out (r ∷ rs) = r.stdout ++ all_out rs

abbrev pub all_files : List ExecResponse → List String
all_files [] = []
all_files (r ∷ rs) = r.output_files ++ all_files rs

contains-append :
    (xs ys : List String) (a : String) → contains (xs ++ ys) a ≡ (contains xs a || contains ys a)
contains-append [] ys a = refl
contains-append (x ∷ xs) ys a = ground (arith, contains-append xs ys a)

Distinct-append :
    (xs : List String) (a : String)
    → Distinct xs
    → contains xs a ≡ false
    → Distinct (xs ++ (a ∷ []))
Distinct-append [] a d h = (refl, tt)
Distinct-append (x ∷ xs) a (fresh, d) h =
    (ground (arith, contains-append xs (a ∷ []) x), Distinct-append xs a d (ground arith))

contains-add_output :
    (outputs : List String) (path a : String)
    → contains (add_output outputs path) a ≡ (contains outputs a || (a == path))
unfolding add_output
contains-add_output outputs path a = ground (arith, contains-append outputs (path ∷ []) a)

add_output-Distinct :
    (outputs : List String) (path : String) → Distinct outputs → Distinct (add_output outputs path)
unfolding add_output
add_output-Distinct outputs path d = elim (Bool-cases (contains outputs path)) [
  | inl e ↦ rw e d
  | inr e ↦ rw e (Distinct-append outputs path d e)
]

contains-handle :
    (paths outputs : List String) (a : String)
    → contains (handle paths outputs) a ≡ (contains outputs a || contains paths a)
unfolding handle
contains-handle [] outputs a = ground arith
contains-handle (path ∷ paths) outputs a =
    ground
      (arith, contains-handle paths (add_output outputs path) a, contains-add_output outputs path a)

handle-Distinct : (paths outputs : List String) → Distinct outputs → Distinct (handle paths outputs)
unfolding handle
handle-Distinct [] outputs d = d
handle-Distinct (path ∷ paths) outputs d =
    handle-Distinct paths _ (add_output-Distinct outputs path d)

run_loop_out :
    (rs : List ExecResponse) (last : Option ExecResponse) (p : Progress)
    → (run_loop rs last p).1.out ≡ p.out ++ all_out rs
unfolding run_loop take_response
run_loop_out [] last p = rw append-nil
run_loop_out (r ∷ rs) last p = run_loop_out rs (some r) _ ∙ append_assoc p.out r.stdout (all_out rs)

run_loop_outputs :
    (rs : List ExecResponse) (last : Option ExecResponse) (p : Progress) (a : String)
    → contains (run_loop rs last p).1.outputs a
      ≡ (contains p.outputs a || contains (all_files rs) a)
unfolding run_loop take_response
run_loop_outputs [] last p a = ground arith
run_loop_outputs (r ∷ rs) last p a = ground (
  arith,
  run_loop_outputs rs (some r) (take_response r p) a,
  contains-handle r.output_files p.outputs a,
  contains-append r.output_files (all_files rs) a,
)

run_loop-Distinct :
    (rs : List ExecResponse) (last : Option ExecResponse) (p : Progress)
    → Distinct p.outputs
    → Distinct (run_loop rs last p).1.outputs
unfolding run_loop take_response
run_loop-Distinct [] last p d = d
run_loop-Distinct (r ∷ rs) last p d =
    run_loop-Distinct rs (some r) _ (handle-Distinct r.output_files p.outputs d)

pub run_collects :
    (rs : List ExecResponse) (p : Progress) (a : String)
    → Distinct p.outputs
    → ((run rs p).1.out ≡ p.out ++ all_out rs)
      × (contains (run rs p).1.outputs a ≡ (contains p.outputs a || contains (all_files rs) a))
      × Distinct (run rs p).1.outputs
unfolding run
run_collects rs p a d =
    (run_loop_out rs none p, run_loop_outputs rs none p a, run_loop-Distinct rs none p d)
