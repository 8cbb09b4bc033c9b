-- ===== src/Client/Config/Store/Commit.antt =====
-- config_base.py: a `with` block either writes all its assignments or nothing.
use rx.Base.{
  String, ◌≡◌, ◌∙◌, refl, ap, Bool, true, false, Option, none, some, arith, ◌==◌, string_eq,
  if◌then◌else◌,
}
use rx.Client.Config.Values.{Value, Fields, end, field, find}
use rx.Client.Config.Store.{set_item, Body, done, failed, assign, run_body, with_config}

pub find-set_item :
    (j k : String) (v : Value) (d : Fields)
    → find j (set_item k v d) ≡ (if j == k then some v else find j d)
unfolding find set_item
find-set_item j k v end = refl
find-set_item j k v (field i w d) = ground (arith, find-set_item j k v d)

-- The last value that the body assigns to a key, and else the old one.
abbrev pub assigned : String → Body → Option Value → Option Value
assigned j done old = old
assigned j failed old = old
assigned j (assign k v body) old = assigned j body (if j == k then some v else old)

-- Whether the body returns.
abbrev pub returns : Body → Bool
returns done = true
returns failed = false
returns (assign k v body) = returns body

-- The entries of a file, none where it does not exist.
abbrev pub entries : Option Fields → Fields
entries none = end
entries (some d) = d

find-run_body :
    (body : Body) (d : Fields) (j : String)
    → find j (run_body body d).0 ≡ assigned j body (find j d)
unfolding run_body
find-run_body done d j = refl
find-run_body failed d j = refl
find-run_body (assign k v body) d j =
    find-run_body body (set_item k v d) j ∙ ap (assigned j body) (find-set_item j k v d)

run_body-returns : (body : Body) (d : Fields) → (run_body body d).1 ≡ returns body
unfolding run_body
run_body-returns done d = refl
run_body-returns failed d = refl
run_body-returns (assign k v body) d = run_body-returns body (set_item k v d)

-- After a `with` block whose body returns, every key of the file has the last value that the body
-- assigned to it, or the one it had; after a body that raises, the file is as it was.
pub with_config_commit :
    (body : Body) (file : Option Fields) (j : String)
    → find j (entries (with_config body file))
      ≡ (if returns body then assigned j body (find j (entries file)) else find j (entries file))
unfolding with_config
with_config_commit body none j = ground (arith, find-run_body body end j, run_body-returns body end)
with_config_commit body (some d) j = ground (arith, find-run_body body d j, run_body-returns body d)
