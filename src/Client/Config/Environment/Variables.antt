-- ===== src/Client/Config/Environment/Variables.antt =====
-- local.py: the environment variables of a remote configuration.
use mathlib.Core.Option
use rx.Base.{String, ◌≡◌, ◌∙◌, refl, ap, ok, bind-ok, Option, none, some, [], arith, string_eq}
use rx.Base.Dict.{Dict, lookup, lookup-nil, lookup-insert}
use rx.Client.Config.Values.{Value, dict, Fields, end, field, find}
use rx.Client.Config.Environment.{
  Image, Environment, remote_of, variable_text, set_variables, variables_of, image_fields, image_of,
  env_dict_to_pb,
}

-- No key twice, as in every dict.
abbrev pub UniqueKeys : Fields → Type 0
UniqueKeys end = Unit
UniqueKeys (field k v d) = (find k d ≡ none) × UniqueKeys d

-- The value that a key has after the loop, from the one that it has before it.
abbrev after : (Value → String) → Option Value → Option String → Option String
after repr none old = old
after repr (some v) old = some (variable_text repr v)

lookup-set_variables :
    (repr : Value → String) (d : Fields) (vars : Dict String String) (k : String)
    → UniqueKeys d
    → lookup k (set_variables repr d vars) ≡ after repr (find k d) (lookup k vars)
unfolding set_variables find
lookup-set_variables repr end vars k u = refl
lookup-set_variables repr (field j v d) vars k (fresh, u) =
    lookup-set_variables repr d _ k u
    ∙ rw (lookup-insert k j (variable_text repr v) vars) (ground (arith, fresh))

image_fields_variables :
    (repr : Value → String) (i d : Fields) (img : Image)
    → image_fields repr i ≡ ok img
    → find "environment_variables" i ≡ some (dict d)
    → img.environment_variables ≡ set_variables repr d []
unfolding image_fields variables_of
image_fields_variables repr i d img h e = ground (arith, e)

map-after :
    (repr : Value → String) (v : Option Value)
    → after repr v none ≡ Option.map (variable_text repr) v
map-after repr none = refl
map-after repr (some v) = refl

-- Where a configuration is accepted whose image sets environment variables, no key twice, the message's image has
-- exactly those, each with its value's text; truth values are spelled as in YAML.
pub env_dict_to_pb_variables :
    (repr : Value → String) (cfg i d : Fields) (env : Environment) (k : String)
    → UniqueKeys d
    → find "image" cfg ≡ some (dict i)
    → find "environment_variables" i ≡ some (dict d)
    → env_dict_to_pb repr (some cfg) ≡ ok env
    → (img : Image) × (env.image ≡ some img)
      × (lookup k img.environment_variables ≡ Option.map (variable_text repr) (find k d))
unfolding env_dict_to_pb image_of
env_dict_to_pb_variables repr cfg i d env k u fi fd h =
    let (remote, _, h1) = bind-ok (remote_of (find "remote" cfg)) _ env h in
    let (image, h2, h3) = bind-ok (image_of repr (find "image" cfg)) _ env h1 in
    let (img, h4, h5) = bind-ok (image_fields repr i) (λ x. ok (some x)) image (rw fi at h2) in
    (
      img,
      cc,
      ap (lookup k) (image_fields_variables repr i d img h4 fd)
          ∙ lookup-set_variables repr d [] k u
          ∙ rw lookup-nil (map-after repr (find k d)),
    )
