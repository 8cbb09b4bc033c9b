-- ===== src/Client/Config/Environment/Accepting.antt =====
-- local.py: `env_dict_to_pb` takes exactly the configurations of that shape.
use rx.Base.{
  String, true, false, ◌≡◌, refl, ◌↔◌, Outcome, Option, none, some, List, [], ◌∷◌, ◌==◌, string_eq,
  ◌>>=◌, arith, Bool-cases, inl, inr,
}
use rx.Client.Config.Values.{
  Value, boolean, number, text, items, dict, Items, nil, cons, Fields, end, field, find,
}
use rx.Client.Config.Environment.{
  EnvError, Hardware, Tool, as_dict, as_text, hardware_of, tool_of, tools_of, toolchain_of,
  opt_hardware, remote_of, opt_text, variables_of, port_of, port_list, ports_of, image_fields,
  image_of, env_dict_to_pb,
}
use rx.Client.Config.Environment.Shape.{
  IsText, a_text, IsDict, a_dict, IsPort, a_number, a_boolean, Each, no_items, TextsUnder,
  no_fields, IsTexts, texts, IsToolchain, tools, empty_dict, empty_text, IsPorts, single, several,
  Optional, absent, present, IsRemote, a_remote, IsImage, an_image, IsShaped,
}
use rx.Client.Config.Environment.Chains.{
  Accepts, both, refused, along, last, one_more_iff, given, keyed, unkeyed,
}

as_text-accepts : (v : Value) → Accepts (as_text v) ↔ IsText v
unfolding as_text
as_text-accepts (text s) = (λ _. a_text s, λ _. (s, refl))
as_text-accepts _ = refused _ (λ h. elim h [ ])

port_of-accepts : (v : Value) → Accepts (port_of v) ↔ IsPort v
unfolding port_of
port_of-accepts (number n) = (λ _. a_number n, λ _. (n, refl))
port_of-accepts (boolean true) = (λ _. a_boolean true, λ _. (1, refl))
port_of-accepts (boolean false) = (λ _. a_boolean false, λ _. (0, refl))
port_of-accepts _ = refused _ (λ h. elim h [ ])

port_list-accepts : (vs : Items) → Accepts (port_list vs) ↔ Each IsPort vs
unfolding port_list
port_list-accepts nil = (λ _. no_items, λ _. ([], refl))
port_list-accepts (cons v vs) =
    along
      (both (port_of v) _ (port_of-accepts v) (λ p. last (port_list vs) _ (port_list-accepts vs)))
      (one_more_iff IsPort v vs)

of_items : (vs : Items) → Each IsPort vs ↔ IsPorts (items vs)
of_items vs = (λ ps. several vs ps, λ h. elim h [ single v p ↦ elim p [ ] | several vs ps ↦ ps ])

ports_of-accepts : (o : Option Value) → Accepts (ports_of o) ↔ Optional IsPorts o
unfolding ports_of
ports_of-accepts none = (λ _. absent, λ _. ([], refl))
ports_of-accepts (some (number n)) = (λ _. present _ (single _ (a_number n)), λ _. (n ∷ [], refl))
ports_of-accepts (some (boolean true)) =
    (λ _. present _ (single _ (a_boolean true)), λ _. (1 ∷ [], refl))
ports_of-accepts (some (boolean false)) =
    (λ _. present _ (single _ (a_boolean false)), λ _. (0 ∷ [], refl))
ports_of-accepts (some (items vs)) =
    along (along (port_list-accepts vs) (of_items vs)) (given IsPorts (items vs))
ports_of-accepts (some _) =
    refused _ (λ h. elim h [ present v p ↦ elim p [ single v q ↦ elim q [ ] ] ])

hardware_of-accepts :
    (d : Fields) (h : Hardware) → Accepts (hardware_of d h) ↔ TextsUnder ("processor" ∷ []) d
unfolding hardware_of
hardware_of-accepts end h = (λ _. no_fields, λ _. (h, refl))
hardware_of-accepts (field k v d) h = elim (Bool-cases (k == "processor")) [
  | inl e ↦ rw e (
      along (both (as_text v) _ (as_text-accepts v) (λ s. hardware_of-accepts d _))
        (keyed _ k v d (ground arith)))
  | inr e ↦ rw e (refused _ (unkeyed _ k v d (ground arith)))
]

tool_of-accepts :
    (d : Fields) (t : Tool) → Accepts (tool_of d t) ↔ TextsUnder ("name" ∷ "version" ∷ []) d
unfolding tool_of
tool_of-accepts end t = (λ _. no_fields, λ _. (t, refl))
tool_of-accepts (field k v d) t = elim (Bool-cases (k == "name")) [
  | inl e ↦ rw e (
      along (both (as_text v) _ (as_text-accepts v) (λ s. tool_of-accepts d _))
        (keyed _ k v d (ground arith)))
  | inr e ↦ elim (Bool-cases (k == "version")) [
    | inl f ↦ rw e (
        rw f (
          along (both (as_text v) _ (as_text-accepts v) (λ s. tool_of-accepts d _))
            (keyed _ k v d (ground arith))))
    | inr f ↦ rw e (rw f (refused _ (unkeyed _ k v d (ground arith))))
  ]
]

dict_iff :
    {P : Type 0} (keys : List String) (d : Fields)
    → P ↔ TextsUnder keys d
    → P ↔ IsTexts keys (dict d)
dict_iff keys d (f, g) = (λ p. texts d (f p), λ h. elim h [ texts d t ↦ g t ])

of_IsTexts :
    {A : Type 0} (keys : List String) (k : Fields → Outcome EnvError A)
    → ((d : Fields) → Accepts (k d) ↔ TextsUnder keys d)
    → (v : Value) → Accepts (as_dict v >>= k) ↔ IsTexts keys v
unfolding as_dict
of_IsTexts keys k h (dict d) = dict_iff keys d (h d)
of_IsTexts keys k h _ = refused _ (λ t. elim t [ ])

of_IsTexts_then :
    {A Q : Type 0} (keys : List String) (k : Fields → Outcome EnvError A)
    → ((d : Fields) → Accepts (k d) ↔ (TextsUnder keys d × Q))
    → (v : Value) → Accepts (as_dict v >>= k) ↔ (IsTexts keys v × Q)
unfolding as_dict
of_IsTexts_then keys k h (dict d) =
    along (h d) (λ (t, q). (texts d t, q), λ (t, q). elim t [ texts d u ↦ (u, q) ])
of_IsTexts_then keys k h _ = refused _ (λ (t, q). elim t [ ])

tools_of-accepts :
    (vs : Items) → Accepts (tools_of vs) ↔ Each (IsTexts ("name" ∷ "version" ∷ [])) vs
unfolding tools_of
tools_of-accepts nil = (λ _. no_items, λ _. ([], refl))
tools_of-accepts (cons v vs) =
    along
      (of_IsTexts_then _ _
        (λ d.
          both (tool_of d _) _ (tool_of-accepts d _)
            (λ t. last (tools_of vs) _ (tools_of-accepts vs)))
        v)
      (one_more_iff _ v vs)

empty_if : (s : String) → (s == "") ≡ true → IsToolchain (text s)
empty_if s e = let f : s ≡ "" = ground arith in rw f empty_text

not_empty : (s : String) → (s == "") ≡ false → IsToolchain (text s) → ⊥
not_empty _ e empty_text = ground arith

toolchain_of-accepts : (o : Option Value) → Accepts (toolchain_of o) ↔ Optional IsToolchain o
unfolding toolchain_of
toolchain_of-accepts none = (λ _. absent, λ _. ([], refl))
toolchain_of-accepts (some (items vs)) =
    along (along (tools_of-accepts vs) (λ h. tools vs h, λ h. elim h [ tools vs t ↦ t ]))
      (given IsToolchain (items vs))
toolchain_of-accepts (some (dict end)) = (λ _. present _ empty_dict, λ _. ([], refl))
toolchain_of-accepts (some (text s)) = elim (Bool-cases (s == "")) [
  | inl e ↦ rw e (λ _. present _ (empty_if s e), λ _. ([], refl))
  | inr e ↦ rw e (refused _ (λ h. elim h [ present v p ↦ not_empty s e p ]))
]
toolchain_of-accepts (some _) = refused _ (λ h. elim h [ present v p ↦ elim p [ ] ])

opt_hardware-accepts :
    (o : Option Value) → Accepts (opt_hardware o) ↔ Optional (IsTexts ("processor" ∷ [])) o
unfolding opt_hardware
opt_hardware-accepts none = (λ _. absent, λ _. (none, refl))
opt_hardware-accepts (some v) =
    along (of_IsTexts _ _ (λ d. last (hardware_of d _) (λ h. some h) (hardware_of-accepts d _)) v)
      (given _ v)

opt_text-accepts : (o : Option Value) → Accepts (opt_text o) ↔ Optional IsText o
unfolding opt_text
opt_text-accepts none = (λ _. absent, λ _. ("", refl))
opt_text-accepts (some v) = along (as_text-accepts v) (given IsText v)

variables_of-accepts :
    (repr : Value → String) (o : Option Value) → Accepts (variables_of repr o) ↔ Optional IsDict o
unfolding variables_of
variables_of-accepts repr none = (λ _. absent, λ _. ([], refl))
variables_of-accepts repr (some (dict d)) = (λ _. present _ (a_dict d), λ _. (_, refl))
variables_of-accepts repr (some _) = refused _ (λ h. elim h [ present v p ↦ elim p [ ] ])

remote_of-accepts : (o : Option Value) → Accepts (remote_of o) ↔ Optional IsRemote o
unfolding remote_of
remote_of-accepts none = (λ _. absent, λ _. (none, refl))
remote_of-accepts (some (dict d)) =
    along
      (both (opt_hardware (find "hardware" d)) _ (opt_hardware-accepts _)
        (λ h. last (toolchain_of (find "toolchain" d)) _ (toolchain_of-accepts _)))
      (along (λ (h, t). a_remote d h t, λ r. elim r [ a_remote d h t ↦ (h, t) ])
        (given IsRemote (dict d)))
remote_of-accepts (some _) = refused _ (λ h. elim h [ present v p ↦ elim p [ ] ])

image_fields-accepts :
    (repr : Value → String) (d : Fields) → Accepts (image_fields repr d) ↔ IsImage (dict d)
unfolding image_fields
image_fields-accepts repr d =
    along
      (both (opt_text (find "registry" d)) _ (opt_text-accepts _) (λ r.
        both (opt_text (find "repository" d)) _ (opt_text-accepts _) (λ p.
          both (variables_of repr (find "environment_variables" d)) _ (variables_of-accepts repr _)
            (λ v. last (ports_of (find "ports" d)) _ (ports_of-accepts _)))))
      (
        λ (r, (p, (v, ps))). an_image d r p v ps,
        λ i. elim i [ an_image d r p v ps ↦ (r, (p, (v, ps))) ],
      )

image_of-accepts :
    (repr : Value → String) (o : Option Value) → Accepts (image_of repr o) ↔ Optional IsImage o
unfolding image_of
image_of-accepts repr none = (λ _. absent, λ _. (none, refl))
image_of-accepts repr (some (dict d)) =
    along (last (image_fields repr d) (λ i. some i) (image_fields-accepts repr d))
      (given IsImage (dict d))
image_of-accepts repr (some _) = refused _ (λ h. elim h [ present v p ↦ elim p [ ] ])

pub env_dict_to_pb-accepts :
    (repr : Value → String) (d : Fields) → Accepts (env_dict_to_pb repr (some d)) ↔ IsShaped d
unfolding env_dict_to_pb
env_dict_to_pb-accepts repr d =
    along
      (both (remote_of (find "remote" d)) _ (remote_of-accepts _)
        (λ r. last (image_of repr (find "image" d)) _ (image_of-accepts repr _)))
      (λ (r, i). record { remote = r; image = i }, λ h. (h.remote, h.image))
