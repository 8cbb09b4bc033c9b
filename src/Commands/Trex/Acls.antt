-- ===== src/Commands/Trex/Acls.antt =====
-- set_acls.py: what the accepted options can ask for.
use rx.Base.{◌≡◌, ◌≢◌, refl, String, true, Option, none, some, [], ◌∷◌, ◌++◌, string_eq, arith}
use text.Mathlib.TextEquality.{eq_iff}
use rx.Commands.Trex.{AclOptions, accepts, acl_request, exclusive, given, or_text}

workspace-ne-image : ◌≢◌ {A = String} "workspace" "image"
workspace-ne-image = ground (arith, eq_iff "workspace" "image")

alone :
    (v r w : Option String) (resource : String)
    → exclusive (given v ++ (given r ++ (given w ++ (resource ∷ [])))) ≡ true
    → (or_text "" v ≡ "") × (or_text "" r ≡ "") × (or_text "" w ≡ "")
unfolding exclusive given or_text
alone none none none resource h = (refl, refl, refl)
alone none none (some w) resource h = cc
alone none (some r) none resource h = cc
alone none (some r) (some w) resource h = cc
alone (some v) none none resource h = cc
alone (some v) none (some w) resource h = cc
alone (some v) (some r) none resource h = cc
alone (some v) (some r) (some w) resource h = cc

for_image :
    (v r w resource : Option String)
    → exclusive (given v ++ (given r ++ (given w ++ given resource))) ≡ true
    → or_text "workspace" resource ≡ "image"
    → (or_text "" v ≡ "") × (or_text "" r ≡ "") × (or_text "" w ≡ "")
unfolding or_text given
for_image v r w none h e = absurd (workspace-ne-image e)
for_image v r w (some resource) h e = alone v r w resource h

accepts-exclusive :
    (o : AclOptions)
    → accepts o ≡ true
    → exclusive
        (given o.visibility ++ (given o.add_reader ++ (given o.add_writer ++ given o.resource)))
      ≡ true
unfolding accepts
accepts-exclusive o h = ground arith

-- A request for images that the parser accepts sets no visibility and adds no reader and no writer.
pub acl_request_image :
    (workspace_id : String) (o : AclOptions)
    → accepts o ≡ true
    → (acl_request workspace_id o).resource_type ≡ "image"
    → ((acl_request workspace_id o).visibility ≡ "")
      × ((acl_request workspace_id o).add_reader ≡ "")
      × ((acl_request workspace_id o).add_writer ≡ "")
unfolding accepts acl_request
acl_request_image workspace_id o h e =
    for_image o.visibility o.add_reader o.add_writer o.resource (accepts-exclusive o h) e
