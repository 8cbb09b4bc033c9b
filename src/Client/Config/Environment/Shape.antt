-- ===== src/Client/Config/Environment/Shape.antt =====
-- local.py: the shape of a remote configuration, as a judgement on the values of its YAML file.
use rx.Base.{ℕ, String, Bool, true, ◌≡◌, Option, none, some, List, [], ◌∷◌, contains, string_eq}
use rx.Client.Config.Values.{
  Value, boolean, number, text, items, dict, Items, nil, cons, Fields, end, field, find,
}

pub data IsText : Value → Type 0 where
  a_text : (s : String) → IsText (text s)

pub data IsDict : Value → Type 0 where
  a_dict : (d : Fields) → IsDict (dict d)

-- A truth value is an integer of Python's.
pub data IsPort : Value → Type 0 where
  a_number : (n : ℕ) → IsPort (number n)
  a_boolean : (b : Bool) → IsPort (boolean b)

pub data Each (P : Value → Type 0) : Items → Type 0 where
  no_items : Each P nil
  one_more : (v : Value) (vs : Items) → P v → Each P vs → Each P (cons v vs)

-- Texts under some of these keys, and nothing else.
pub data TextsUnder (keys : List String) : Fields → Type 0 where
  no_fields : TextsUnder keys end
  one_field :
      (k : String) (v : Value) (d : Fields)
      → contains keys k ≡ true
      → IsText v
      → TextsUnder keys d
      → TextsUnder keys (field k v d)

pub data IsTexts (keys : List String) : Value → Type 0 where
  texts : (d : Fields) → TextsUnder keys d → IsTexts keys (dict d)

-- The loop over the tools also takes an empty dict and an empty text.
pub data IsToolchain : Value → Type 0 where
  tools : (vs : Items) → Each (IsTexts ("name" ∷ "version" ∷ [])) vs → IsToolchain (items vs)
  empty_dict : IsToolchain (dict end)
  empty_text : IsToolchain (text "")

pub data IsPorts : Value → Type 0 where
  single : (v : Value) → IsPort v → IsPorts v
  several : (vs : Items) → Each IsPort vs → IsPorts (items vs)

pub data Optional (P : Value → Type 0) : Option Value → Type 0 where
  absent : Optional P none
  present : (v : Value) → P v → Optional P (some v)

pub data IsRemote : Value → Type 0 where
  a_remote :
      (d : Fields)
      → Optional (IsTexts ("processor" ∷ [])) (find "hardware" d)
      → Optional IsToolchain (find "toolchain" d)
      → IsRemote (dict d)

pub data IsImage : Value → Type 0 where
  an_image :
      (d : Fields)
      → Optional IsText (find "registry" d)
      → Optional IsText (find "repository" d)
      → Optional IsDict (find "environment_variables" d)
      → Optional IsPorts (find "ports" d)
      → IsImage (dict d)

-- Any other key, and any tag, is accepted.
pub record IsShaped (d : Fields) : Type 0 where
  pub remote : Optional IsRemote (find "remote" d)
  pub image : Optional IsImage (find "image" d)
