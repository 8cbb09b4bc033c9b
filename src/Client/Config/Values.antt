-- ===== src/Client/Config/Values.antt =====
-- The values that `yaml.safe_load` gives. Integers are not negative; another number is kept by what
-- `str` makes of it.
use rx.Base.{ℕ, String, Bool, true, false, Option, none, some, ◌==◌, string_eq, if◌then◌else◌}
use rx.Base.Text.{show}

mutual
  pub data Value : Type 0 where
    null : Value
    boolean : Bool → Value
    number : ℕ → Value
    decimal : String → Value
    text : String → Value
    items : Items → Value
    dict : Fields → Value

  pub data Items : Type 0 where
    nil : Items
    cons : Value → Items → Items

  pub data Fields : Type 0 where
    end : Fields
    field : String → Value → Fields → Fields

-- `d.get(key)`
unfoldable pub find : String → Fields → Option Value
find key end = none
find key (field k v d) = if key == k then some v else find key d

-- `str(v)`. What it makes of a container is a parameter.
unfoldable pub str : (Value → String) → Value → String
str repr null = "None"
str repr (boolean true) = "True"
str repr (boolean false) = "False"
str repr (number n) = show n
str repr (decimal s) = s
str repr (text s) = s
str repr (items xs) = repr (items xs)
str repr (dict d) = repr (dict d)
