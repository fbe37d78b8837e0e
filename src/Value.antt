-- ===== src/Value.antt =====
-- The dynamic values that the handlers build: JSON-like dicts and lists, and the objects of the
-- Kubernetes client library, `client.V1Secret(metadata=…)`, which are kept as the class name with
-- its keyword arguments.
use odoo_operator.Base.{ℕ, String, Bool, Option, none, some, List, [], ◌∷◌}

mutual
  pub data Value : Type 0 where
    null : Value
    bool : Bool → Value
    num : ℕ → Value
    str : String → Value
    arr : Items → Value
    obj : Fields → Value
    model : String → Fields → Value

  pub data Items : Type 0 where
    nil : Items
    cons : Value → Items → Items

  pub data Fields : Type 0 where
    end : Fields
    field : String → Value → Fields → Fields

abbrev pub items : List Value → Items
items [] = nil
items (v ∷ vs) = cons v (items vs)

abbrev fields : List (String × Value) → Fields
fields [] = end
fields ((k, v) ∷ rest) = field k v (fields rest)

-- `{k: v, …}`
abbrev pub dict : List (String × Value) → Value
dict kvs = obj (fields kvs)

-- `[v, …]`
abbrev pub list : List Value → Value
list vs = arr (items vs)

-- `client.Name(k=v, …)`
abbrev pub new : String → List (String × Value) → Value
new name kvs = model name (fields kvs)

-- A text or `None`.
abbrev pub str_opt : Option String → Value
str_opt none = null
str_opt (some s) = str s
