-- ===== src/Python.antt =====
-- What the handlers use of Python's library beyond texts, lists and dicts: the JSON text of a dict,
-- a digest, the order in which a set is iterated, and the decoding of a secret's base64.
use odoo_operator.Base.{String, ◌↔◌, List, In}
use odoo_operator.Value.{Value}
use odoo_operator.Prog.{Result}

pub record Python : Type 0 where
  -- `json.dumps(v, indent=2)`
  pub dumps : Value → String
  -- `hashlib.sha256(json.dumps(v, sort_keys=True).encode()).hexdigest()[:16]`
  pub digest : Value → String
  -- The elements of `set(xs)` in the order of an iteration.
  pub iterate : List String → List String
  -- The text of the `ValueError` that `int(t)` raises, which quotes `t`.
  pub int_error : String → String
  -- `base64.b64decode(t).decode('utf-8')`
  pub decode : String → Result String

-- An iteration over a set meets exactly its elements.
abbrev pub IsSetOrder : Python → Type 0
IsSetOrder py = (xs : List String) (x : String) → In x (py.iterate xs) ↔ In x xs
