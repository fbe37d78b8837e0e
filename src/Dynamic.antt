-- ===== src/Dynamic.antt =====
-- Reading dynamic values: a key of a dict, an attribute of an object of the client library, a
-- count.
pub mod Rules
use odoo_operator.Base.{ℕ, String, zero, suc, Bool, str_eq, if◌then◌else◌}
use odoo_operator.Value.{Value, null, num, str, obj, model, Fields, end, field}
use odoo_operator.Prog.{Exn, other_error, Result, ok, err, Prog, ret, raise}

-- The value under a key, or the default.
unfoldable pub get_in : Fields → String → Value → Value
get_in end k d = d
get_in (field j v rest) k d = let r = get_in rest k d in if str_eq j k then v else r

-- `d.get(k, default)`; a value that is no dict has no `get`.
unfoldable pub get_value : Value → String → Value → Prog Value
unfolding get_in
get_value (obj fs) k d = ret (get_in fs k d)
get_value _ k d = raise (other_error "AttributeError")

-- `o.k`; an attribute that the server left out is `None`.
unfoldable pub get_attr : Value → String → Prog Value
unfolding get_in
get_attr (model name fs) k = ret (get_in fs k null)
get_attr _ k = raise (other_error "AttributeError")

-- `n or default` of a count that may be `None`.
unfoldable pub count_or : ℕ → Value → Prog ℕ
count_or d (num zero) = ret d
count_or d (num (suc n)) = ret (suc n)
count_or d null = ret d
count_or d _ = raise (other_error "TypeError")

unfoldable pub lift : {A : Type 0} → Result A → Prog A
lift (ok a) = ret a
lift (err e) = raise e
