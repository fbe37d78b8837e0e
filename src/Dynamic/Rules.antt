-- ===== src/Dynamic/Rules.antt =====
-- Reading a value requests nothing.
use odoo_operator.Base.{ℕ, zero, suc, String}
use odoo_operator.Value.{Value, null, num, obj, model}
use odoo_operator.Prog.{Request, Result, ok, err}
use odoo_operator.Prog.Only.{Only, Only-ret, Only-raise}
use odoo_operator.Prog.Reader.{Reader, Reader-ret, Reader-raise}
use odoo_operator.Dynamic.{get_attr, get_value, count_or, lift}

module _ {P : Request → Type 0} where
  pub Only-get_attr : (v : Value) (name : String) → Only P (get_attr v name)
  unfolding get_attr
  Only-get_attr (model c fs) name = Only-ret _
  Only-get_attr _ name = Only-raise _

  pub Only-get_value : (v : Value) (name : String) (d : Value) → Only P (get_value v name d)
  unfolding get_value
  Only-get_value (obj fs) name d = Only-ret _
  Only-get_value _ name d = Only-raise _

  pub Only-count_or : (n : ℕ) (v : Value) → Only P (count_or n v)
  unfolding count_or
  Only-count_or n (num zero) = Only-ret _
  Only-count_or n (num (suc m)) = Only-ret _
  Only-count_or n null = Only-ret _
  Only-count_or n _ = Only-raise _

  pub Only-lift : {A : Type 0} (x : Result A) → Only P (lift x)
  unfolding lift
  Only-lift (ok a) = Only-ret a
  Only-lift (err e) = Only-raise e

-- It writes nothing either.
pub Reader-get_attr : (v : Value) (name : String) → Reader (get_attr v name)
unfolding get_attr
Reader-get_attr (model c fs) name = Reader-ret _
Reader-get_attr _ name = Reader-raise _

pub Reader-get_value : (v : Value) (name : String) (d : Value) → Reader (get_value v name d)
unfolding get_value
Reader-get_value (obj fs) name d = Reader-ret _
Reader-get_value _ name d = Reader-raise _

pub Reader-count_or : (n : ℕ) (v : Value) → Reader (count_or n v)
unfolding count_or
Reader-count_or n (num zero) = Reader-ret _
Reader-count_or n (num (suc m)) = Reader-ret _
Reader-count_or n null = Reader-ret _
Reader-count_or n _ = Reader-raise _

pub Reader-lift : {A : Type 0} (x : Result A) → Reader (lift x)
unfolding lift
Reader-lift (ok a) = Reader-ret a
Reader-lift (err e) = Reader-raise e
