-- ===== src/Kube/Requests.antt =====
-- What each way of calling the API may request.
use odoo_operator.Base.{String, true, false, Bool, if◌then◌else◌}
use odoo_operator.Value.{Value}
use odoo_operator.Prog.{Key, Request, create, patch, read, delete, Prog, ret, ◌>>=◌, request}
use odoo_operator.Prog.Only.{
  Only, Only-then, Yields, Only-bind, Only-catch, Only-ret, Only-raise, Only-request,
}
use odoo_operator.Kube.{
  create_or_skip, create_or_patch, create_or_patch_wrapped, create_or_skip_wrapped, create_made,
  create_if_missing, delete_if_present,
}

module _ {P : Request → Type 0} where
  Only-if : (b : Bool) {m n : Prog Unit} → Only P m → Only P n → Only P (if b then m else n)
  Only-if true m n = m
  Only-if false m n = n

  Only-then_done : (r : Request) → P r → Only P (request r >>= λ _. ret tt)
  Only-then_done r p = Only-bind (Only-request r p) λ _. Only-ret tt

  pub Only-create_or_skip : (k : Key) (v : Value) → P (create k v) → Only P (create_or_skip k v)
  unfolding create_or_skip
  Only-create_or_skip k v p =
      Only-catch (Only-then_done (create k v) p) λ e. Only-if _ (Only-ret tt) (Only-raise e)

  pub Only-create_or_skip_wrapped :
      (prefix : String) (k : Key) (v : Value)
      → P (create k v)
      → Only P (create_or_skip_wrapped prefix k v)
  unfolding create_or_skip_wrapped
  Only-create_or_skip_wrapped prefix k v p =
      Only-catch (Only-then_done (create k v) p) λ e. Only-if _ (Only-ret tt) (Only-raise _)

  pub Only-create_or_patch :
      (k : Key) (v : Value) → P (create k v) → P (patch k v) → Only P (create_or_patch k v)
  unfolding create_or_patch
  Only-create_or_patch k v p q =
      Only-catch (Only-then_done (create k v) p)
        λ e. Only-if _ (Only-then_done (patch k v) q) (Only-raise e)

  pub Only-create_or_patch_wrapped :
      (prefix : String) (k : Key) (v : Value)
      → P (create k v)
      → P (patch k v)
      → Only P (create_or_patch_wrapped prefix k v)
  unfolding create_or_patch_wrapped
  Only-create_or_patch_wrapped prefix k v p q =
      Only-catch (Only-then_done (create k v) p)
        λ e. Only-if _ (Only-then_done (patch k v) q) (Only-raise _)

  Only-create_made :
      (k : Key) {make : Prog Value}
      → Only P make
      → Yields (λ v. P (create k v)) make
      → Only P (create_made k make)
  unfolding create_made
  Only-create_made k c y = Only-then P _ c y λ v p. Only-then_done (create k v) p

  pub Only-create_if_missing :
      (k : Key) {make : Prog Value}
      → P (read k)
      → Only P make
      → Yields (λ v. P (create k v)) make
      → Only P (create_if_missing k make)
  unfolding create_if_missing
  Only-create_if_missing k r c p =
      Only-catch (Only-then_done (read k) r) λ e. Only-if _ (Only-create_made k c p) (Only-raise e)

  pub Only-delete_if_present : (k : Key) → P (delete k) → Only P (delete_if_present k)
  unfolding delete_if_present
  Only-delete_if_present k p =
      Only-catch (Only-then_done (delete k) p) λ e. Only-if _ (Only-ret tt) (Only-raise e)
