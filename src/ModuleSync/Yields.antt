-- ===== src/ModuleSync/Yields.antt =====
-- What every value that a program returns has as a property, from every state.
use odoo_operator.Base.{String, ◌≡◌, refl, subst}
use odoo_operator.Value.{Value, str, arr, model}
use odoo_operator.Pod.{entry, items_of}
use odoo_operator.Dynamic.{get_attr}
use odoo_operator.ModuleSync.Exec.{as_items}
use odoo_operator.Prog.{Exn, ok, Prog, ret, raise, as_text, ◌>>=◌}
use odoo_operator.Server.{Server}
use odoo_operator.Server.Run.{run}
use odoo_operator.Server.Rules.{bind_ok_inv, raise_not_ok}

module _ (S : Server) where
  -- Every value that a program returns has a property.
  pub record Yields {A : Type 0} (P : A → Type 0) (m : Prog A) : Type 0 where
    pub at : (s : S.State) {a : A} → (run S m s).result ≡ ok a → P a

module _ {S : Server} where
  pub Yields-ret : {A : Type 0} (P : A → Type 0) (a : A) → P a → Yields S P (ret a)
  unfolding run
  Yields-ret P a p = record { at = λ s h. subst P (cc h) p }

  pub Yields-bind :
      {A B : Type 0} {P : A → Type 0} {Q : B → Type 0} {m : Prog A} {f : A → Prog B}
      → Yields S P m
      → ((a : A) → P a → Yields S Q (f a))
      → Yields S Q (m >>= f)
  Yields-bind {m = m} {f = f} c cf = record {
    at = λ s h. let (a, e, e', q) = bind_ok_inv S m f s h in (cf a (c.at s e)).at _ e';
  }

  pub Yields-imp :
      {A : Type 0} {P Q : A → Type 0} {m : Prog A}
      → ((a : A) → P a → Q a)
      → Yields S P m
      → Yields S Q m
  Yields-imp h c = record { at = λ s e. h _ (c.at s e) }

  pub Yields-raise : {A : Type 0} (P : A → Type 0) (x : Exn) → Yields S P (raise x)
  Yields-raise P x = record { at = λ s h. absurd (raise_not_ok S x s h) }

  -- Where nothing is asked of what the first part returns.
  pub Yields-after :
      {A B : Type 0} {Q : B → Type 0} (m : Prog A) {f : A → Prog B}
      → ((a : A) → Yields S Q (f a))
      → Yields S Q (m >>= f)
  Yields-after m cf = Yields-bind {P = λ a. Unit} (record { at = λ s h. tt }) λ a u. cf a

  pub Yields-get_attr : (v : Value) (k : String) → Yields S (λ a. a ≡ entry k v) (get_attr v k)
  unfolding get_attr entry
  Yields-get_attr (model name fs) k = Yields-ret (λ a. a ≡ entry k (model name fs)) _ refl
  Yields-get_attr v k = Yields-raise (λ a. a ≡ entry k v) _

  pub Yields-as_text : (v : Value) → Yields S (λ t. str t ≡ v) (as_text v)
  unfolding as_text
  Yields-as_text (str t) = Yields-ret (λ u. str u ≡ str t) t refl
  Yields-as_text v = Yields-raise (λ u. str u ≡ v) _

  pub Yields-as_items : (v : Value) → Yields S (λ vs. vs ≡ items_of v) (as_items v)
  unfolding as_items
  Yields-as_items (arr vs) = Yields-ret (λ ws. ws ≡ vs) vs refl
  Yields-as_items v = Yields-raise (λ ws. ws ≡ items_of v) _
