-- ===== src/Prog/Only.antt =====
-- What every request of a program satisfies, whatever the responses are. Also what every value
-- satisfies that a program returns.
use odoo_operator.Base.{String, Bool, true, false}
use odoo_operator.Value.{Value, str}
use odoo_operator.Prog.{
  Request, Exn, Result, ok, err, Prog, ret, raise, write, call, answer, ◌>>=◌, catch, request,
  set_status, set_endpoint, as_text, when,
}

abbrev pub Calls : {A : Type 0} → (Request → Type 0) → Prog A → Type 0
Calls P (ret a) = Unit
Calls P (raise e) = Unit
Calls P (write w m) = Calls P m
Calls P (call r k) = P r × ((x : Result Value) → Calls P (k x))

-- Every request that `m` can come to make satisfies `P`.
pub record Only {A : Type 0} (P : Request → Type 0) (m : Prog A) : Type 0 where
  pub calls : Calls P m

module _ {A B : Type 0} (P : Request → Type 0) where
  Calls-bind :
      (m : Prog A) (f : A → Prog B) → Calls P m → ((a : A) → Calls P (f a)) → Calls P (m >>= f)
  unfolding ◌>>=◌
  Calls-bind (ret a) f c cf = cf a
  Calls-bind (raise e) f c cf = tt
  Calls-bind (write w m) f c cf = Calls-bind m f c cf
  Calls-bind (call r k) f c cf = (c.0, λ x. Calls-bind (k x) f (c.1 x) cf)

module _ {A B : Type 0} {P : Request → Type 0} where
  pub Only-bind :
      {m : Prog A} {f : A → Prog B} → Only P m → ((a : A) → Only P (f a)) → Only P (m >>= f)
  Only-bind {m} {f} c cf = record { calls = Calls-bind P m f c.calls (λ a. (cf a).calls) }

module _ {A : Type 0} (P : Request → Type 0) where
  Calls-catch :
      (m : Prog A) (h : Exn → Prog A)
      → Calls P m
      → ((e : Exn) → Calls P (h e))
      → Calls P (catch m h)
  unfolding catch
  Calls-catch (ret a) h c ch = tt
  Calls-catch (raise e) h c ch = ch e
  Calls-catch (write w m) h c ch = Calls-catch m h c ch
  Calls-catch (call r k) h c ch = (c.0, λ x. Calls-catch (k x) h (c.1 x) ch)

  Calls-imp :
      (Q : Request → Type 0) (m : Prog A) → ((r : Request) → P r → Q r) → Calls P m → Calls Q m
  Calls-imp Q (ret a) h c = tt
  Calls-imp Q (raise e) h c = tt
  Calls-imp Q (write w m) h c = Calls-imp Q m h c
  Calls-imp Q (call r k) h c = (h r c.0, λ x. Calls-imp Q (k x) h (c.1 x))

module _ {A : Type 0} {P : Request → Type 0} where
  pub Only-catch :
      {m : Prog A} {h : Exn → Prog A} → Only P m → ((e : Exn) → Only P (h e)) → Only P (catch m h)
  Only-catch {m} {h} c ch = record { calls = Calls-catch P m h c.calls (λ e. (ch e).calls) }

  pub Only-ret : (a : A) → Only P (ret a)
  Only-ret a = record { calls = tt }

  pub Only-raise : (e : Exn) → Only {A = A} P (raise e)
  Only-raise e = record { calls = tt }

  -- A branch is looked at only under the test that leads to it.
  pub Only-branch :
      (b : Bool) {m n : Prog A} → Only P m → Only P n → Only P (elim b [ true ↦ m | false ↦ n ])
  Only-branch true m n = m
  Only-branch false m n = n

  pub Only-imp :
      {Q : Request → Type 0} {m : Prog A} → ((r : Request) → P r → Q r) → Only P m → Only Q m
  Only-imp {Q} {m} h c = record { calls = Calls-imp P Q m h c.calls }

answer-Calls : (P : Request → Type 0) (x : Result Value) → Calls P (answer x)
answer-Calls P (ok v) = tt
answer-Calls P (err e) = tt

module _ {P : Request → Type 0} where
  pub Only-request : (r : Request) → P r → Only P (request r)
  unfolding request
  Only-request r p = record { calls = (p, answer-Calls P) }

  pub Only-when : (b : Bool) {m : Prog Unit} → Only P m → Only P (when b m)
  Only-when true c = c
  Only-when false c = Only-ret tt

  pub Only-set_status : (k : String) (v : Value) → Only P (set_status k v)
  unfolding set_status
  Only-set_status k v = record { calls = tt }

  pub Only-set_endpoint : (k url : String) → Only P (set_endpoint k url)
  unfolding set_endpoint
  Only-set_endpoint k url = record { calls = tt }

  pub Only-as_text : (v : Value) → Only P (as_text v)
  unfolding as_text
  Only-as_text (str s) = record { calls = tt }
  Only-as_text _ = record { calls = tt }

-- Every value that `m` can come to return satisfies `Q`.
abbrev pub Returns : {A : Type 0} → (A → Type 0) → Prog A → Type 0
Returns Q (ret a) = Q a
Returns Q (raise e) = Unit
Returns Q (write w m) = Returns Q m
Returns Q (call r k) = (x : Result Value) → Returns Q (k x)

pub record Yields {A : Type 0} (Q : A → Type 0) (m : Prog A) : Type 0 where
  pub returns : Returns Q m

module _ {A B : Type 0} (Q : B → Type 0) where
  Returns-bind : (m : Prog A) (f : A → Prog B) → ((a : A) → Returns Q (f a)) → Returns Q (m >>= f)
  unfolding ◌>>=◌
  Returns-bind (ret a) f c = c a
  Returns-bind (raise e) f c = tt
  Returns-bind (write w m) f c = Returns-bind m f c
  Returns-bind (call r k) f c = λ x. Returns-bind (k x) f c

module _ {A B : Type 0} {Q : B → Type 0} where
  pub Yields-bind : (m : Prog A) {f : A → Prog B} → ((a : A) → Yields Q (f a)) → Yields Q (m >>= f)
  Yields-bind m {f} c = record { returns = Returns-bind Q m f (λ a. (c a).returns) }

Returns-any : {A : Type 0} (Q : A → Type 0) (m : Prog A) → ((a : A) → Q a) → Returns Q m
Returns-any Q (ret a) q = q a
Returns-any Q (raise e) q = tt
Returns-any Q (write w m) q = Returns-any Q m q
Returns-any Q (call r k) q = λ x. Returns-any Q (k x) q

module _ {A : Type 0} {Q : A → Type 0} where
  pub Yields-any : (m : Prog A) → ((a : A) → Q a) → Yields Q m
  Yields-any m q = record { returns = Returns-any Q m q }

  pub Yields-ret : (a : A) → Q a → Yields Q (ret a)
  Yields-ret a q = record { returns = q }

module _ {A B : Type 0} (P : Request → Type 0) (Q : A → Type 0) where
  Calls-then :
      (m : Prog A) (f : A → Prog B)
      → Calls P m
      → Returns Q m
      → ((a : A) → Q a → Calls P (f a))
      → Calls P (m >>= f)
  unfolding ◌>>=◌
  Calls-then (ret a) f c q cf = cf a q
  Calls-then (raise e) f c q cf = tt
  Calls-then (write w m) f c q cf = Calls-then m f c q cf
  Calls-then (call r k) f c q cf = (c.0, λ x. Calls-then (k x) f (c.1 x) (q x) cf)

  pub Only-then :
      {m : Prog A} {f : A → Prog B}
      → Only P m
      → Yields Q m
      → ((a : A) → Q a → Only P (f a))
      → Only P (m >>= f)
  Only-then {m} {f} c y cf = record {
    calls = Calls-then m f c.calls y.returns (λ a q. (cf a q).calls);
  }
