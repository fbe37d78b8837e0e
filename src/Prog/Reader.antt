-- ===== src/Prog/Reader.antt =====
-- Programs that write nothing: no object of the cluster and no entry of the status patch.
use odoo_operator.Base.{Bool, true, false, if◌then◌else◌}
use odoo_operator.Value.{Value, str}
use odoo_operator.Prog.{
  Request, create, patch, delete, Exn, Result, ok, err, Prog, ret, raise, write, call, answer,
  ◌>>=◌, catch, request, as_text,
}
use odoo_operator.Prog.Only.{Calls, Only}

abbrev pub IsRead : Request → Type 0
IsRead (create k v) = ⊥
IsRead (patch k v) = ⊥
IsRead (delete k) = ⊥
IsRead _ = Unit

abbrev pub Reads : {A : Type 0} → Prog A → Type 0
Reads (ret a) = Unit
Reads (raise e) = Unit
Reads (write w m) = ⊥
Reads (call r k) = IsRead r × ((x : Result Value) → Reads (k x))

pub record Reader {A : Type 0} (m : Prog A) : Type 0 where
  pub reads : Reads m

module _ {A B : Type 0} where
  Reads-bind : (m : Prog A) (f : A → Prog B) → Reads m → ((a : A) → Reads (f a)) → Reads (m >>= f)
  unfolding ◌>>=◌
  Reads-bind (ret a) f c cf = cf a
  Reads-bind (raise e) f c cf = tt
  Reads-bind (write w m) f c cf = absurd c
  Reads-bind (call r k) f c cf = (c.0, λ x. Reads-bind (k x) f (c.1 x) cf)

  pub Reader-bind :
      {m : Prog A} {f : A → Prog B} → Reader m → ((a : A) → Reader (f a)) → Reader (m >>= f)
  Reader-bind {m} {f} c cf = record { reads = Reads-bind m f c.reads (λ a. (cf a).reads) }

module _ {A : Type 0} where
  Reads-catch :
      (m : Prog A) (h : Exn → Prog A) → Reads m → ((e : Exn) → Reads (h e)) → Reads (catch m h)
  unfolding catch
  Reads-catch (ret a) h c ch = tt
  Reads-catch (raise e) h c ch = ch e
  Reads-catch (write w m) h c ch = absurd c
  Reads-catch (call r k) h c ch = (c.0, λ x. Reads-catch (k x) h (c.1 x) ch)

  pub Reader-catch :
      {m : Prog A} {h : Exn → Prog A} → Reader m → ((e : Exn) → Reader (h e)) → Reader (catch m h)
  Reader-catch {m} {h} c ch = record { reads = Reads-catch m h c.reads (λ e. (ch e).reads) }

  pub Reader-ret : (a : A) → Reader (ret a)
  Reader-ret a = record { reads = tt }

  pub Reader-raise : (e : Exn) → Reader {A = A} (raise e)
  Reader-raise e = record { reads = tt }

  pub Reader-if : (b : Bool) {m n : Prog A} → Reader m → Reader n → Reader (if b then m else n)
  Reader-if true m n = m
  Reader-if false m n = n

  Reads-Calls : (m : Prog A) → Reads m → Calls IsRead m
  Reads-Calls (ret a) c = tt
  Reads-Calls (raise e) c = tt
  Reads-Calls (write w m) c = absurd c
  Reads-Calls (call r k) c = (c.0, λ x. Reads-Calls (k x) (c.1 x))

  pub Reader-Only : {m : Prog A} → Reader m → Only IsRead m
  Reader-Only {m} c = record { calls = Reads-Calls m c.reads }

Reads-answer : (x : Result Value) → Reads (answer x)
Reads-answer (ok v) = tt
Reads-answer (err e) = tt

pub Reader-request : (r : Request) → IsRead r → Reader (request r)
unfolding request
Reader-request r p = record { reads = (p, Reads-answer) }

pub Reader-as_text : (v : Value) → Reader (as_text v)
unfolding as_text
Reader-as_text (str s) = record { reads = tt }
Reader-as_text _ = record { reads = tt }
