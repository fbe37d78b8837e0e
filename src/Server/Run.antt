-- ===== src/Server/Run.antt =====
-- A program run against a server, and how runs compose.
use odoo_operator.Base.{◌≡◌, refl, ap, List, [], ◌∷◌, ◌++◌}
use odoo_operator.Prog.{Exn, Result, ok, err, Write, Prog, ret, raise, write, call, ◌>>=◌, catch}
use odoo_operator.Server.{Server}

pub record Outcome (S : Server) (A : Type 0) : Type 0 where
  pub result : Result A
  pub state : S.State
  pub writes : List Write

module _ (S : Server) where
  module _ {A : Type 0} where
    abbrev pub noting : Write → Outcome S A → Outcome S A
    noting w o = record { result = o.result; state = o.state; writes = w ∷ o.writes }

    unfoldable pub run : Prog A → S.State → Outcome S A
    run (ret a) s = record { result = ok a; state = s; writes = [] }
    run (raise e) s = record { result = err e; state = s; writes = [] }
    run (write w m) s = noting w (run m s)
    run (call r k) s = run (k (S.respond r s).0) (S.respond r s).1

  -- The rest of a program, from how its first part ended.
  abbrev pub resume : {A B : Type 0} → Result A → S.State → (A → Prog B) → Outcome S B
  resume (ok a) s f = run (f a) s
  resume (err e) s f = record { result = err e; state = s; writes = [] }

  -- The `except` clause, from how the `try` block ended.
  abbrev pub rescue : {A : Type 0} → Result A → S.State → (Exn → Prog A) → Outcome S A
  rescue (ok a) s h = record { result = ok a; state = s; writes = [] }
  rescue (err e) s h = run (h e) s

  abbrev pub prepend : {A : Type 0} → List Write → Outcome S A → Outcome S A
  prepend ws o = record { result = o.result; state = o.state; writes = ws ++ o.writes }

  pub run-bind :
      {A B : Type 0} (m : Prog A) (f : A → Prog B) (s : S.State)
      → run (m >>= f) s ≡ prepend (run m s).writes (resume (run m s).result (run m s).state f)
  unfolding run ◌>>=◌
  run-bind (ret a) f s = refl
  run-bind (raise e) f s = refl
  run-bind (write w m) f s = ap (noting w) (run-bind m f s)
  run-bind (call r k) f s = run-bind (k (S.respond r s).0) f (S.respond r s).1

  pub run-catch :
      {A : Type 0} (m : Prog A) (h : Exn → Prog A) (s : S.State)
      → run (catch m h) s ≡ prepend (run m s).writes (rescue (run m s).result (run m s).state h)
  unfolding run catch
  run-catch (ret a) h s = refl
  run-catch (raise e) h s = refl
  run-catch (write w m) h s = ap (noting w) (run-catch m h s)
  run-catch (call r k) h s = run-catch (k (S.respond r s).0) h (S.respond r s).1
