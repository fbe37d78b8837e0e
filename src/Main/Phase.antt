-- ===== src/Main/Phase.antt =====
-- How `on_create` ends: the phase in the status, and the exception.
use odoo_operator.Base.{String, ◌≡◌, refl, sym, ap, subst, ◌⊎◌, inl, inr, Option, some}
use mathlib.Core.List.{append-nil}
use odoo_operator.Value.{str}
use odoo_operator.Prog.{
  Exn, permanent_error, message, ok, err, Prog, raise, ◌>>=◌, catch, set_status,
}
use odoo_operator.Server.{Server, HasClock}
use odoo_operator.Server.Run.{run, Outcome}
use odoo_operator.Server.Rules.{
  IsTotal, IsTotal-set_status, bind_ok, catch_ok, catch_err, Result-cases,
}
use odoo_operator.Server.Writes.{
  last_phase, last_phase-append, Leaves, Silent-bind, Silent-set_status, Silent-raise,
  Leaves-set_status,
}
use odoo_operator.Python.{Python}
use odoo_operator.Spec.{ClusterSpec}
use odoo_operator.Main.Creation.{Cluster, touch, create_all}
use odoo_operator.Main.Creation.Phase.{Silent-touch, IsTotal-touch, LeavesOk-create_all}
use odoo_operator.Main.{fail_creation, on_create, on_update}

-- The program returns and leaves the phase `Initializing`, or it raises a permanent error and
-- leaves the phase `Error`.
abbrev pub IsConclusion : {S : Server} → Outcome S (Unit {0}) → Type 0
IsConclusion o =
    ((o.result ≡ ok tt) × (last_phase o.writes ≡ some (str "Initializing")))
    ⊎ ((text : String) × (o.result ≡ err (permanent_error text))
        × (last_phase o.writes ≡ some (str "Error")))

record Concludes (S : Server) (m : Prog (Unit {0})) : Type 0 where
  concluded : (s : S.State) → IsConclusion (run S m s)

module _ (S : Server) (C : HasClock S) where
  Concludes-then :
      {m n : Prog (Unit {0})} → IsTotal S m → Concludes S n → Concludes S (m >>= λ _. n)
  Concludes-then {m} {n} c d = record {
    concluded = λ s.
        let (a, e) = c.at s in
        subst IsConclusion (sym (bind_ok S m (λ _. n) s e)) (elim (d.concluded (run S m s).state) [
          | inl (r, p) ↦
              inl (r, last_phase-append (run S m s).writes (run S n (run S m s).state).writes _ p)
          | inr (t, r, p) ↦
              inr
                (t, r, last_phase-append (run S m s).writes (run S n (run S m s).state).writes _ p)
        ]);
  }

  Leaves-fail_creation : (e : Exn) → Leaves S (str "Error") (fail_creation e)
  unfolding fail_creation
  Leaves-fail_creation e = Leaves-set_status (str "Error") (
      Silent-bind (Silent-set_status _ _ refl)
        λ _. Silent-bind (Silent-touch S) λ _. Silent-raise _)

  pub fail_creation-error :
      (e : Exn) (s : S.State)
      → (run S (fail_creation e) s).result ≡ err (permanent_error (message e))
  unfolding fail_creation set_status run ◌>>=◌
  fail_creation-error e s =
      let (a, q) = (IsTotal-touch S C).at s in
      ap (λ o. o.result) (bind_ok S touch (λ _. raise (permanent_error (message e))) s q)

  Concludes-create_all :
      (py : Python) (c : Cluster) → Concludes S (catch (create_all py c) fail_creation)
  Concludes-create_all py c = record {
    concluded = λ s.
        let m = create_all py c in
        elim (Result-cases (run S m s).result) [
          | inl (a, e) ↦ subst IsConclusion (sym (catch_ok S m fail_creation s e)) (
              inl (
                refl,
                rw (append-nil (run S m s).writes) ((LeavesOk-create_all S py c).last_ok s e),
              ))
          | inr (x, e) ↦
              let t = (run S m s).state in
              subst IsConclusion (sym (catch_err S m fail_creation s e)) (
                inr (
                  message x,
                  fail_creation-error x t,
                  last_phase-append (run S m s).writes (run S (fail_creation x) t).writes _
                      ((Leaves-fail_creation x).last t),
                ))
        ];
  }

  Concludes-on_create :
      (py : Python) (spec : ClusterSpec) (name namespace : String) (uid : Option String)
      → Concludes S (on_create py spec name namespace uid)
  unfolding on_create
  Concludes-on_create py spec name namespace uid = Concludes-then (IsTotal-set_status _ _) (
      Concludes-then (IsTotal-set_status _ _) (
        Concludes-then (IsTotal-touch S C)
          (Concludes-then (IsTotal-set_status _ _) (Concludes-create_all py _))))

  Concludes-on_update :
      (py : Python) (spec : ClusterSpec) (name namespace : String) (uid : Option String)
      → Concludes S (on_update py spec name namespace uid)
  unfolding on_update
  Concludes-on_update py spec name namespace uid = Concludes-then (IsTotal-set_status _ _) (
      Concludes-then (IsTotal-set_status _ _)
        (Concludes-then (IsTotal-touch S C) (Concludes-on_create py spec name namespace uid)))

-- Whatever the API answers, where the clock tells the time, a creation either returns with the
-- phase `Initializing` as the last that it wrote, or raises a permanent error with the phase
-- `Error`.
pub on_create-concludes :
    (S : Server) (py : Python) (spec : ClusterSpec) (name namespace : String) (uid : Option String)
    (s : S.State)
    → HasClock S
    → IsConclusion (run S (on_create py spec name namespace uid) s)
on_create-concludes S py spec name namespace uid s C =
    (Concludes-on_create S C py spec name namespace uid).concluded s

-- Whatever the API answers, where the clock tells the time, an update either returns with the phase
-- `Initializing` as the last that it wrote, or raises a permanent error with the phase `Error`.
pub on_update-concludes :
    (S : Server) (py : Python) (spec : ClusterSpec) (name namespace : String) (uid : Option String)
    (s : S.State)
    → HasClock S
    → IsConclusion (run S (on_update py spec name namespace uid) s)
on_update-concludes S py spec name namespace uid s C =
    (Concludes-on_update S C py spec name namespace uid).concluded s
