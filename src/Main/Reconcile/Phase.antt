-- ===== src/Main/Reconcile/Phase.antt =====
-- What the timer writes as the phase: what the job's status asks for while the phase is
-- `Initializing`, and nothing else.
use odoo_operator.Base.{
  String, ◌≡◌, refl, sym, subst, ap, ◌∙◌, Bool, true, false, ◌⊎◌, inl, inr, Option, some, none,
  List, [], str_eq, Bool-cases,
}
use mathlib.Core.List.{append-nil}
use odoo_operator.Value.{Value, str}
use odoo_operator.Prog.{Prog, ret, Result, ok, err, Write, ◌>>=◌, catch, when, set_status}
use odoo_operator.Server.{Server}
use odoo_operator.Server.Run.{run}
use odoo_operator.Server.Rules.{Result-cases, catch_ok, catch_err, bind_ok, bind_err}
use odoo_operator.Server.Writes.{
  last_phase, last_phase-append_silent, last_phase-append_before, Silent-unless, Silent, Leaves,
  Silent-bind, Silent-when, Silent-set_status, Reader-Silent, Leaves-set_status,
}
use odoo_operator.Python.{Python}
use odoo_operator.Spec.{ClusterSpec}
use odoo_operator.Database.Rules.{Reader-check_database_ready}
use odoo_operator.DbInit.{JobStatus, check_db_init_job_status}
use odoo_operator.DbInit.Rules.{Reader-check_db_init_job_status}
use odoo_operator.Cloudflare.Rules.{Reader-check_cloudflare_tunnel_ready}
use odoo_operator.ModuleSync.Rules.{Reader-sync_modules_for_cluster}
use odoo_operator.Main.Creation.{touch}
use odoo_operator.Main.Creation.Phase.{Silent-touch}
use odoo_operator.Main.Reconcile.{
  Status, current_phase, init_status, apply_job_status, check_job, check_database, check_tunnel,
  sync_modules, reconcile_status,
}
use odoo_operator.Main.Reconcile.Rules.{body}

-- The phase that the status of the job asks for, where it asks for one.
abbrev pub job_phase : Bool → Bool → Option String
job_phase true failed = some "Ready"
job_phase false true = some "Error"
job_phase false false = none

-- What a look at the job says on the phase; a look that failed says nothing.
abbrev pub verdict : Result JobStatus → Option String
verdict (ok js) = job_phase js.completed js.failed
verdict (err e) = none

-- A phase as it is written.
abbrev pub as_value : Option String → Option Value
as_value none = none
as_value (some phase) = some (str phase)

module _ (S : Server) where
  -- What comes after a program and does not write the phase leaves what the program wrote.
  last_phase-then :
      {A B : Type 0} (m : Prog A) {f : A → Prog B} (s : S.State)
      → ((a : A) → Silent S (f a))
      → last_phase (run S (m >>= f) s).writes ≡ last_phase (run S m s).writes
  last_phase-then m {f = f} s cf = elim (Result-cases (run S m s).result) [
    | inl (a, e) ↦
        ap (λ o. last_phase o.writes) (bind_ok S m f s e)
        ∙ last_phase-append_silent (run S m s).writes _ ((cf a).none_written _)
    | inr (x, e) ↦
        ap (λ o. last_phase o.writes) (bind_err S m f s e)
        ∙ last_phase-append_silent (run S m s).writes [] refl
  ]

  Leaves-report :
      (v w : Value)
      → Leaves S v (set_status "phase" v >>= λ _. (set_status "message" w >>= λ _. touch))
  Leaves-report v w =
      Leaves-set_status v (Silent-bind (Silent-set_status _ _ refl) λ _. Silent-touch S)

  -- What the status of the job leaves as the phase.
  apply_job_status-verdict :
      (name : String) (js : JobStatus) (s : S.State)
      → last_phase (run S (apply_job_status name js) s).writes
        ≡ as_value (job_phase js.completed js.failed)
  unfolding apply_job_status init_status set_status ◌>>=◌ run
  apply_job_status-verdict name js s = go js.completed js.failed
    where
      go :
          (completed failed : Bool)
          → last_phase
              (run S
                (apply_job_status name (record {
                  exists = js.exists;
                  completed = completed;
                  failed = failed;
                  message = js.message;
                }))
                s).writes
            ≡ as_value (job_phase completed failed)
      go true failed =
          rw ((Leaves-report (str "Ready") (str "Database initialized, cluster ready")).last s) refl
      go false true =
          rw ((Leaves-report (str "Error") (str "Database initialization failed")).last s) refl
      go false false = refl

  Silent-check_job :
      (phase name namespace : String)
      → str_eq phase "Initializing" ≡ false
      → Silent S (check_job phase name namespace)
  unfolding check_job
  Silent-check_job phase name namespace e = Silent-unless _ e

  Silent-rest :
      (py : Python) (spec : ClusterSpec) (name namespace : String) (status : Status)
      → Silent S (
          check_database status name namespace >>= λ _.
          (check_tunnel spec status name namespace >>= λ _.
          sync_modules py spec (current_phase status) name namespace))
  unfolding check_database check_tunnel sync_modules
  Silent-rest py spec name namespace status =
      Silent-bind
        (Silent-when _ (
          Silent-bind (Reader-Silent (Reader-check_database_ready namespace name))
            λ b. Silent-when _ (Silent-bind (Silent-set_status _ _ refl) λ _. Silent-touch S)))
        λ _.
          Silent-bind
            (Silent-when _ (
              Silent-bind (Reader-Silent (Reader-check_cloudflare_tunnel_ready namespace name))
                λ b. Silent-when _ (Silent-bind (Silent-set_status _ _ refl) λ _. Silent-touch S)))
            λ _. Silent-when _ (
              Silent-bind (Reader-Silent (Reader-sync_modules_for_cluster py namespace name _ _ _))
                λ m. Silent-bind (Silent-set_status _ _ refl) λ _. Silent-touch S)

  -- A look at the job, and what follows from it.
  check_job-verdict :
      (phase name namespace : String) (s : S.State)
      → str_eq phase "Initializing" ≡ true
      → last_phase (run S (check_job phase name namespace) s).writes
        ≡ as_value (verdict (run S (check_db_init_job_status namespace name) s).result)
  unfolding check_job
  check_job-verdict phase name namespace s e =
      let m = check_db_init_job_status namespace name in
      let quiet = (Reader-Silent {S = S} (Reader-check_db_init_job_status namespace name)) in
      subst
        (λ b.
          last_phase (run S (when b (m >>= apply_job_status name)) s).writes
          ≡ as_value (verdict (run S m s).result))
        (sym e)
        (elim (Result-cases (run S m s).result) [
          | inl (js, q) ↦
              ap (λ o. last_phase o.writes) (bind_ok S m (apply_job_status name) s q)
              ∙ last_phase-append_before (run S m s).writes _ (quiet.none_written s)
              ∙ apply_job_status-verdict name js (run S m s).state
              ∙ rw q refl
          | inr (x, q) ↦
              ap (λ o. last_phase o.writes) (bind_err S m (apply_job_status name) s q)
              ∙ last_phase-append_before (run S m s).writes [] (quiet.none_written s)
              ∙ rw q refl
        ])

  -- Both ends of the `except` clause keep what was written.
  writes_caught :
      (m : Prog (Unit {0})) (s : S.State)
      → (run S (catch m λ e. ret tt) s).writes ≡ (run S m s).writes
  unfolding run
  writes_caught m s = elim (Result-cases (run S m s).result) [
    | inl (a, e) ↦ ap (λ o. o.writes) (catch_ok S m (λ e. ret tt) s e) ∙ append-nil _
    | inr (x, e) ↦ ap (λ o. o.writes) (catch_err S m (λ e. ret tt) s e) ∙ append-nil _
  ]

-- While the phase is `Initializing`, the last phase that the timer's handler writes is `Ready` where
-- a look at the job finds it completed, `Error` where it finds it failed, and none where it finds
-- neither or the look itself fails, whatever else goes wrong in the handler.
pub reconcile_status-verdict :
    (S : Server) (py : Python) (spec : ClusterSpec) (name namespace : String) (status : Status)
    (s : S.State)
    → str_eq (current_phase status) "Initializing" ≡ true
    → last_phase (run S (reconcile_status py spec name namespace status) s).writes
      ≡ as_value (verdict (run S (check_db_init_job_status namespace name) s).result)
unfolding reconcile_status
reconcile_status-verdict S py spec name namespace status s e =
    ap last_phase (writes_caught S (body py spec name namespace status) s)
    ∙ last_phase-then S (check_job (current_phase status) name namespace) s
        (λ _. Silent-rest S py spec name namespace status)
    ∙ check_job-verdict S (current_phase status) name namespace s e

-- In any other phase the timer's handler does not write the phase.
pub reconcile_status-settled :
    (S : Server) (py : Python) (spec : ClusterSpec) (name namespace : String) (status : Status)
    (s : S.State)
    → str_eq (current_phase status) "Initializing" ≡ false
    → last_phase (run S (reconcile_status py spec name namespace status) s).writes ≡ none
unfolding reconcile_status
reconcile_status-settled S py spec name namespace status s e =
    ap last_phase (writes_caught S (body py spec name namespace status) s)
    ∙ last_phase-then S (check_job (current_phase status) name namespace) s
        (λ _. Silent-rest S py spec name namespace status)
    ∙ (Silent-check_job S (current_phase status) name namespace e).none_written s

-- The phase is not written unless it is `Initializing`, and then it becomes `Ready` or `Error` or
-- is left.
abbrev pub IsTransition : Status → List Write → Type 0
IsTransition status ws =
    (last_phase ws ≡ none)
    ⊎ ((str_eq (current_phase status) "Initializing" ≡ true)
        × ((last_phase ws ≡ some (str "Ready")) ⊎ (last_phase ws ≡ some (str "Error"))))

transition :
    (status : Status) (ws : List Write) (look : Result JobStatus)
    → str_eq (current_phase status) "Initializing" ≡ true
    → last_phase ws ≡ as_value (verdict look)
    → IsTransition status ws
transition status ws (err x) e q = inl q
transition status ws (ok js) e q = go js.completed js.failed q
  where
    go :
        (completed failed : Bool)
        → last_phase ws ≡ as_value (job_phase completed failed)
        → IsTransition status ws
    go true failed q = inr (e, inl q)
    go false true q = inr (e, inr q)
    go false false q = inl q

-- Whatever the server answers, the timer's handler does not write the phase unless it is
-- `Initializing`, and then it writes `Ready` or `Error` as the last phase, or none.
pub reconcile_status-phase :
    (S : Server) (py : Python) (spec : ClusterSpec) (name namespace : String) (status : Status)
    (s : S.State)
    → IsTransition status (run S (reconcile_status py spec name namespace status) s).writes
reconcile_status-phase S py spec name namespace status s =
    elim (Bool-cases (str_eq (current_phase status) "Initializing")) [
      | inl e ↦
          transition status (run S (reconcile_status py spec name namespace status) s).writes
            (run S (check_db_init_job_status namespace name) s).result e
            (reconcile_status-verdict S py spec name namespace status s e)
      | inr e ↦ inl (reconcile_status-settled S py spec name namespace status s e)
    ]
