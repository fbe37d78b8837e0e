-- ===== src/Tests/Timer.antt =====
-- The theorems on the timer at concrete inputs, on a server in memory.
use odoo_operator.Base.{◌≡◌, refl, true, none, some, [], ◌∷◌, All, inl, inr, str_eq}
use odoo_operator.Value.{null}
use odoo_operator.Prog.{pvc, ok}
use odoo_operator.Server.{present}
use odoo_operator.Server.Run.{run}
use odoo_operator.Server.Memory.{Memory, memory, empty}
use odoo_operator.Server.Memory.Laws.{memory-Accepts, memory-IsLawful, memory-IsHealthy}
use odoo_operator.Owner.{key}
use odoo_operator.Main.{on_create}
use odoo_operator.Main.Reconcile.{Status, reconcile_status}
use odoo_operator.Main.Reconcile.Rules.{reconcile_status-harmless}
use odoo_operator.Main.Reconcile.Phase.{IsTransition, reconcile_status-phase}
use odoo_operator.Tests.{python, spec, full, plain, initializing}
use odoo_operator.Base.{ℕ, get_or, ◌↔◌, ◌≤◌, ◌<◌}
use odoo_operator.Server.Writes.{last_phase}
use odoo_operator.Base.{◌≢◌, ap, sym, ◌∙◌}
use odoo_operator.DbInit.{check_db_init_job_status, status_of}
use odoo_operator.DbInit.Status.{
  job_with, job_with-IsJob, check_db_init_job_status-missing, status_of-thresholds,
}
use odoo_operator.Main.Reconcile.{current_phase}
use odoo_operator.Main.Reconcile.Phase.{as_value, verdict, reconcile_status-verdict}
use odoo_operator.Main.Reconcile.Ticks.{
  Ticks, done, tick, merge, merge-IsMerged, verdict_at, verdict_at-IsDone, first_verdict, IsDone,
  Ticks-first_verdict, Ticks-Ready, Ticks-stuck,
}
use odoo_operator.Main.Lifecycle.{on_create-Ready}

reconcile_status-harmless_example :
    ((run memory (reconcile_status python spec "shop" "prod" initializing) full).result ≡ ok tt)
    × ((run memory (reconcile_status python spec "shop" "prod" initializing) full).state
          (key pvc "prod" "shop-odoo-filestore")
        ≡ present null)
reconcile_status-harmless_example =
    reconcile_status-harmless memory python spec "shop" "prod" initializing full
      (key pvc "prod" "shop-odoo-filestore") memory-IsLawful

reconcile_status-phase_example :
    IsTransition initializing
      (run memory (reconcile_status python spec "shop" "prod" initializing) full).writes
reconcile_status-phase_example =
    reconcile_status-phase memory python spec "shop" "prod" initializing full

-- Every object that is there is a job of which one pod has succeeded and two have failed.
abbrev with_job : Memory
with_job k = present (job_with 1 2)

seen : IsDone memory python spec "shop" "prod" with_job
seen = record {
  answered = job_with 1 2;
  pods = 0;
  failed = some 2;
  answers = refl;
  counts = job_with-IsJob 1 2;
}

-- The job is not there yet, and then it is done.
nothing_yet : verdict_at memory python spec "shop" "prod" empty ≡ none
nothing_yet =
    ap verdict (check_db_init_job_status-missing memory "prod" "shop" empty "not found" refl)

then_done : verdict_at memory python spec "shop" "prod" with_job ≡ some "Ready"
then_done = verdict_at-IsDone memory python spec "shop" "prod" with_job seen

none_failed :
    All (λ t. verdict_at memory python spec "shop" "prod" t ≢ some "Error") (empty ∷ with_job ∷ [])
none_failed = (
  λ e. cc (sym nothing_yet ∙ e),
  (λ e. cc (ap (λ o. str_eq (get_or o "") "Ready") (sym then_done ∙ e)), tt),
)

-- The status after a tick at this state.
abbrev after : Memory → Status → Status
after s before =
    merge (run memory (reconcile_status python spec "shop" "prod" before) s).writes before

two-Ticks :
    (st : Status)
    → Ticks memory python spec "shop" "prod"
        (empty ∷ with_job ∷ [])
        st
        (after with_job (after empty st))
two-Ticks st = tick (merge-IsMerged _ st) (tick (merge-IsMerged _ (after empty st)) (done _))

reconcile_status-verdict_example :
    last_phase
      (run memory (reconcile_status python spec "shop" "prod" initializing) with_job).writes
    ≡ as_value (verdict (run memory (check_db_init_job_status "prod" "shop") with_job).result)
reconcile_status-verdict_example =
    reconcile_status-verdict memory python spec "shop" "prod" initializing with_job refl

Ticks-first_verdict_example :
    current_phase (after with_job (after empty initializing))
    ≡ get_or (first_verdict memory python spec "shop" "prod" (empty ∷ with_job ∷ [])) "Initializing"
Ticks-first_verdict_example =
    Ticks-first_verdict memory python spec "shop" "prod" (two-Ticks initializing) refl

Ticks-Ready_example : current_phase (after with_job (after empty initializing)) ≡ "Ready"
Ticks-Ready_example =
    Ticks-Ready memory python spec "shop" "prod" (two-Ticks initializing) refl none_failed
      (inr (inl refl)) seen

Ticks-stuck_example : current_phase (after empty initializing) ≡ "Initializing"
Ticks-stuck_example =
    Ticks-stuck memory python spec "shop" "prod"
      (tick (merge-IsMerged _ initializing) (done (after empty initializing))) refl
      (("not found", refl), tt)

-- The status after the creation.
abbrev created : Status
created =
    merge (run memory (on_create python spec "shop" "prod" (some "uid-1")) empty).writes
      initializing

on_create-Ready_example : current_phase (after with_job (after empty created)) ≡ "Ready"
on_create-Ready_example =
    on_create-Ready memory python spec "shop" "prod" (some "uid-1") empty memory-IsLawful
      memory-IsHealthy plain (memory-Accepts _ _) (merge-IsMerged _ initializing)
      (two-Ticks created) none_failed (inr (inl refl)) seen

status_of-thresholds_example :
    (((status_of (some 0) (some 3)).completed ≡ true) ↔ (1 ≤ get_or {A = ℕ} (some 0) 0))
    × (((status_of (some 0) (some 3)).failed ≡ true)
        ↔ ((get_or {A = ℕ} (some 0) 0 < 1) × (3 ≤ get_or {A = ℕ} (some 3) 0)))
status_of-thresholds_example = status_of-thresholds (some 0) (some 3)
