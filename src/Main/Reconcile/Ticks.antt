-- ===== src/Main/Reconcile/Ticks.antt =====
-- The timer over time: `reconcile_status` is called again and again, each time at a state of the
-- cluster that others have changed meanwhile, and kopf merges each patch into the object's status.
use odoo_operator.Base.{
  ℕ, suc, String, ◌≡◌, ◌≢◌, refl, sym, ap, ◌∙◌, Bool, true, false, ◌⊎◌, inl, inr, Option, some,
  none, List, [], ◌∷◌, get_or, str_eq, All, All-imp, In, Option-cases, arith,
}
use odoo_operator.Value.{Value, str}
use odoo_operator.Prog.{read, api_exception, Result, ok, err, Write}
use odoo_operator.Server.{Server}
use odoo_operator.Server.Run.{run}
use odoo_operator.Server.Writes.{last_phase}
use odoo_operator.Python.{Python}
use odoo_operator.Spec.{ClusterSpec}
use odoo_operator.DbInit.{JobStatus, job_key, check_db_init_job_status}
use odoo_operator.DbInit.Status.{
  IsJob, status_of-thresholds, check_db_init_job_status-found, check_db_init_job_status-missing,
}
use odoo_operator.Main.Reconcile.{Status, current_phase, reconcile_status}
use odoo_operator.Main.Reconcile.Phase.{
  job_phase, verdict, as_value, reconcile_status-verdict, reconcile_status-settled,
}

-- The status after the patch is merged has the phase that was written last, or the old one.
pub record IsMerged (writes : List Write) (before after : Status) : Type 0 where
  pub kept : last_phase writes ≡ none → after.phase ≡ before.phase
  pub replaced : (phase : String) → last_phase writes ≡ some (str phase) → after.phase ≡ some phase

-- One such status, where the other fields are as before.
abbrev merged_phase : Option Value → Option String → Option String
merged_phase (some (str phase)) old = some phase
merged_phase written old = old

abbrev pub merge : List Write → Status → Status
merge writes before = record before { phase = merged_phase (last_phase writes) before.phase }

pub merge-IsMerged :
    (writes : List Write) (before : Status) → IsMerged writes before (merge writes before)
merge-IsMerged writes before = record { kept = λ e. rw e refl; replaced = λ phase e. rw e refl }

abbrev or_later : Option String → Option String → Option String
or_later none later = later
or_later (some phase) later = some phase

verdict-cases :
    (look : Result JobStatus)
    → (verdict look ≡ none) ⊎ ((verdict look ≡ some "Ready") ⊎ (verdict look ≡ some "Error"))
verdict-cases (err x) = inl refl
verdict-cases (ok js) = go js.completed js.failed
  where
    go :
        (completed failed : Bool)
        → (job_phase completed failed ≡ none)
          ⊎ ((job_phase completed failed ≡ some "Ready")
              ⊎ (job_phase completed failed ≡ some "Error"))
    go true failed = inr (inl refl)
    go false true = inr (inr refl)
    go false false = inl refl

-- A verdict ends the initialization.
verdict-final :
    (look : Result JobStatus) (phase : String)
    → verdict look ≡ some phase
    → str_eq phase "Initializing" ≡ false
verdict-final look phase e = elim (verdict-cases look) [
  | inl n ↦ absurd (cc (sym n ∙ e))
  | inr (inl q) ↦ rw (ap (λ o. get_or o "") (sym e ∙ q)) refl
  | inr (inr q) ↦ rw (ap (λ o. get_or o "") (sym e ∙ q)) refl
]

module _ (S : Server) (py : Python) (spec : ClusterSpec) (name namespace : String) where
  -- The ticks at these states of the cluster, from one status of the object to another.
  pub data Ticks : List S.State → Status → Status → Type 0 where
    done : (status : Status) → Ticks [] status status
    tick :
        {s : S.State} {ss : List S.State} {before between after : Status}
        → IsMerged (run S (reconcile_status py spec name namespace before) s).writes before between
        → Ticks ss between after
        → Ticks (s ∷ ss) before after

  -- What a look at the job says at this state.
  abbrev pub verdict_at : S.State → Option String
  verdict_at s = verdict (run S (check_db_init_job_status namespace name) s).result

  -- The first look that says something.
  abbrev pub first_verdict : List S.State → Option String
  first_verdict [] = none
  first_verdict (s ∷ ss) = or_later (verdict_at s) (first_verdict ss)

  -- Once the phase is not `Initializing`, no tick changes it.
  pub Ticks-settled :
      {ss : List S.State} {before after : Status}
      → Ticks ss before after
      → str_eq (current_phase before) "Initializing" ≡ false
      → after.phase ≡ before.phase
  Ticks-settled (done status) e = refl
  Ticks-settled (tick {s = s} {before = before} m rest) e =
      let same = m.kept (reconcile_status-settled S py spec name namespace before s e) in
      Ticks-settled rest (rw same e) ∙ same

  -- From `Initializing`, the phase after any ticks is what the first look that said something made
  -- it, and `Initializing` where none did.
  pub Ticks-first_verdict :
      {ss : List S.State} {before after : Status}
      → Ticks ss before after
      → current_phase before ≡ "Initializing"
      → current_phase after ≡ get_or (first_verdict ss) "Initializing"
  Ticks-first_verdict (done status) e = e
  Ticks-first_verdict
        (tick {s = s} {ss = ss} {before = before} {between = between} {after = after} m rest) e =
      let written = reconcile_status-verdict S py spec name namespace before s (rw e refl) in
      elim (Option-cases (verdict_at s)) [
        | inl n ↦
            let same = m.kept (written ∙ ap as_value n) in
            Ticks-first_verdict rest (ap (λ p. get_or p "Unknown") same ∙ e) ∙ rw n refl
        | inr (p, n) ↦
            let new = m.replaced p (written ∙ ap as_value n) in
            ap (λ q. get_or q "Unknown") (Ticks-settled rest (rw new (verdict-final _ p n)) ∙ new)
            ∙ rw n refl
      ]

  -- At this state the server answers with a job of which a pod has succeeded.
  pub record IsDone (s : S.State) : Type 0 where
    pub answered : Value
    pub pods : ℕ
    pub failed : Option ℕ
    pub answers : (S.respond (read (job_key namespace name)) s).0 ≡ ok answered
    pub counts : IsJob answered (some (suc pods)) failed

  pub verdict_at-IsDone : (s : S.State) → IsDone s → verdict_at s ≡ some "Ready"
  verdict_at-IsDone s d =
      ap verdict (
        check_db_init_job_status-found S namespace name s (some (suc d.pods)) d.failed d.answers
          d.counts)
      ∙ rw ((status_of-thresholds (some (suc d.pods)) d.failed).0.1 (omega arith)) refl

  first_verdict-Ready :
      (ss : List S.State)
      → All (λ t. verdict_at t ≢ some "Error") ss
      → (s : S.State) → In s ss
      → verdict_at s ≡ some "Ready"
      → first_verdict ss ≡ some "Ready"
  first_verdict-Ready [] a s i q = absurd i
  first_verdict-Ready (t ∷ ss) a s (inl e) q = rw (← e) (rw q refl)
  first_verdict-Ready (t ∷ ss) a s (inr i) q =
      let later = first_verdict-Ready ss a.1 s i q in
      elim (verdict-cases (run S (check_db_init_job_status namespace name) t).result) [
        | inl n ↦ rw n later
        | inr (inl n) ↦ rw n refl
        | inr (inr n) ↦ absurd (a.0 n)
      ]

  first_verdict-none :
      (ss : List S.State) → All (λ t. verdict_at t ≡ none) ss → first_verdict ss ≡ none
  first_verdict-none [] a = refl
  first_verdict-none (t ∷ ss) a = rw a.0 (first_verdict-none ss a.1)

  -- At this state the server answers that there is no job.
  abbrev pub IsMissing : S.State → Type 0
  IsMissing s =
      (text : String) × ((S.respond (read (job_key namespace name)) s).0
        ≡ err (api_exception 404 text))

-- From `Initializing`, the phase is `Ready` after any ticks of which one sees that a pod of the job
-- has succeeded and none finds the job failed, whatever else the server answers and whatever others
-- do to the cluster between the ticks.
pub Ticks-Ready :
    (S : Server) (py : Python) (spec : ClusterSpec) (name namespace : String) {ss : List S.State}
    {before after : Status} {s : S.State}
    → Ticks S py spec name namespace ss before after
    → current_phase before ≡ "Initializing"
    → All (λ t. verdict_at S py spec name namespace t ≢ some "Error") ss
    → In s ss
    → IsDone S py spec name namespace s
    → current_phase after ≡ "Ready"
Ticks-Ready S py spec name namespace {ss} {s = s} run e a i d =
    Ticks-first_verdict S py spec name namespace run e
    ∙ ap (λ v. get_or v "Initializing")
        (first_verdict-Ready S py spec name namespace ss a s i
          (verdict_at-IsDone S py spec name namespace s d))

-- From `Initializing`, the phase is still `Initializing` after any ticks that all find the job
-- missing.
pub Ticks-stuck :
    (S : Server) (py : Python) (spec : ClusterSpec) (name namespace : String) {ss : List S.State}
    {before after : Status}
    → Ticks S py spec name namespace ss before after
    → current_phase before ≡ "Initializing"
    → All (IsMissing S py spec name namespace) ss
    → current_phase after ≡ "Initializing"
Ticks-stuck S py spec name namespace {ss} run e a =
    Ticks-first_verdict S py spec name namespace run e
    ∙ ap (λ v. get_or v "Initializing")
        (first_verdict-none S py spec name namespace ss (
          All-imp _ _ ss
            (λ t m. ap verdict (check_db_init_job_status-missing S namespace name t m.0 m.1)) a))
