-- ===== src/Main/Reconcile/Rules.antt =====
-- What the timer requests and that it returns: it writes no object of the cluster.
use odoo_operator.Base.{String, ◌≡◌, ap, inl, inr}
use odoo_operator.Value.{Value}
use odoo_operator.Prog.{Key, Prog, ok, ◌>>=◌, ◌>>◌, set_status}
use odoo_operator.Prog.Only.{
  Only, Only-bind, Only-catch, Only-ret, Only-when, Only-branch, Only-set_status, Only-imp,
}
use odoo_operator.Prog.Reader.{IsRead, Reader-Only}
use odoo_operator.Server.{Server, IsLawful}
use odoo_operator.Server.Run.{run}
use odoo_operator.Server.Rules.{Result-cases, catch_ok, catch_err}
use odoo_operator.Server.Lasting.{IsRead-Misses, Only-frame}
use odoo_operator.Python.{Python}
use odoo_operator.Spec.{ClusterSpec}
use odoo_operator.Database.Rules.{Reader-check_database_ready}
use odoo_operator.DbInit.{JobStatus}
use odoo_operator.DbInit.Rules.{Reader-check_db_init_job_status}
use odoo_operator.Cloudflare.Rules.{Reader-check_cloudflare_tunnel_ready}
use odoo_operator.ModuleSync.Rules.{Reader-sync_modules_for_cluster}
use odoo_operator.Main.Creation.Rules.{Only-touch}
use odoo_operator.Main.Creation.{touch}
use odoo_operator.Main.Reconcile.{
  Status, current_phase, init_status, apply_job_status, check_job, check_database, check_tunnel,
  sync_modules, reconcile_status,
}

-- The four writes that follow the end of the job.
Only-report :
    (name state : String) (v w : Value)
    → Only IsRead (
        init_status name state >>= λ _.
        (set_status "phase" v >>= λ _. (set_status "message" w >>= λ _. touch)))
unfolding init_status
Only-report name state v w =
    Only-bind (Only-set_status _ _)
      λ _. Only-bind (Only-set_status _ _) λ _. Only-bind (Only-set_status _ _) λ _. Only-touch tt

Only-apply_job_status : (name : String) (js : JobStatus) → Only IsRead (apply_job_status name js)
unfolding apply_job_status
Only-apply_job_status name js =
    Only-branch js.completed (Only-report _ _ _ _) (Only-when js.failed (Only-report _ _ _ _))

-- The `try` block.
abbrev pub body : Python → ClusterSpec → String → String → Status → Prog (Unit {0})
body py spec name namespace status = do
  check_job (current_phase status) name namespace
  check_database status name namespace
  check_tunnel spec status name namespace
  sync_modules py spec (current_phase status) name namespace

module _ (name namespace : String) where
  Only-check_job : (phase : String) → Only IsRead (check_job phase name namespace)
  unfolding check_job
  Only-check_job phase = Only-when _ (
      Only-bind (Reader-Only (Reader-check_db_init_job_status namespace name))
        (Only-apply_job_status name))

  Only-check_database : (status : Status) → Only IsRead (check_database status name namespace)
  unfolding check_database
  Only-check_database status = Only-when _ (
      Only-bind (Reader-Only (Reader-check_database_ready namespace name))
        λ db_ready. Only-when _ (Only-bind (Only-set_status _ _) λ _. Only-touch tt))

  Only-check_tunnel :
      (spec : ClusterSpec) (status : Status) → Only IsRead (check_tunnel spec status name namespace)
  unfolding check_tunnel
  Only-check_tunnel spec status = Only-when _ (
      Only-bind (Reader-Only (Reader-check_cloudflare_tunnel_ready namespace name))
        λ cf_ready. Only-when _ (Only-bind (Only-set_status _ _) λ _. Only-touch tt))

  module _ (py : Python) where
    Only-sync_modules :
        (spec : ClusterSpec) (phase : String)
        → Only IsRead (sync_modules py spec phase name namespace)
    unfolding sync_modules
    Only-sync_modules spec phase = Only-when _ (
        Only-bind (Reader-Only (Reader-sync_modules_for_cluster py namespace name _ _ _))
          λ module_status. Only-bind (Only-set_status _ _) λ _. Only-touch tt)

    Only-reconcile_status :
        (spec : ClusterSpec) (status : Status)
        → Only IsRead (reconcile_status py spec name namespace status)
    unfolding reconcile_status
    Only-reconcile_status spec status =
        Only-catch
          (Only-bind (Only-check_job _) λ _.
            Only-bind (Only-check_database status)
              λ _. Only-bind (Only-check_tunnel spec status) λ _. Only-sync_modules spec _)
          λ e. Only-ret tt

reconcile_status-returns :
    (S : Server) (py : Python) (spec : ClusterSpec) (name namespace : String) (status : Status)
    (s : S.State)
    → (run S (reconcile_status py spec name namespace status) s).result ≡ ok tt
unfolding reconcile_status run
reconcile_status-returns S py spec name namespace status s =
    elim (Result-cases (run S (body py spec name namespace status) s).result) [
      | inl (a, e) ↦ ap (λ o. o.result) (catch_ok S (body py spec name namespace status) _ s e)
      | inr (x, e) ↦ ap (λ o. o.result) (catch_err S (body py spec name namespace status) _ s e)
    ]

-- The timer's handler returns, whatever the server answers and whatever the spec and the status
-- are, and every object of a lawful server is the same after it.
pub reconcile_status-harmless :
    (S : Server) (py : Python) (spec : ClusterSpec) (name namespace : String) (status : Status)
    (s : S.State) (k : Key)
    → IsLawful S
    → ((run S (reconcile_status py spec name namespace status) s).result ≡ ok tt)
      × (S.find (run S (reconcile_status py spec name namespace status) s).state k ≡ S.find s k)
reconcile_status-harmless S py spec name namespace status s k L = (
  reconcile_status-returns S py spec name namespace status s,
  Only-frame S L k _ s
      (Only-imp (IsRead-Misses k) (Only-reconcile_status name namespace py spec status)),
)
