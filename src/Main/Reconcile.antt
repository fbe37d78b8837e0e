-- ===== src/Main/Reconcile.antt =====
-- `reconcile_status` in src/main.py, which a timer calls.
pub mod Rules
pub mod Phase
pub mod Ticks
use odoo_operator.Base.{
  String, ◌<>◌, Bool, true, false, not, ◌&&◌, ◌||◌, Option, none, some, List, [], ◌∷◌, get_or,
  nonempty, str_eq, if◌then◌else◌,
}
use odoo_operator.Value.{bool, str, dict}
use odoo_operator.Prog.{Prog, ret, ◌>>=◌, ◌>>◌, catch, set_status, when}
use odoo_operator.Python.{Python}
use odoo_operator.Spec.{ClusterSpec}
use odoo_operator.Spec.Parts.{addon_list_of, cloudflare_of, is_enabled}
use odoo_operator.Database.{check_database_ready}
use odoo_operator.DbInit.{JobStatus, check_db_init_job_status}
use odoo_operator.Cloudflare.{check_cloudflare_tunnel_ready}
use odoo_operator.ModuleSync.{sync_modules_for_cluster, sync_dict}
use odoo_operator.Main.Creation.{touch, db_host_name}

-- What the handler reads of the status that the object has.
pub record Status : Type 0 where
  pub phase : Option String
  pub database_ready : Option Bool
  pub cloudflare_ready : Option Bool

abbrev pub current_phase : Status → String
current_phase s = get_or s.phase "Unknown"

-- `current_phase in ['Ready', 'Initializing']`
abbrev pub is_monitored : String → Bool
is_monitored phase = str_eq phase "Ready" || str_eq phase "Initializing"

-- `ready != now_ready`, where the first may be missing.
abbrev pub differs : Option Bool → Bool → Bool
differs none b = true
differs (some true) b = not b
differs (some false) b = b

-- The dict of `patch.status['dbInit']`.
init_status : String → String → Prog Unit
init_status name state =
    set_status "dbInit" (dict (("jobName", str (name <> "-db-init")) ∷ ("status", str state) ∷ []))

pub apply_job_status : String → JobStatus → Prog Unit
unfolding init_status
apply_job_status name js = elim js.completed [
  | true ↦ do
    init_status name "completed"
    set_status "phase" (str "Ready")
    set_status "message" (str "Database initialized, cluster ready")
    touch
  | false ↦ when js.failed (do
    init_status name "failed"
    set_status "phase" (str "Error")
    set_status "message" (str "Database initialization failed")
    touch)
]

pub check_job : String → String → String → Prog Unit
check_job phase name namespace =
    when (str_eq phase "Initializing")
      (do js ← check_db_init_job_status namespace name; apply_job_status name js)

pub check_database : Status → String → String → Prog Unit
check_database status name namespace = when (is_monitored (current_phase status)) (do
  db_ready ← check_database_ready namespace name
  when (differs status.database_ready db_ready) (do
    set_status "database"
        (dict (("host", str (db_host_name namespace name)) ∷ ("ready", bool db_ready) ∷ []))
    touch))

pub check_tunnel : ClusterSpec → Status → String → String → Prog Unit
check_tunnel spec status name namespace =
    when (is_enabled (cloudflare_of spec).enabled && is_monitored (current_phase status)) (do
      cf_ready ← check_cloudflare_tunnel_ready namespace name
      when (differs status.cloudflare_ready cf_ready)
          (do set_status "cloudflare" (dict (("ready", bool cf_ready) ∷ [])); touch))

module _ (py : Python) where
  pub sync_modules : ClusterSpec → String → String → String → Prog Unit
  sync_modules spec phase name namespace =
      when (str_eq phase "Ready" && nonempty (addon_list_of spec)) (do
        module_status ←
            sync_modules_for_cluster py namespace name (addon_list_of spec) (name <> "-db-rw")
              (name <> "-db-app")
        set_status "modules" (sync_dict module_status)
        touch)

  -- Every exception is logged and dropped.
  pub reconcile_status : ClusterSpec → String → String → Status → Prog Unit
  unfolding check_job check_database check_tunnel sync_modules
  reconcile_status spec name namespace status =
      catch
        (do
          check_job (current_phase status) name namespace
          check_database status name namespace
          check_tunnel spec status name namespace
          sync_modules spec (current_phase status) name namespace)
        λ e. ret tt
