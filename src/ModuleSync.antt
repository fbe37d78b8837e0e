-- ===== src/ModuleSync.antt =====
-- src/handlers/module_sync.py: the modules that each running pod lacks are installed on it.
pub mod Exec
pub mod Rules
pub mod Missing
pub mod Reports
pub mod Yields
pub mod Loop
pub mod Summary
use Prim.Native.Char.{Char}
use text.Mathlib.Text.{find?}
use odoo_operator.Base.{
  ℕ, String, ◌<>◌, Bool, true, false, not, ◌||◌, Option, none, some, List, [], ◌∷◌, ◌++◌, map, join,
  truthy_opt, get_or, nonempty, str_eq, chars, text_of, strip, split_lines, if◌then◌else◌,
}
use odoo_operator.Value.{Value, null, bool, str, arr, Items, nil, cons, dict, list}
use odoo_operator.Prog.{
  Key, secret, read, list_pods, exec, other_error, Exn, api_exception, Prog, ret, raise, ◌>>=◌,
  ◌>>◌, catch, request, as_text,
}
use odoo_operator.Python.{Python}
use odoo_operator.Dynamic.{get_attr, get_value, lift}
use odoo_operator.Spec.{Addon}
use odoo_operator.Owner.{key}
use odoo_operator.ModuleSync.Exec.{as_items, check_installed_modules, install_modules_on_pod}

-- The path of every addon that has one, whatever its `install` says.
abbrev path_of : Addon → List String
path_of a = if truthy_opt a.path then get_or a.path "" ∷ [] else []

unfoldable pub get_modules_to_install : List Addon → List String
get_modules_to_install [] = []
get_modules_to_install (a ∷ addons) = path_of a ++ get_modules_to_install addons

-- `x in xs`
unfoldable pub contains : String → List String → Bool
contains x [] = false
contains x (y ∷ ys) = str_eq x y || contains x ys

-- `[m for m in modules_to_install if m not in installed]`
unfoldable pub missing_from : List String → List String → List String
unfolding contains
missing_from installed [] = []
missing_from installed (m ∷ ms) =
    let rest = missing_from installed ms in if contains m installed then rest else m ∷ rest

-- An entry of `podResults`.
pub record PodResult : Type 0 where
  pub pod : String
  pub installed : List String
  pub status : String

-- The dict that `sync_modules_for_cluster` returns; `podResults` is there only after the loop.
pub record SyncStatus : Type 0 where
  pub synced : Bool
  pub modules : List String
  pub pod_results : Option (List PodResult)
  pub message : String

abbrev strings : List String → Value
strings xs = list (map str xs)

abbrev result_dict : PodResult → Value
result_dict r =
    dict (("pod", str r.pod) ∷ ("installed", strings r.installed) ∷ ("status", str r.status) ∷ [])

pub sync_dict : SyncStatus → Value
sync_dict s = dict (
    ("synced", bool s.synced)
    ∷ ("modules", strings s.modules)
    ∷ (elim s.pod_results [ none ↦ [] | some rs ↦ ("podResults", list (map result_dict rs)) ∷ [] ]
        ++ (("message", str s.message) ∷ [])))

-- A pod, as far as the loop reads it.
pub record Pod : Type 0 where
  pub name : String
  pub phase : Value

unfoldable pub read_pod : Value → Prog Pod
read_pod v = do
  status ← get_attr v "status"
  phase ← get_attr status "phase"
  metadata ← get_attr v "metadata"
  name ← as_text (← get_attr metadata "name")
  ret (record { name = name; phase = phase })

unfoldable pub is_running : Value → Bool
is_running (str s) = str_eq s "Running"
is_running _ = false

-- The arguments that the loop passes on.
pub record Target : Type 0 where
  pub namespace : String
  pub db_host : String
  pub db_password : String

-- What the loop accumulates.
pub record Progress : Type 0 where
  pub all_synced : Bool
  pub results : List PodResult

-- What the loop does with the modules that a pod lacks.
unfoldable pub install_missing : Target → String → Progress → List String → Prog Progress
install_missing t pod_name so_far [] = ret (record {
  all_synced = so_far.all_synced;
  results = so_far.results ++ (record { pod = pod_name; installed = []; status = "synced" } ∷ []);
})
install_missing t pod_name so_far (m ∷ ms) = do
  success ← install_modules_on_pod t.namespace pod_name (m ∷ ms) t.db_host t.db_password
  ret (record {
    all_synced = false;
    results =
        so_far.results
        ++ (record {
          pod = pod_name;
          installed = if success then m ∷ ms else [];
          status = if success then "success" else "failed";
        }
            ∷ []);
  })

-- The body of the loop for a running pod.
unfoldable pub sync_pod : Target → List String → Progress → String → Prog Progress
unfolding install_missing
sync_pod t modules so_far pod_name = do
  installed ← check_installed_modules t.namespace pod_name t.db_host t.db_password
  install_missing t pod_name so_far (missing_from installed modules)

-- The loop: the pods that are not running are passed over.
unfoldable pub sync_pods : Target → List String → Items → Progress → Prog Progress
unfolding sync_pod read_pod is_running
sync_pods t modules nil so_far = ret so_far
sync_pods t modules (cons v pods) so_far = do
  pod ← read_pod v
  elim (is_running pod.phase) [
    | true ↦ do next ← sync_pod t modules so_far pod.name; sync_pods t modules pods next
    | false ↦ sync_pods t modules pods so_far
  ]

-- Before the loop.
abbrev pub at_start : Progress
at_start = record { all_synced = true; results = [] }

-- The status after the loop.
unfoldable pub loop_status : List String → Progress → SyncStatus
loop_status modules p = record {
  synced = p.all_synced;
  modules = modules;
  pod_results = some p.results;
  message = if p.all_synced then "All modules synced" else "Module sync in progress";
}

abbrev failed_status : List String → String → SyncStatus
failed_status modules message = record {
  synced = false;
  modules = modules;
  pod_results = none;
  message = message;
}

-- The label selector of the Odoo pods.
abbrev pub pod_selector : String → String
pod_selector name =
    "odoo.simstech.cloud/cluster=" <> (name <> ",odoo.simstech.cloud/component=odoo")

-- Only an `ApiException` is caught.
abbrev catch_api : {A : Type 0} → Prog A → Prog A → Prog A
catch_api m h = catch m λ e. elim e [ api_exception code text ↦ h | other ↦ raise other ]

-- The loop, or the failure where the password could not be read.
unfoldable pub with_password :
    String → List String → String → Items → Option String → Prog SyncStatus
unfolding sync_pods loop_status
with_password namespace modules db_host pods none =
    ret (failed_status modules "Could not read database secret")
with_password namespace modules db_host pods (some p) = do
  let t : Target = record { namespace = namespace; db_host = db_host; db_password = p }
  done ← sync_pods t modules pods at_start
  ret (loop_status modules done)

module _ (py : Python) where
  -- The database password, or `none` after an `ApiException`.
  unfoldable pub read_password : String → String → Prog (Option String)
  read_password namespace db_secret =
      catch_api
        (do
          s ← request (read (key secret namespace db_secret))
          held ← get_attr s "data"
          encoded ← as_text (← get_value held "password" (str ""))
          password ← lift (py.decode encoded)
          ret (some password))
        (ret none)

  unfoldable pub sync_with : String → List String → String → String → Items → Prog SyncStatus
  unfolding read_password with_password
  sync_with namespace modules db_host db_secret pods = do
    password ← read_password namespace db_secret
    with_password namespace modules db_host pods password

  unfoldable pub sync_listed : String → List String → String → String → Items → Prog SyncStatus
  unfolding sync_with
  sync_listed namespace modules db_host db_secret nil =
      ret (failed_status modules "No Odoo pods found")
  sync_listed namespace modules db_host db_secret (cons v pods) =
      sync_with namespace modules db_host db_secret (cons v pods)

  unfoldable pub sync_wanted : String → String → List String → String → String → Prog SyncStatus
  unfolding sync_listed
  sync_wanted namespace name [] db_host db_secret = ret (record {
    synced = true;
    modules = [];
    pod_results = none;
    message = "No modules to install";
  })
  sync_wanted namespace name (m ∷ ms) db_host db_secret = do
    pods ← request (list_pods namespace (pod_selector name))
    found ← as_items (← get_attr pods "items")
    sync_listed namespace (m ∷ ms) db_host db_secret found

  unfoldable pub sync_modules_for_cluster :
      String → String → List Addon → String → String → Prog SyncStatus
  unfolding sync_wanted
  sync_modules_for_cluster namespace name addons db_host db_secret =
      sync_wanted namespace name (get_modules_to_install addons) db_host db_secret
