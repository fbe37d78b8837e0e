-- ===== src/ModuleSync/Reports.antt =====
-- What the sync reports of a running pod.
use odoo_operator.Base.{
  String, ◌≡◌, refl, ap, sym, ◌∙◌, ◌++◌, ◌↔◌, Bool, true, false, List, [], ◌∷◌, str_eq,
  if◌then◌else◌,
}
use odoo_operator.Prog.{ok}
use odoo_operator.Server.{Server}
use odoo_operator.Server.Run.{run}
use odoo_operator.Server.Rules.{bind_ok}
use odoo_operator.ModuleSync.Exec.{check_installed_modules, install_modules_on_pod}
use odoo_operator.ModuleSync.Exec.Rules.{
  check_installed_modules-returns, install_modules_on_pod-returns,
}
use odoo_operator.ModuleSync.{Target, PodResult, Progress, missing_from, install_missing, sync_pod}

-- The report is on this pod, and says `synced` exactly where nothing was missing.
abbrev pub IsReport : String → List String → PodResult → Type 0
IsReport pod_name missing r =
    (r.pod ≡ pod_name) × ((str_eq r.status "synced" ≡ true) ↔ (missing ≡ []))

-- What the loop has accumulated after a report.
abbrev pub extended : Progress → PodResult → Progress
extended so_far r = record {
  all_synced = if str_eq r.status "synced" then so_far.all_synced else false;
  results = so_far.results ++ (r ∷ []);
}

module _ (S : Server) (t : Target) (so_far : Progress) (pod_name : String) where
  reported :
      (m : String) (ms : List String) (success : Bool)
      → IsReport pod_name (m ∷ ms) (record {
        pod = pod_name;
        installed = if success then m ∷ ms else [];
        status = if success then "success" else "failed";
      })
  reported m ms true = (refl, (λ e. absurd (cc e), λ e. absurd (cc e)))
  reported m ms false = (refl, (λ e. absurd (cc e), λ e. absurd (cc e)))

  cleared :
      (success : Bool)
      → (if str_eq (if success then "success" else "failed") "synced"
          then so_far.all_synced
          else false)
        ≡ false
  cleared true = refl
  cleared false = refl

  install_missing-IsReport :
      (missing : List String) (s : S.State)
      → (r : PodResult) × ((run S (install_missing t pod_name so_far missing) s).result
          ≡ ok (extended so_far r))
        × IsReport pod_name missing r
  unfolding install_missing run
  install_missing-IsReport [] s = (
    record { pod = pod_name; installed = []; status = "synced" },
    refl,
    (refl, (λ e. refl, λ e. refl)),
  )
  install_missing-IsReport (m ∷ ms) s =
      let (success, e) =
        install_modules_on_pod-returns S t.namespace pod_name (m ∷ ms) t.db_host t.db_password s in
      let r : PodResult = record {
        pod = pod_name;
        installed = if success then m ∷ ms else [];
        status = if success then "success" else "failed";
      } in
      (
        r,
        ap (λ o. o.result)
              (bind_ok S
                (install_modules_on_pod t.namespace pod_name (m ∷ ms) t.db_host t.db_password) _ s
                e)
            ∙ ap (λ b. ok (record { all_synced = b; results = so_far.results ++ (r ∷ []) }))
                (sym (cleared success)),
        reported m ms success,
      )

-- Whatever the server answers, the sync of a pod adds one report on it to what the loop has
-- accumulated. The report says `synced` exactly where none of the wanted modules was missing from
-- the list that the look at the pod gave, and the flag is cleared where it does not say so.
pub sync_pod-IsReport :
    (S : Server) (t : Target) (modules : List String) (so_far : Progress) (pod_name : String)
    (s : S.State)
    → (installed : List String) × ((run S
          (check_installed_modules t.namespace pod_name t.db_host t.db_password)
          s).result
        ≡ ok installed)
      × (r : PodResult) × ((run S (sync_pod t modules so_far pod_name) s).result
          ≡ ok (extended so_far r))
      × IsReport pod_name (missing_from installed modules) r
unfolding sync_pod
sync_pod-IsReport S t modules so_far pod_name s =
    let look = check_installed_modules t.namespace pod_name t.db_host t.db_password in
    let (installed, e) =
      check_installed_modules-returns S t.namespace pod_name t.db_host t.db_password s in
    let (r, q, report) =
      install_missing-IsReport S t so_far pod_name (missing_from installed modules)
        (run S look s).state in
    (installed, e, r, ap (λ o. o.result) (bind_ok S look _ s e) ∙ q, report)
