-- ===== src/ModuleSync/Rules.antt =====
-- The sync of modules reads and runs commands on pods; it writes no object and no status.
use odoo_operator.Base.{String, Bool, true, false, List, [], ◌∷◌, Option, none, some}
use odoo_operator.Value.{Value, Items, nil, cons}
use odoo_operator.Prog.{Exn, api_exception, Prog, raise}
use odoo_operator.Prog.Reader.{
  Reader, Reader-bind, Reader-catch, Reader-ret, Reader-raise, Reader-request, Reader-as_text,
}
use odoo_operator.Dynamic.Rules.{Reader-get_attr, Reader-get_value, Reader-lift}
use odoo_operator.Python.{Python}
use odoo_operator.Spec.{Addon}
use odoo_operator.ModuleSync.Exec.Rules.{
  Reader-as_items, Reader-check_installed_modules, Reader-install_modules_on_pod,
}
use odoo_operator.ModuleSync.{
  read_pod, Target, Progress, sync_pod, sync_pods, install_missing, with_password, sync_wanted,
  catch_api, read_password, sync_with, sync_listed, get_modules_to_install,
  sync_modules_for_cluster,
}

Reader-install_missing :
    (t : Target) (pod_name : String) (so_far : Progress) (ms : List String)
    → Reader (install_missing t pod_name so_far ms)
unfolding install_missing
Reader-install_missing t pod_name so_far [] = Reader-ret _
Reader-install_missing t pod_name so_far (m ∷ ms) =
    Reader-bind (Reader-install_modules_on_pod _ _ _ _ _) λ success. Reader-ret _

Reader-sync_pod :
    (t : Target) (modules : List String) (so_far : Progress) (pod_name : String)
    → Reader (sync_pod t modules so_far pod_name)
unfolding sync_pod
Reader-sync_pod t modules so_far pod_name =
    Reader-bind (Reader-check_installed_modules _ _ _ _)
      λ installed. Reader-install_missing t pod_name so_far _

Reader-read_pod : (v : Value) → Reader (read_pod v)
unfolding read_pod
Reader-read_pod v = Reader-bind (Reader-get_attr v _) λ status.
    Reader-bind (Reader-get_attr status _) λ phase. Reader-bind (Reader-get_attr v _) λ metadata.
      Reader-bind (Reader-get_attr metadata _)
        λ n. Reader-bind (Reader-as_text n) λ name. Reader-ret _

Reader-branch :
    {A : Type 0} (b : Bool) {m n : Prog A}
    → Reader m
    → Reader n
    → Reader (elim b [ true ↦ m | false ↦ n ])
Reader-branch true m n = m
Reader-branch false m n = n

Reader-sync_pods :
    (t : Target) (modules : List String) (pods : Items) (so_far : Progress)
    → Reader (sync_pods t modules pods so_far)
unfolding sync_pods
Reader-sync_pods t modules nil so_far = Reader-ret _
Reader-sync_pods t modules (cons v pods) so_far = Reader-bind (Reader-read_pod v) λ pod.
    Reader-branch _
      (Reader-bind (Reader-sync_pod t modules so_far pod.name)
        λ next. Reader-sync_pods t modules pods next)
      (Reader-sync_pods t modules pods so_far)

module _ {A : Type 0} {h : Prog A} (d : Reader h) where
  Reader-handler : (e : Exn) → Reader (elim e [ api_exception code text ↦ h | other ↦ raise other ])
  Reader-handler (api_exception code text) = d
  Reader-handler other = Reader-raise other

  Reader-catch_api : {m : Prog A} → Reader m → Reader (catch_api m h)
  Reader-catch_api c = Reader-catch c Reader-handler

module _ (py : Python) where
  Reader-read_password :
      (namespace db_secret : String) → Reader (read_password py namespace db_secret)
  unfolding read_password
  Reader-read_password namespace db_secret = Reader-catch_api (Reader-ret none) (
      Reader-bind (Reader-request _ tt) λ s. Reader-bind (Reader-get_attr s _) λ held.
        Reader-bind (Reader-get_value held _ _) λ v.
          Reader-bind (Reader-as_text v)
            λ encoded. Reader-bind (Reader-lift _) λ password. Reader-ret _)

  Reader-with_password :
      (namespace : String) (modules : List String) (db_host : String) (pods : Items)
      (p : Option String)
      → Reader (with_password namespace modules db_host pods p)
  unfolding with_password
  Reader-with_password namespace modules db_host pods none = Reader-ret _
  Reader-with_password namespace modules db_host pods (some p) =
      Reader-bind (Reader-sync_pods _ modules pods _) λ done. Reader-ret _

  Reader-sync_listed :
      (namespace : String) (modules : List String) (db_host db_secret : String) (pods : Items)
      → Reader (sync_listed py namespace modules db_host db_secret pods)
  unfolding sync_listed sync_with
  Reader-sync_listed namespace modules db_host db_secret nil = Reader-ret _
  Reader-sync_listed namespace modules db_host db_secret (cons v pods) =
      Reader-bind (Reader-read_password namespace db_secret)
        λ password. Reader-with_password _ _ _ (cons v pods) password

  Reader-sync_wanted :
      (namespace name : String) (modules : List String) (db_host db_secret : String)
      → Reader (sync_wanted py namespace name modules db_host db_secret)
  unfolding sync_wanted
  Reader-sync_wanted namespace name [] db_host db_secret = Reader-ret _
  Reader-sync_wanted namespace name (m ∷ ms) db_host db_secret =
      Reader-bind (Reader-request _ tt) λ pods. Reader-bind (Reader-get_attr pods _) λ items.
        Reader-bind (Reader-as_items items)
          λ found. Reader-sync_listed namespace (m ∷ ms) db_host db_secret found

  pub Reader-sync_modules_for_cluster :
      (namespace name : String) (addons : List Addon) (db_host db_secret : String)
      → Reader (sync_modules_for_cluster py namespace name addons db_host db_secret)
  unfolding sync_modules_for_cluster
  Reader-sync_modules_for_cluster namespace name addons db_host db_secret =
      Reader-sync_wanted namespace name (get_modules_to_install addons) db_host db_secret
