-- ===== src/DbInit.antt =====
-- src/handlers/db_init.py: the job that initializes or restores the database, its status and its
-- deletion.
pub mod Script
pub mod Restore
pub mod Init
pub mod Pod
pub mod Rules
pub mod Status
use odoo_operator.Base.{
  ℕ, String, ◌<>◌, Bool, true, false, Option, none, some, List, [], ◌∷◌, ltb, leb, join, nonempty,
  if◌then◌else◌,
}
use odoo_operator.Value.{Value, null, num, obj, model}
use odoo_operator.Prog.{
  Key, pvc, secret, job, read, other_error, Prog, ret, raise, ◌>>=◌, ◌>>◌, catch, request, when,
  has_status,
}
use odoo_operator.Kube.{create_or_skip, create_if_missing, delete_if_present}
use odoo_operator.Python.{Python}
use odoo_operator.Password.{generate_password}
use odoo_operator.Spec
use odoo_operator.Spec.{Addon}
use odoo_operator.Owner.{OwnerRef, key}
use odoo_operator.Dynamic.{get_attr}
use odoo_operator.DbInit.Script.{get_modules_to_install, build_addons_path}
use odoo_operator.DbInit.Restore.{build_restore_script}
use odoo_operator.DbInit.Init.{init_script}
use odoo_operator.DbInit.Pod.{
  secret_body, claim_spec, addons_body, restore_enabled, restore_s3, volume_mounts, volumes,
  init_containers, env_vars, pod_spec, job_body,
}

abbrev pub job_key : String → String → Key
job_key namespace name = key job namespace (name <> "-db-init")

abbrev pub addons_key : String → String → Key
addons_key namespace name = key pvc namespace (name <> "-odoo-addons")

-- The arguments of `create_db_init_job`.
pub record JobArgs : Type 0 where
  pub namespace : String
  pub name : String
  pub odoo_image : String
  pub db_host : String
  pub db_secret : String
  pub admin_secret_name : String
  pub addons : List Addon
  pub storage_class_name : Option String
  pub restore : Option Spec.Restore
  pub owner_ref : Option OwnerRef

abbrev pub secret_key : JobArgs → Key
secret_key a = key secret a.namespace a.admin_secret_name

-- `",".join(["base"] + modules_to_install) if modules_to_install else "base"`
modules_str : List String → String
modules_str modules = if nonempty modules then join "," ("base" ∷ modules) else "base"

-- The script of the job's container: a restore, or an initialization.
pub job_script : JobArgs → String
unfolding modules_str
job_script a =
    if restore_enabled a.restore
    then build_restore_script a.db_host (restore_s3 a.restore)
    else init_script a.db_host (modules_str (get_modules_to_install a.addons))
        (if nonempty a.addons then build_addons_path a.addons else "/mnt/extra-addons")

module _ (py : Python) where
  pub job_pod : JobArgs → Value
  job_pod a =
      let mounts = volume_mounts py a.addons a.restore in
      pod_spec a.odoo_image (job_script a) (env_vars a.db_secret a.admin_secret_name a.restore)
        mounts (volumes py a.name a.addons a.restore) (init_containers a.addons mounts)

  -- The password is made before the secret is looked for. The result is the job's name.
  pub create_db_init_job : JobArgs → Prog String
  unfolding job_pod
  create_db_init_job a = do
    admin_password ← generate_password 32
    create_if_missing (secret_key a)
        (ret (secret_body a.namespace a.name a.admin_secret_name admin_password a.owner_ref))
    when (nonempty a.addons) (
        create_or_skip (addons_key a.namespace a.name)
          (addons_body a.namespace a.name (claim_spec a.storage_class_name) a.owner_ref))
    create_or_skip (job_key a.namespace a.name)
        (job_body a.namespace a.name (job_pod a) a.owner_ref)
    ret (a.name <> "-db-init")

-- The dict that `check_db_init_job_status` returns.
pub record JobStatus : Type 0 where
  pub exists : Bool
  pub completed : Bool
  pub failed : Bool
  pub message : String

-- A count, or `None`.
count : Value → Prog (Option ℕ)
count (num n) = ret (some n)
count null = ret none
count _ = raise (other_error "TypeError")

-- `job.status.succeeded` and `job.status.failed`
pub count_of : Value → String → Prog (Option ℕ)
unfolding count
count_of status name = do v ← get_attr status name; count v

-- `n and n > 0`, `n and n >= 3`
abbrev pub above_zero : Option ℕ → Bool
above_zero none = false
above_zero (some n) = ltb 0 n

abbrev pub at_least_three : Option ℕ → Bool
at_least_three none = false
at_least_three (some n) = leb 3 n

pub status_of : Option ℕ → Option ℕ → JobStatus
status_of succeeded failed =
    if above_zero succeeded
    then record {
      exists = true;
      completed = true;
      failed = false;
      message = "Database initialization completed";
    }
    else if at_least_three failed
    then record {
      exists = true;
      completed = false;
      failed = true;
      message = "Database initialization failed after 3 attempts";
    }
    else record {
      exists = true;
      completed = false;
      failed = false;
      message = "Database initialization in progress";
    }

abbrev pub missing_status : JobStatus
missing_status = record {
  exists = false;
  completed = false;
  failed = false;
  message = "Database initialization job not found";
}

read_status : String → String → Prog JobStatus
unfolding count_of status_of
read_status namespace name = do
  j ← request (read (job_key namespace name))
  status ← get_attr j "status"
  succeeded ← count_of status "succeeded"
  failed ← count_of status "failed"
  ret (status_of succeeded failed)

pub check_db_init_job_status : String → String → Prog JobStatus
unfolding read_status
check_db_init_job_status namespace name =
    catch (read_status namespace name) λ e. if has_status 404 e then ret missing_status else raise e

pub delete_db_init_job : String → String → Prog Unit
delete_db_init_job namespace name = do delete_if_present (job_key namespace name)
