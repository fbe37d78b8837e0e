-- ===== src/FilestoreBackup.antt =====
-- src/handlers/filestore_backup.py: the CronJob that copies the filestore to S3.
pub mod Body
pub mod Rules
use odoo_operator.Base.{
  ℕ, String, ◌<>◌, Bool, true, Option, none, some, List, [], ◌∷◌, ◌++◌, join, truthy_opt, get_or,
  if◌then◌else◌,
}
use odoo_operator.Value.{Value, num, str, bool, dict, list, new, str_opt}
use odoo_operator.Prog.{
  Key, cron_job, job, create, read, Exn, permanent_error, api_exception, Prog, ret, raise, ◌>>=◌,
  ◌>>◌, catch, request, when,
}
use odoo_operator.FilestoreBackup.Body.{BackupArgs, cronjob_body}
use odoo_operator.Kube.{create_or_patch_wrapped, delete_if_present, permanent}
use odoo_operator.Dynamic.{get_attr}
use odoo_operator.Owner.{OwnerRef, owner_entry, labels, selector, key}

abbrev pub cron_key : String → String → Key
cron_key namespace name = key cron_job namespace (name <> "-filestore-backup")

-- Without a bucket nothing is done.
pub create_filestore_backup_job : BackupArgs → Prog Unit
unfolding cronjob_body
create_filestore_backup_job a = when (truthy_opt a.s3_bucket) (
    create_or_patch_wrapped "Failed to create filestore backup job: " (cron_key a.namespace a.name)
      (cronjob_body a))

pub delete_filestore_backup_job : String → String → Prog Unit
delete_filestore_backup_job namespace name = do delete_if_present (cron_key namespace name)

manual_body : String → String → String → Value → Value
manual_body namespace name job_name spec = new "V1Job" (
    (
      "metadata",
      new "V1ObjectMeta" (
          ("name", str job_name)
          ∷ ("namespace", str namespace)
          ∷ ("labels", selector name "filestore-backup")
          ∷ []),
    )
    ∷ ("spec", spec)
    ∷ [])

-- `stamp` is the text of `int(time.time())`.
pub trigger_filestore_backup : String → String → String → Prog String
unfolding manual_body
trigger_filestore_backup namespace name stamp = do
  let job_name = name <> ("-filestore-backup-manual-" <> stamp)
  cronjob ←
      catch (request (read (cron_key namespace name)))
        λ e. raise (permanent "CronJob not found: " e)
  spec ← get_attr cronjob "spec"
  template ← get_attr spec "job_template"
  job_spec ← get_attr template "spec"
  request (create (key job namespace job_name) (manual_body namespace name job_name job_spec))
  ret job_name
