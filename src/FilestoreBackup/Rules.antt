-- ===== src/FilestoreBackup/Rules.antt =====
-- What the creation of the backup's CronJob requests, and that the CronJob is stored then.
use odoo_operator.Base.{refl, List, [], ◌∷◌, if◌then◌else◌, truthy_opt}
use odoo_operator.Prog.{Key}
use odoo_operator.Prog.Only.{Only, Only-when}
use odoo_operator.Server.{Server, IsLawful, IsHealthy}
use odoo_operator.Server.Rules.{Succeeds, Succeeds-when}
use odoo_operator.Kube.Effects.{Builds-when, Builds, Builds-create_or_patch_wrapped}
use odoo_operator.Kube.Requests.{Only-create_or_patch_wrapped}
use odoo_operator.Kube.Returns.{Succeeds-create_or_patch_wrapped}
use odoo_operator.Dynamic.{get_in}
use odoo_operator.Scope.{Provisions, metadata_of}
use odoo_operator.FilestoreBackup.Body.{BackupArgs, cronjob_body}
use odoo_operator.FilestoreBackup.{cron_key, create_filestore_backup_job}

abbrev pub backup_keys : BackupArgs → List Key
backup_keys a = if truthy_opt a.s3_bucket then cron_key a.namespace a.name ∷ [] else []

module _ (a : BackupArgs) where
  pub Only-create_filestore_backup_job :
      Only (Provisions a.namespace a.name) (create_filestore_backup_job a)
  unfolding create_filestore_backup_job cronjob_body metadata_of get_in
  Only-create_filestore_backup_job = Only-when _ (
      Only-create_or_patch_wrapped _ _ _ ((refl, ("filestore-backup", refl)), (refl, refl))
        ((refl, ("filestore-backup", refl)), refl, (refl, refl)))

  module _ (S : Server) (L : IsLawful S) where
    pub Builds-create_filestore_backup_job :
        Builds S L (backup_keys a) (create_filestore_backup_job a)
    unfolding create_filestore_backup_job
    Builds-create_filestore_backup_job =
        Builds-when S L _ (Builds-create_or_patch_wrapped S L _ _ _)

    pub Succeeds-create_filestore_backup_job :
        IsHealthy S → Succeeds S (create_filestore_backup_job a)
    unfolding create_filestore_backup_job
    Succeeds-create_filestore_backup_job H =
        Succeeds-when _ (Succeeds-create_or_patch_wrapped S L H _ _ _)
