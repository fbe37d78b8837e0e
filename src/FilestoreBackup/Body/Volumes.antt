-- ===== src/FilestoreBackup/Body/Volumes.antt =====
-- The volumes of the backup's pod: what it mounts, and what they refer to.
use odoo_operator.Base.{◌<>◌, ◌≡◌, refl, [], ◌∷◌, inl}
use odoo_operator.Value.{Value, str}
use odoo_operator.Prog.{pvc}
use odoo_operator.Dynamic.{get_in}
use odoo_operator.Owner.{key}
use odoo_operator.Pod.{
  entry, names, mounts, refs, IsMounted, pod_of, items_of, paths, paths_in, volumes_of,
  claims_named,
}
use odoo_operator.FilestoreBackup.Body.{BackupArgs, cronjob_body}

-- The pod of a CronJob.
abbrev pub cron_pod_of : Value → Value
cron_pod_of v = pod_of (entry "jobTemplate" (entry "spec" v))

-- Every volume that the backup's container mounts is one of the volumes of its pod.
pub cron_pod-IsMounted : (a : BackupArgs) → IsMounted (cron_pod_of (cronjob_body a))
unfolding names mounts entry get_in cronjob_body
cron_pod-IsMounted a = record { init = tt; main = (inl refl, tt) }

-- The backup's pod refers to the claim of Odoo's filestore alone.
pub cron_pod-refs :
    (a : BackupArgs)
    → refs a.namespace (volumes_of (cron_pod_of (cronjob_body a)))
      ≡ key pvc a.namespace (a.name <> "-odoo-filestore") ∷ []
unfolding refs entry get_in cronjob_body
cron_pod-refs a = refl

-- Its volume named `filestore` is that claim.
pub cron_pod-filestore :
    (a : BackupArgs)
    → claims_named "filestore" (volumes_of (cron_pod_of (cronjob_body a)))
      ≡ str (a.name <> "-odoo-filestore") ∷ []
unfolding claims_named entry get_in cronjob_body
cron_pod-filestore a = refl

pub cron_pod-paths :
    (a : BackupArgs)
    → paths "filestore" (items_of (entry "containers" (cron_pod_of (cronjob_body a))))
      ≡ str "/var/lib/odoo/filestore" ∷ []
unfolding paths paths_in entry get_in cronjob_body
cron_pod-paths a = refl
