-- ===== src/Database.antt =====
-- src/handlers/database.py: the CloudNative-PG cluster and its scheduled backup.
pub mod Rules
use odoo_operator.Base.{
  ℕ, String, ◌<>◌, Bool, true, false, Option, none, some, List, [], ◌∷◌, ◌++◌, ◌==◌, truthy_opt,
  get_or, if◌then◌else◌, str_eq,
}
use odoo_operator.Value.{Value, num, str, obj, field, end, dict, list, Fields, null, str_opt}
use odoo_operator.Prog.{
  Key, pg_cluster, scheduled_backup, read, api_exception, Exn, Prog, ret, raise, ◌>>=◌, ◌>>◌, catch,
  request, when, has_status,
}
use odoo_operator.Kube.{create_or_patch_wrapped, delete_if_present}
use odoo_operator.Dynamic.{get_value}
use odoo_operator.Spec.{
  Quantity, quantity, text, Amounts, Resources, no_amounts, no_resources, Backup, S3, no_s3,
}
use odoo_operator.Owner.{OwnerRef, owner_entry, key}

abbrev pub db_key : String → String → Key
db_key namespace name = key pg_cluster namespace (name <> "-db")

abbrev pub backup_key : String → String → Key
backup_key namespace name = key scheduled_backup namespace (name <> "-db-backup")

-- The labels of a custom resource, which has no component.
abbrev plain_labels : String → Value
plain_labels name = dict (
    ("app.kubernetes.io/managed-by", str "odoo.simstech.cloud-operator")
    ∷ ("odoo.simstech.cloud/cluster", str name)
    ∷ [])

-- `backup.get('s3', {}).get('bucket')`
abbrev pub bucket_of : Backup → Option String
bucket_of b = (get_or b.s3 no_s3).bucket

abbrev s3_secret : S3 → String
s3_secret s3 = get_or s3.secret_name "backup-s3-creds"

secret_key : String → String → Value
secret_key secret k = dict (("name", str secret) ∷ ("key", str k) ∷ [])

-- `barman_config`
barman_config : String → String → S3 → Value
unfolding secret_key
barman_config name bucket s3 = dict (
    ("destinationPath", str ("s3://" <> (bucket <> ("/" <> name))))
    ∷ (
      "s3Credentials",
      dict (
          ("accessKeyId", secret_key (s3_secret s3) "ACCESS_KEY_ID")
          ∷ ("secretAccessKey", secret_key (s3_secret s3) "SECRET_ACCESS_KEY")
          ∷ []),
    )
    ∷ (if truthy_opt s3.endpoint then ("endpointURL", str_opt s3.endpoint) ∷ [] else []))

-- `cluster_spec["backup"]`, present where a bucket is configured.
backup_entry : String → Option Backup → List (String × Value)
unfolding barman_config
backup_entry name none = []
backup_entry name (some b) =
    if truthy_opt (bucket_of b)
    then (
      "backup",
      dict (
          ("barmanObjectStore", barman_config name (get_or (bucket_of b) "") (get_or b.s3 no_s3))
          ∷ ("retentionPolicy", str (get_or b.retention_policy "30d"))
          ∷ []),
    )
      ∷ []
    else []

storage_spec : String → Option String → Value
storage_spec storage storage_class_name = dict (
    ("size", str storage)
    ∷ (if truthy_opt storage_class_name
        then ("storageClass", str_opt storage_class_name) ∷ []
        else []))

abbrev amounts : Amounts → String → String → Value
amounts a cpu memory = dict (
    ("cpu", quantity (get_or a.cpu (text cpu)))
    ∷ ("memory", quantity (get_or a.memory (text memory)))
    ∷ [])

cluster_spec : String → String → Option String → ℕ → Resources → Option Backup → Value
unfolding storage_spec backup_entry
cluster_spec name storage storage_class_name instances res backup = dict (
    ("instances", num instances)
    ∷ ("storage", storage_spec storage storage_class_name)
    ∷ (
      "resources",
      dict (
          ("requests", amounts (get_or res.requests no_amounts) "250m" "512Mi")
          ∷ ("limits", amounts (get_or res.limits no_amounts) "1" "2Gi")
          ∷ []),
    )
    ∷ (
      "postgresql",
      dict (
          (
            "parameters",
            dict (("max_connections", str "200") ∷ ("shared_buffers", str "256MB") ∷ []),
          )
          ∷ []),
    )
    ∷ (
      "bootstrap",
      dict (("initdb", dict (("database", str "odoo") ∷ ("owner", str "odoo") ∷ [])) ∷ []),
    )
    ∷ backup_entry name backup)

abbrev metadata : String → String → String → Option OwnerRef → Value
metadata object_name namespace name owner_ref = dict (
    ("name", str object_name)
    ∷ ("namespace", str namespace)
    ∷ ("labels", plain_labels name)
    ∷ owner_entry owner_ref)

pub create_scheduled_backup : String → String → String → Option OwnerRef → Prog Unit
create_scheduled_backup namespace name schedule owner_ref =
    create_or_patch_wrapped "Failed to create scheduled backup: " (backup_key namespace name) (
      dict (
        ("apiVersion", str "postgresql.cnpg.io/v1")
        ∷ ("kind", str "ScheduledBackup")
        ∷ ("metadata", metadata (name <> "-db-backup") namespace name owner_ref)
        ∷ (
          "spec",
          dict (
              ("schedule", str schedule)
              ∷ ("backupOwnerReference", str "self")
              ∷ ("cluster", dict (("name", str (name <> "-db")) ∷ []))
              ∷ []),
        )
        ∷ []))

-- `backup and backup.get('s3', {}).get('bucket')`
abbrev pub has_bucket : Option Backup → Bool
has_bucket none = false
has_bucket (some b) = truthy_opt (bucket_of b)

abbrev schedule_of : Option Backup → String
schedule_of none = "0 2 * * *"
schedule_of (some b) = get_or b.schedule "0 2 * * *"

pub create_database :
    String
    → String
    → String
    → Option String
    → ℕ
    → Option Resources
    → Option Backup
    → Option OwnerRef
    → Prog Unit
unfolding cluster_spec
create_database namespace name storage storage_class_name instances resources backup owner_ref = do
  create_or_patch_wrapped "Failed to create database: " (db_key namespace name) (
      dict (
        ("apiVersion", str "postgresql.cnpg.io/v1")
        ∷ ("kind", str "Cluster")
        ∷ ("metadata", metadata (name <> "-db") namespace name owner_ref)
        ∷ (
          "spec",
          cluster_spec name storage storage_class_name instances (get_or resources no_resources)
              backup,
        )
        ∷ []))
  when (has_bucket backup) (create_scheduled_backup namespace name (schedule_of backup) owner_ref)

pub delete_database : String → String → Prog Unit
delete_database namespace name = do
  delete_if_present (backup_key namespace name)
  delete_if_present (db_key namespace name)

abbrev pub is_text : Value → String → Bool
is_text (str s) t = str_eq s t
is_text _ t = false

-- The `phase` of the cluster's status, against that of a healthy cluster.
healthy : Value → Prog Bool
healthy cluster = do
  status ← get_value cluster "status" (dict [])
  phase ← get_value status "phase" (str "")
  ret (is_text phase "Cluster in healthy state")

-- A 404 means not ready; any other exception goes on.
pub check_database_ready : String → String → Prog Bool
unfolding healthy
check_database_ready namespace name =
    catch (do cluster ← request (read (db_key namespace name)); healthy cluster)
      λ e. if has_status 404 e then ret false else raise e
