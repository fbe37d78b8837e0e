-- ===== src/FilestoreBackup/Body.antt =====
-- The body of the backup's CronJob and the script that it runs (src/handlers/filestore_backup.py).
pub mod Volumes
use odoo_operator.Base.{
  String, ◌<>◌, true, Option, none, some, List, [], ◌∷◌, ◌++◌, join, truthy_opt, get_or,
  if◌then◌else◌,
}
use odoo_operator.Value.{Value, num, str, bool, dict, list, str_opt}
use odoo_operator.Owner.{OwnerRef, owner_entry, labels, selector}

script_lines : String → String → List String
script_lines destination_path retention_days =
    "#!/bin/bash"
    ∷ "set -e"
    ∷ ""
    ∷ "echo \"Starting filestore backup at $(date)\""
    ∷ ""
    ∷ "# Install AWS CLI"
    ∷ "pip install awscli --quiet --break-system-packages --user 2>/dev/null || true"
    ∷ "export PATH=\"$HOME/.local/bin:$PATH\""
    ∷ ""
    ∷ "# Configure AWS credentials from environment"
    ∷ "export AWS_ACCESS_KEY_ID=\"$ACCESS_KEY_ID\""
    ∷ "export AWS_SECRET_ACCESS_KEY=\"$SECRET_ACCESS_KEY\""
    ∷ ""
    ∷ "# Create timestamped backup"
    ∷ "TIMESTAMP=$(date +%Y%m%d_%H%M%S)"
    ∷ ("BACKUP_PATH=\"" <> (destination_path <> "/$TIMESTAMP\""))
    ∷ ""
    ∷ "echo \"Syncing filestore to $BACKUP_PATH\""
    ∷ "aws s3 sync /var/lib/odoo/filestore/odoo/ \"$BACKUP_PATH/\" --quiet"
    ∷ ""
    ∷ "# Also maintain a \"latest\" symlink-like copy"
    ∷ "echo \"Updating latest backup\""
    ∷ ("aws s3 sync /var/lib/odoo/filestore/odoo/ \""
        <> (destination_path <> "/latest/\" --delete --quiet"))
    ∷ ""
    ∷ ("# Clean up old backups (keep last " <> (retention_days <> " days)"))
    ∷ ("echo \"Cleaning up backups older than " <> (retention_days <> " days\""))
    ∷ ("CUTOFF_DATE=$(date -d \"-"
        <> (retention_days
            <> (" days\" +%Y%m%d 2>/dev/null || date -v-" <> (retention_days <> "d +%Y%m%d)"))))
    ∷ ("aws s3 ls \"" <> (destination_path <> "/\" | while read -r line; do"))
    ∷ "    FOLDER=$(echo \"$line\" | awk '{print $2}' | tr -d '/')"
    ∷ "    if [[ \"$FOLDER\" =~ ^[0-9]{8}_[0-9]{6}$ ]]; then"
    ∷ "        FOLDER_DATE=$(echo \"$FOLDER\" | cut -d'_' -f1)"
    ∷ "        if [[ \"$FOLDER_DATE\" < \"$CUTOFF_DATE\" ]]; then"
    ∷ "            echo \"Deleting old backup: $FOLDER\""
    ∷ ("            aws s3 rm \"" <> (destination_path <> "/$FOLDER/\" --recursive --quiet"))
    ∷ "        fi"
    ∷ "    fi"
    ∷ "done"
    ∷ ""
    ∷ "echo \"Filestore backup completed at $(date)\""
    ∷ ""
    ∷ []

env_vars : String → Option String → List Value
env_vars s3_secret_name s3_endpoint =
    ((dict (
        ("name", str "ACCESS_KEY_ID")
        ∷ (
          "valueFrom",
          dict (
              (
                "secretKeyRef",
                dict (("name", str s3_secret_name) ∷ ("key", str "ACCESS_KEY_ID") ∷ []),
              )
              ∷ []),
        )
        ∷ []))
      ∷ (dict (
          ("name", str "SECRET_ACCESS_KEY")
          ∷ (
            "valueFrom",
            dict (
                (
                  "secretKeyRef",
                  dict (("name", str s3_secret_name) ∷ ("key", str "SECRET_ACCESS_KEY") ∷ []),
                )
                ∷ []),
          )
          ∷ []))
      ∷ [])
    ++ (if truthy_opt s3_endpoint
        then (dict (("name", str "AWS_ENDPOINT_URL") ∷ ("value", str_opt s3_endpoint) ∷ [])) ∷ []
        else [])

backup_script : String → String → String → String
unfolding script_lines
backup_script name s3_bucket retention_days =
    join "\n"
      (script_lines ("s3://" <> (s3_bucket <> ("/" <> (name <> "/filestore")))) retention_days)

-- The arguments of `create_filestore_backup_job`; the retention is the text of its number.
pub record BackupArgs : Type 0 where
  pub namespace : String
  pub name : String
  pub schedule : String
  pub s3_bucket : Option String
  pub s3_endpoint : Option String
  pub s3_secret_name : String
  pub retention_days : String
  pub owner_ref : Option OwnerRef

unfoldable pub cronjob_body : BackupArgs → Value
unfolding env_vars backup_script
cronjob_body a =
    let namespace = a.namespace in
    let name = a.name in
    let schedule = a.schedule in
    let s3_secret_name = a.s3_secret_name in
    let s3_endpoint = a.s3_endpoint in
    let resource_name = name <> "-filestore-backup" in
    let backup_script = backup_script name (get_or a.s3_bucket "") a.retention_days in
    let metadata = dict (
      ("name", str resource_name)
      ∷ ("namespace", str namespace)
      ∷ ("labels", labels name "filestore-backup")
      ∷ owner_entry a.owner_ref) in
    dict (
      ("apiVersion", str "batch/v1")
      ∷ ("kind", str "CronJob")
      ∷ ("metadata", metadata)
      ∷ (
        "spec",
        dict (
            ("schedule", str schedule)
            ∷ ("concurrencyPolicy", str "Forbid")
            ∷ ("successfulJobsHistoryLimit", num 3)
            ∷ ("failedJobsHistoryLimit", num 3)
            ∷ (
              "jobTemplate",
              dict (
                  (
                    "spec",
                    dict (
                        ("backoffLimit", num 2)
                        ∷ (
                          "template",
                          dict (
                              ("metadata", dict (("labels", selector name "filestore-backup") ∷ []))
                              ∷ (
                                "spec",
                                dict (
                                    ("restartPolicy", str "OnFailure")
                                    ∷ (
                                      "containers",
                                      list (
                                          (dict (
                                            ("name", str "backup")
                                            ∷ ("image", str "python:3.12-slim")
                                            ∷ (
                                              "command",
                                              list (
                                                  (str "/bin/bash")
                                                  ∷ (str "-c")
                                                  ∷ (str backup_script)
                                                  ∷ []),
                                            )
                                            ∷ ("env", list (env_vars s3_secret_name s3_endpoint))
                                            ∷ (
                                              "volumeMounts",
                                              list (
                                                  (dict (
                                                    ("name", str "filestore")
                                                    ∷ ("mountPath", str "/var/lib/odoo/filestore")
                                                    ∷ ("readOnly", bool true)
                                                    ∷ []))
                                                  ∷ []),
                                            )
                                            ∷ (
                                              "resources",
                                              dict (
                                                  (
                                                    "requests",
                                                    dict (
                                                        ("cpu", str "100m")
                                                        ∷ ("memory", str "256Mi")
                                                        ∷ []),
                                                  )
                                                  ∷ (
                                                    "limits",
                                                    dict (
                                                        ("cpu", str "500m")
                                                        ∷ ("memory", str "512Mi")
                                                        ∷ []),
                                                  )
                                                  ∷ []),
                                            )
                                            ∷ []))
                                          ∷ []),
                                    )
                                    ∷ (
                                      "volumes",
                                      list (
                                          (dict (
                                            ("name", str "filestore")
                                            ∷ (
                                              "persistentVolumeClaim",
                                              dict (
                                                  ("claimName", str (name <> "-odoo-filestore"))
                                                  ∷ []),
                                            )
                                            ∷ []))
                                          ∷ []),
                                    )
                                    ∷ []),
                              )
                              ∷ []),
                        )
                        ∷ []),
                  )
                  ∷ []),
            )
            ∷ []),
      )
      ∷ [])
