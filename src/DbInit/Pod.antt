-- ===== src/DbInit/Pod.antt =====
-- The pod of the init job and its other bodies (`create_db_init_job` in src/handlers/db_init.py).
pub mod Volumes
use odoo_operator.Base.{
  String, ◌<>◌, Bool, true, false, ◌&&◌, Option, none, some, List, [], ◌∷◌, ◌++◌, map, get_or,
  nonempty, truthy_opt, if◌then◌else◌,
}
use odoo_operator.Value.{Value, bool, num, str, dict, list, new, str_opt}
use odoo_operator.Python.{Python}
use odoo_operator.Spec.{Addon, Restore, S3, no_s3, deploy_secrets}
use odoo_operator.Owner.{OwnerRef, controller_references, owner_entry, labels, selector}
use odoo_operator.DbInit.Script.{build_clone_script}

unfoldable pub secret_body : String → String → String → String → Option OwnerRef → Value
secret_body namespace name admin_secret_name admin_password owner_ref = new "V1Secret" (
    (
      "metadata",
      new "V1ObjectMeta" (
          ("name", str admin_secret_name)
          ∷ ("namespace", str namespace)
          ∷ ("owner_references", controller_references owner_ref)
          ∷ ("labels", labels name "odoo")
          ∷ []),
    )
    ∷ ("string_data", dict (("admin-password", str admin_password) ∷ []))
    ∷ [])

pub claim_spec : Option String → Value
claim_spec storage_class_name = new "V1PersistentVolumeClaimSpec" (
    ("access_modes", list ((str "ReadWriteMany") ∷ []))
    ∷ (
      "resources",
      new "V1VolumeResourceRequirements" (("requests", dict (("storage", str "5Gi") ∷ [])) ∷ []),
    )
    ∷ (if truthy_opt storage_class_name
        then ("storage_class_name", str_opt storage_class_name) ∷ []
        else []))

unfoldable pub addons_body : String → String → Value → Option OwnerRef → Value
addons_body namespace name claim owner_ref = new "V1PersistentVolumeClaim" (
    (
      "metadata",
      new "V1ObjectMeta" (
          ("name", str (name <> "-odoo-addons"))
          ∷ ("namespace", str namespace)
          ∷ ("owner_references", controller_references owner_ref)
          ∷ ("labels", labels name "odoo")
          ∷ []),
    )
    ∷ ("spec", claim)
    ∷ [])

-- `restore and restore.get('enabled', False)`
abbrev pub restore_enabled : Option Restore → Bool
restore_enabled none = false
restore_enabled (some r) = get_or r.enabled false

-- `restore.get('s3', {})`
abbrev pub restore_s3 : Option Restore → S3
restore_s3 none = no_s3
restore_s3 (some r) = get_or r.s3 no_s3

-- The filestore is mounted where a restore names a key for it.
abbrev pub restores_filestore : Option Restore → Bool
restores_filestore r = restore_enabled r && truthy_opt (restore_s3 r).filestore_key

pub key_mount : String → Value
key_mount key_secret = dict (
    ("name", str ("deploy-key-" <> key_secret))
    ∷ ("mountPath", str ("/keys/" <> key_secret))
    ∷ ("readOnly", bool true)
    ∷ [])

pub key_volume : String → Value
key_volume key_secret = dict (
    ("name", str ("deploy-key-" <> key_secret))
    ∷ ("secret", dict (("secretName", str key_secret) ∷ ("defaultMode", num 256) ∷ []))
    ∷ [])

pub volume_mounts : Python → List Addon → Option Restore → List Value
unfolding key_mount
volume_mounts py addons restore =
    (if nonempty addons
      then (dict (("name", str "addons") ∷ ("mountPath", str "/mnt/addons") ∷ []))
        ∷ map key_mount (py.iterate (deploy_secrets addons))
      else [])
    ++ (if restores_filestore restore
        then (dict (("name", str "filestore") ∷ ("mountPath", str "/var/lib/odoo/filestore") ∷ []))
          ∷ []
        else [])

pub volumes : Python → String → List Addon → Option Restore → List Value
unfolding key_volume
volumes py name addons restore =
    (if nonempty addons
      then (dict (
          ("name", str "addons")
          ∷ ("persistentVolumeClaim", dict (("claimName", str (name <> "-odoo-addons")) ∷ []))
          ∷ []))
        ∷ map key_volume (py.iterate (deploy_secrets addons))
      else [])
    ++ (if restores_filestore restore
        then (dict (
            ("name", str "filestore")
            ∷ ("persistentVolumeClaim", dict (("claimName", str (name <> "-odoo-filestore")) ∷ []))
            ∷ []))
          ∷ []
        else [])

pub init_containers : List Addon → List Value → List Value
init_containers addons volume_mounts =
    if nonempty addons
    then (dict (
        ("name", str "clone-addons")
        ∷ ("image", str "alpine/git:latest")
        ∷ ("command", list ((str "/bin/sh") ∷ (str "-c") ∷ (str (build_clone_script addons)) ∷ []))
        ∷ ("volumeMounts", list volume_mounts)
        ∷ []))
      ∷ []
    else []

restore_env : Option Restore → List Value
restore_env restore =
    let s3_secret = get_or (restore_s3 restore).secret_name "backup-s3-creds" in
    if restore_enabled restore
    then (dict (
        ("name", str "S3_ACCESS_KEY_ID")
        ∷ (
          "valueFrom",
          dict (
              ("secretKeyRef", dict (("name", str s3_secret) ∷ ("key", str "ACCESS_KEY_ID") ∷ []))
              ∷ []),
        )
        ∷ []))
      ∷ (dict (
          ("name", str "S3_SECRET_ACCESS_KEY")
          ∷ (
            "valueFrom",
            dict (
                (
                  "secretKeyRef",
                  dict (("name", str s3_secret) ∷ ("key", str "SECRET_ACCESS_KEY") ∷ []),
                )
                ∷ []),
          )
          ∷ []))
      ∷ []
    else []

pub env_vars : String → String → Option Restore → List Value
unfolding restore_env
env_vars db_secret admin_secret_name restore =
    ((dict (
        ("name", str "DB_PASSWORD")
        ∷ (
          "valueFrom",
          dict (
              ("secretKeyRef", dict (("name", str db_secret) ∷ ("key", str "password") ∷ [])) ∷ []),
        )
        ∷ []))
      ∷ (dict (
          ("name", str "ADMIN_PASSWORD")
          ∷ (
            "valueFrom",
            dict (
                (
                  "secretKeyRef",
                  dict (("name", str admin_secret_name) ∷ ("key", str "admin-password") ∷ []),
                )
                ∷ []),
          )
          ∷ []))
      ∷ [])
    ++ restore_env restore

-- A key whose list is empty is removed again from the pod's dict.
abbrev list_entry : String → List Value → List (String × Value)
list_entry k vs = if nonempty vs then (k, list vs) ∷ [] else []

pub pod_spec : String → String → List Value → List Value → List Value → List Value → Value
pod_spec odoo_image script env_vars mount_list volume_list init_list = dict (
    ("restartPolicy", str "OnFailure")
    ∷ (list_entry "initContainers" init_list
        ++ ((
          "containers",
          list (
              dict (
                ("name", str "db-init")
                ∷ ("image", str odoo_image)
                ∷ ("command", list (str "/bin/bash" ∷ str "-c" ∷ []))
                ∷ ("args", list (str script ∷ []))
                ∷ ("env", list env_vars)
                ∷ list_entry "volumeMounts" mount_list)
              ∷ []),
        )
            ∷ list_entry "volumes" volume_list)))

unfoldable pub job_body : String → String → Value → Option OwnerRef → Value
job_body namespace name spec owner_ref =
    let job_name = name <> "-db-init" in
    let metadata = dict (
      ("name", str job_name)
      ∷ ("namespace", str namespace)
      ∷ ("labels", labels name "db-init")
      ∷ owner_entry owner_ref) in
    dict (
      ("apiVersion", str "batch/v1")
      ∷ ("kind", str "Job")
      ∷ ("metadata", metadata)
      ∷ (
        "spec",
        dict (
            ("ttlSecondsAfterFinished", num 300)
            ∷ ("backoffLimit", num 3)
            ∷ (
              "template",
              dict (
                  ("metadata", dict (("labels", selector name "db-init") ∷ []))
                  ∷ ("spec", spec)
                  ∷ []),
            )
            ∷ []),
      )
      ∷ [])
