-- ===== src/Odoo/Bodies.antt =====
-- The bodies of the objects that `create_odoo` creates (src/handlers/odoo.py).
use odoo_operator.Base.{ℕ, String, ◌<>◌, Option, List, [], ◌∷◌, nonempty, truthy_opt, if◌then◌else◌}
use odoo_operator.Value.{Value, num, str, dict, list, new, str_opt}
use odoo_operator.Spec.{Addon}
use odoo_operator.Owner.{OwnerRef, build_owner_references, owner_entry, labels, selector}
use odoo_operator.Odoo.Clone.{build_git_clone_script}

unfoldable pub account_body : String → String → Option OwnerRef → Value
account_body namespace name owner_ref =
    let resource_name = name <> "-odoo" in
    new "V1ServiceAccount" (
      (
        "metadata",
        new "V1ObjectMeta" (
            ("name", str resource_name)
            ∷ ("namespace", str namespace)
            ∷ ("owner_references", build_owner_references owner_ref)
            ∷ ("labels", labels name "odoo")
            ∷ []),
      )
      ∷ [])

-- A claim of the size, with the storage class if one is given.
pub claim_spec : String → Option String → Value
claim_spec storage storage_class_name = new "V1PersistentVolumeClaimSpec" (
    ("access_modes", list ((str "ReadWriteMany") ∷ []))
    ∷ (
      "resources",
      new "V1VolumeResourceRequirements" (("requests", dict (("storage", str storage) ∷ [])) ∷ []),
    )
    ∷ (if truthy_opt storage_class_name
        then ("storage_class_name", str_opt storage_class_name) ∷ []
        else []))

unfoldable pub filestore_body : String → String → Value → Option OwnerRef → Value
filestore_body namespace name claim owner_ref =
    let resource_name = name <> "-odoo" in
    new "V1PersistentVolumeClaim" (
      (
        "metadata",
        new "V1ObjectMeta" (
            ("name", str (resource_name <> "-filestore"))
            ∷ ("namespace", str namespace)
            ∷ ("owner_references", build_owner_references owner_ref)
            ∷ ("labels", labels name "odoo")
            ∷ []),
      )
      ∷ ("spec", claim)
      ∷ [])

unfoldable pub secret_body : String → String → String → Option OwnerRef → Value
secret_body namespace name admin_password owner_ref =
    let admin_secret_name = name <> "-odoo-admin" in
    new "V1Secret" (
      (
        "metadata",
        new "V1ObjectMeta" (
            ("name", str admin_secret_name)
            ∷ ("namespace", str namespace)
            ∷ ("owner_references", build_owner_references owner_ref)
            ∷ ("labels", labels name "odoo")
            ∷ []),
      )
      ∷ ("string_data", dict (("admin-password", str admin_password) ∷ []))
      ∷ [])

unfoldable pub addons_body : String → String → Value → Option OwnerRef → Value
addons_body namespace name claim owner_ref =
    let resource_name = name <> "-odoo" in
    new "V1PersistentVolumeClaim" (
      (
        "metadata",
        new "V1ObjectMeta" (
            ("name", str (resource_name <> "-addons"))
            ∷ ("namespace", str namespace)
            ∷ ("owner_references", build_owner_references owner_ref)
            ∷ ("labels", labels name "odoo")
            ∷ []),
      )
      ∷ ("spec", claim)
      ∷ [])

pub config_data : String → List Addon → Value
config_data odoo_conf addons = dict (
    ("odoo.conf", str odoo_conf)
    ∷ (if nonempty addons
        then ("clone-addons.sh", str (build_git_clone_script addons)) ∷ []
        else []))

unfoldable pub config_body : String → String → Value → Option OwnerRef → Value
config_body namespace name conf owner_ref =
    let resource_name = name <> "-odoo" in
    new "V1ConfigMap" (
      (
        "metadata",
        new "V1ObjectMeta" (
            ("name", str (resource_name <> "-config"))
            ∷ ("namespace", str namespace)
            ∷ ("owner_references", build_owner_references owner_ref)
            ∷ ("labels", labels name "odoo")
            ∷ []),
      )
      ∷ ("data", conf)
      ∷ [])

unfoldable pub deployment_metadata : String → String → Option OwnerRef → Value
deployment_metadata namespace name owner_ref =
    let resource_name = name <> "-odoo" in
    dict (
      ("name", str resource_name)
      ∷ ("namespace", str namespace)
      ∷ ("labels", labels name "odoo")
      ∷ owner_entry owner_ref)

unfoldable pub deployment_body : String → Value → ℕ → String → Value → Value
deployment_body name metadata replicas config_hash spec = dict (
    ("apiVersion", str "apps/v1")
    ∷ ("kind", str "Deployment")
    ∷ ("metadata", metadata)
    ∷ (
      "spec",
      dict (
          ("replicas", num replicas)
          ∷ ("selector", dict (("matchLabels", selector name "odoo") ∷ []))
          ∷ (
            "strategy",
            dict (
                ("type", str "RollingUpdate")
                ∷ ("rollingUpdate", dict (("maxUnavailable", num 0) ∷ ("maxSurge", num 1) ∷ []))
                ∷ []),
          )
          ∷ (
            "template",
            dict (
                (
                  "metadata",
                  dict (
                      ("labels", selector name "odoo")
                      ∷ (
                        "annotations",
                        dict (("odoo.simstech.cloud/config-hash", str config_hash) ∷ []),
                      )
                      ∷ []),
                )
                ∷ ("spec", spec)
                ∷ []),
          )
          ∷ []),
    )
    ∷ [])

unfoldable pub service_body : String → String → Option OwnerRef → Value
service_body namespace name owner_ref =
    let resource_name = name <> "-odoo" in
    new "V1Service" (
      (
        "metadata",
        new "V1ObjectMeta" (
            ("name", str resource_name)
            ∷ ("namespace", str namespace)
            ∷ ("owner_references", build_owner_references owner_ref)
            ∷ ("labels", labels name "odoo")
            ∷ []),
      )
      ∷ (
        "spec",
        new "V1ServiceSpec" (
            ("type", str "ClusterIP")
            ∷ ("selector", selector name "odoo")
            ∷ (
              "ports",
              list (
                  (new "V1ServicePort"
                    (("name", str "http") ∷ ("port", num 8069) ∷ ("target_port", num 8069) ∷ []))
                  ∷ []),
            )
            ∷ []),
      )
      ∷ [])
