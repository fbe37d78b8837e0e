-- ===== src/Metabase/Bodies.antt =====
-- The bodies of the objects that `create_metabase` creates (src/handlers/metabase.py).
pub mod Volumes
use odoo_operator.Base.{
  String, ◌<>◌, Option, none, some, List, [], ◌∷◌, ◌++◌, get_or, truthy_opt, if◌then◌else◌,
}
use odoo_operator.Value.{Value, num, str, dict, list, new, str_opt}
use odoo_operator.Spec.{Amounts, Tailnet, ensure_str}
use odoo_operator.Owner.{OwnerRef, build_owner_references, owner_entry, labels, selector}
use odoo_operator.Tailscale.{get_tailscale_sidecar, get_tailscale_volumes}

unfoldable pub account_body : String → String → Option OwnerRef → Value
account_body namespace name owner_ref =
    let resource_name = name <> "-metabase" in
    new "V1ServiceAccount" (
      (
        "metadata",
        new "V1ObjectMeta" (
            ("name", str resource_name)
            ∷ ("namespace", str namespace)
            ∷ ("owner_references", build_owner_references owner_ref)
            ∷ ("labels", labels name "metabase")
            ∷ []),
      )
      ∷ [])

pub claim_spec : String → Option String → Value
claim_spec storage storage_class_name = new "V1PersistentVolumeClaimSpec" (
    ("access_modes", list ((str "ReadWriteOnce") ∷ []))
    ∷ (
      "resources",
      new "V1VolumeResourceRequirements" (("requests", dict (("storage", str storage) ∷ [])) ∷ []),
    )
    ∷ (if truthy_opt storage_class_name
        then ("storage_class_name", str_opt storage_class_name) ∷ []
        else []))

unfoldable pub data_body : String → String → Value → Option OwnerRef → Value
data_body namespace name claim owner_ref =
    let resource_name = name <> "-metabase" in
    new "V1PersistentVolumeClaim" (
      (
        "metadata",
        new "V1ObjectMeta" (
            ("name", str (resource_name <> "-data"))
            ∷ ("namespace", str namespace)
            ∷ ("owner_references", build_owner_references owner_ref)
            ∷ ("labels", labels name "metabase")
            ∷ []),
      )
      ∷ ("spec", claim)
      ∷ [])

unfoldable pub secret_body : String → String → String → Option OwnerRef → Value
secret_body namespace name admin_password owner_ref =
    let admin_secret_name = name <> "-metabase-admin" in
    let admin_email = "admin@" <> (name <> ".local") in
    new "V1Secret" (
      (
        "metadata",
        new "V1ObjectMeta" (
            ("name", str admin_secret_name)
            ∷ ("namespace", str namespace)
            ∷ ("owner_references", build_owner_references owner_ref)
            ∷ ("labels", labels name "metabase")
            ∷ (
              "annotations",
              dict (
                  (
                    "odoo.simstech.cloud/note",
                    str "Use these credentials when completing Metabase setup wizard",
                  )
                  ∷ []),
            )
            ∷ []),
      )
      ∷ (
        "string_data",
        dict (
            ("admin-email", str admin_email)
            ∷ ("admin-password", str admin_password)
            ∷ ("odoo-db-host", str (name <> "-db-rw"))
            ∷ ("odoo-db-name", str "odoo")
            ∷ ("odoo-db-user", str "odoo")
            ∷ []),
      )
      ∷ [])

pub metabase_container : String → Amounts → Amounts → Value
metabase_container name req lim =
    let db_secret = name <> "-db-app" in
    dict (
      ("name", str "metabase")
      ∷ ("image", str "metabase/metabase:v0.50.26")
      ∷ ("ports", list ((dict (("containerPort", num 3000) ∷ ("name", str "http") ∷ [])) ∷ []))
      ∷ (
        "env",
        list (
            (dict (("name", str "MB_DB_FILE") ∷ ("value", str "/metabase-data/metabase.db") ∷ []))
            ∷ (dict (("name", str "JAVA_OPTS") ∷ ("value", str "-Xmx1g") ∷ []))
            ∷ (dict (("name", str "ODOO_DB_HOST") ∷ ("value", str (name <> "-db-rw")) ∷ []))
            ∷ (dict (("name", str "ODOO_DB_PORT") ∷ ("value", str "5432") ∷ []))
            ∷ (dict (("name", str "ODOO_DB_NAME") ∷ ("value", str "odoo") ∷ []))
            ∷ (dict (("name", str "ODOO_DB_USER") ∷ ("value", str "odoo") ∷ []))
            ∷ (dict (
                ("name", str "ODOO_DB_PASSWORD")
                ∷ (
                  "valueFrom",
                  dict (
                      (
                        "secretKeyRef",
                        dict (("name", str db_secret) ∷ ("key", str "password") ∷ []),
                      )
                      ∷ []),
                )
                ∷ []))
            ∷ []),
      )
      ∷ (
        "volumeMounts",
        list ((dict (("name", str "data") ∷ ("mountPath", str "/metabase-data") ∷ [])) ∷ []),
      )
      ∷ (
        "resources",
        dict (
            (
              "requests",
              dict (
                  ("cpu", str (ensure_str req.cpu "500m"))
                  ∷ ("memory", str (ensure_str req.memory "1Gi"))
                  ∷ []),
            )
            ∷ (
              "limits",
              dict (
                  ("cpu", str (ensure_str lim.cpu "2"))
                  ∷ ("memory", str (ensure_str lim.memory "2Gi"))
                  ∷ []),
            )
            ∷ []),
      )
      ∷ (
        "livenessProbe",
        dict (
            ("httpGet", dict (("path", str "/api/health") ∷ ("port", num 3000) ∷ []))
            ∷ ("initialDelaySeconds", num 120)
            ∷ ("periodSeconds", num 30)
            ∷ []),
      )
      ∷ (
        "readinessProbe",
        dict (
            ("httpGet", dict (("path", str "/api/health") ∷ ("port", num 3000) ∷ []))
            ∷ ("initialDelaySeconds", num 60)
            ∷ ("periodSeconds", num 10)
            ∷ []),
      )
      ∷ [])

pub sidecars : String → Option Tailnet → List Value
sidecars auth_secret none = []
sidecars auth_secret (some t) =
    get_tailscale_sidecar (get_or t.hostname "bi") (get_or t.tags "tag:odoo-bi") auth_secret ∷ []

tailscale_volumes : String → Option Tailnet → List Value
tailscale_volumes name none = []
tailscale_volumes name (some t) = get_tailscale_volumes (name <> "-metabase")

pub volumes : String → Option Tailnet → List Value
unfolding tailscale_volumes
volumes name tailscale =
    let resource_name = name <> "-metabase" in
    ((dict (
        ("name", str "data")
        ∷ ("persistentVolumeClaim", dict (("claimName", str (resource_name <> "-data")) ∷ []))
        ∷ []))
      ∷ [])
    ++ tailscale_volumes name tailscale

unfoldable pub deployment_body : String → String → List Value → List Value → Option OwnerRef → Value
deployment_body namespace name containers volumes owner_ref =
    let resource_name = name <> "-metabase" in
    let metadata = dict (
      ("name", str resource_name)
      ∷ ("namespace", str namespace)
      ∷ ("labels", labels name "metabase")
      ∷ owner_entry owner_ref) in
    dict (
      ("apiVersion", str "apps/v1")
      ∷ ("kind", str "Deployment")
      ∷ ("metadata", metadata)
      ∷ (
        "spec",
        dict (
            ("replicas", num 1)
            ∷ ("selector", dict (("matchLabels", selector name "metabase") ∷ []))
            ∷ (
              "template",
              dict (
                  ("metadata", dict (("labels", selector name "metabase") ∷ []))
                  ∷ (
                    "spec",
                    dict (
                        ("serviceAccountName", str resource_name)
                        ∷ ("containers", list containers)
                        ∷ ("volumes", list volumes)
                        ∷ []),
                  )
                  ∷ []),
            )
            ∷ []),
      )
      ∷ [])

unfoldable pub service_body : String → String → Option OwnerRef → Value
service_body namespace name owner_ref =
    let resource_name = name <> "-metabase" in
    new "V1Service" (
      (
        "metadata",
        new "V1ObjectMeta" (
            ("name", str resource_name)
            ∷ ("namespace", str namespace)
            ∷ ("owner_references", build_owner_references owner_ref)
            ∷ ("labels", labels name "metabase")
            ∷ []),
      )
      ∷ (
        "spec",
        new "V1ServiceSpec" (
            ("type", str "ClusterIP")
            ∷ ("selector", selector name "metabase")
            ∷ (
              "ports",
              list (
                  (new "V1ServicePort"
                    (("name", str "http") ∷ ("port", num 3000) ∷ ("target_port", num 3000) ∷ []))
                  ∷ []),
            )
            ∷ []),
      )
      ∷ [])
