-- ===== src/Odoo/Pod.antt =====
-- The pod of the Odoo deployment (`create_odoo` in src/handlers/odoo.py): its containers, what they
-- mount, and its volumes.
pub mod Volumes
pub mod References
pub mod Filestore
use odoo_operator.Base.{
  String, ◌<>◌, true, Option, none, some, List, [], ◌∷◌, ◌++◌, map, get_or, nonempty, if◌then◌else◌,
}
use odoo_operator.Value.{Value, num, str, bool, dict, list}
use odoo_operator.Python.{Python}
use odoo_operator.Spec.{Addon, Amounts, Tailnet, deploy_secrets, ensure_str}
use odoo_operator.Tailscale.{get_tailscale_sidecar, get_tailscale_volumes}

-- The mount and the volume of a deploy key.
pub key_mount : String → Value
key_mount key_secret = dict (
    ("name", str ("deploy-key-" <> key_secret))
    ∷ ("mountPath", str ("/keys/" <> key_secret))
    ∷ ("readOnly", bool true)
    ∷ [])

pub key_volume : String → Value
key_volume key_secret = dict (
    ("name", str ("deploy-key-" <> key_secret))
    ∷ ("secret", dict (("secretName", str key_secret) ∷ ("defaultMode", num 256) ∷ []))
    ∷ [])

pub init_mounts : Python → List Addon → List Value
unfolding key_mount
init_mounts py addons =
    ((dict (("name", str "addons") ∷ ("mountPath", str "/mnt/addons") ∷ []))
      ∷ (dict (("name", str "config") ∷ ("mountPath", str "/scripts") ∷ []))
      ∷ [])
    ++ map key_mount (py.iterate (deploy_secrets addons))

pub init_containers : Python → List Addon → List Value
unfolding init_mounts
init_containers py addons =
    if nonempty addons
    then (dict (
        ("name", str "clone-addons")
        ∷ ("image", str "alpine/git:latest")
        ∷ ("command", list ((str "/bin/sh") ∷ (str "/scripts/clone-addons.sh") ∷ []))
        ∷ ("volumeMounts", list (init_mounts py addons))
        ∷ []))
      ∷ []
    else []

pub odoo_volume_mounts : List Addon → List Value
odoo_volume_mounts addons =
    ((dict (("name", str "filestore") ∷ ("mountPath", str "/var/lib/odoo") ∷ []))
      ∷ (dict (
          ("name", str "config")
          ∷ ("mountPath", str "/etc/odoo/odoo.conf")
          ∷ ("subPath", str "odoo.conf")
          ∷ []))
      ∷ [])
    ++ (if nonempty addons
        then (dict (("name", str "addons") ∷ ("mountPath", str "/mnt/addons") ∷ [])) ∷ []
        else [])

redis_env : Option String → List Value
redis_env none = []
redis_env (some host) =
    (dict (("name", str "ODOO_REDIS_HOST") ∷ ("value", str host) ∷ []))
    ∷ (dict (("name", str "ODOO_REDIS_PORT") ∷ ("value", str "6379") ∷ []))
    ∷ []

pub odoo_env : String → String → String → Option String → List Value
unfolding redis_env
odoo_env db_host db_secret resource_name valkey_host =
    ((dict (("name", str "HOST") ∷ ("value", str db_host) ∷ []))
      ∷ (dict (("name", str "USER") ∷ ("value", str "odoo") ∷ []))
      ∷ (dict (
          ("name", str "PASSWORD")
          ∷ (
            "valueFrom",
            dict (
                ("secretKeyRef", dict (("name", str db_secret) ∷ ("key", str "password") ∷ []))
                ∷ []),
          )
          ∷ []))
      ∷ (dict (
          ("name", str "PGPASSWORD")
          ∷ (
            "valueFrom",
            dict (
                ("secretKeyRef", dict (("name", str db_secret) ∷ ("key", str "password") ∷ []))
                ∷ []),
          )
          ∷ []))
      ∷ (dict (
          ("name", str "ODOO_ADMIN_PASSWD")
          ∷ (
            "valueFrom",
            dict (
                (
                  "secretKeyRef",
                  dict (
                      ("name", str (resource_name <> "-admin"))
                      ∷ ("key", str "admin-password")
                      ∷ []),
                )
                ∷ []),
          )
          ∷ []))
      ∷ [])
    ++ redis_env valkey_host

pub odoo_container :
    String → String → String → String → Option String → List Addon → Amounts → Amounts → Value
unfolding odoo_volume_mounts odoo_env
odoo_container resource_name odoo_image db_host db_secret valkey_host addons req lim = dict (
    ("name", str "odoo")
    ∷ ("image", str odoo_image)
    ∷ ("imagePullPolicy", str "Always")
    ∷ ("ports", list ((dict (("containerPort", num 8069) ∷ ("name", str "http") ∷ [])) ∷ []))
    ∷ ("env", list (odoo_env db_host db_secret resource_name valkey_host))
    ∷ ("volumeMounts", list (odoo_volume_mounts addons))
    ∷ (
      "resources",
      dict (
          (
            "requests",
            dict (
                ("cpu", str (ensure_str req.cpu "500m"))
                ∷ ("memory", str (ensure_str req.memory "1Gi"))
                ∷ []),
          )
          ∷ (
            "limits",
            dict (
                ("cpu", str (ensure_str lim.cpu "2"))
                ∷ ("memory", str (ensure_str lim.memory "4Gi"))
                ∷ []),
          )
          ∷ []),
    )
    ∷ (
      "livenessProbe",
      dict (
          ("httpGet", dict (("path", str "/web/health") ∷ ("port", num 8069) ∷ []))
          ∷ ("initialDelaySeconds", num 120)
          ∷ ("periodSeconds", num 30)
          ∷ ("timeoutSeconds", num 15)
          ∷ ("failureThreshold", num 5)
          ∷ []),
    )
    ∷ (
      "readinessProbe",
      dict (
          ("httpGet", dict (("path", str "/web/health") ∷ ("port", num 8069) ∷ []))
          ∷ ("initialDelaySeconds", num 60)
          ∷ ("periodSeconds", num 15)
          ∷ ("timeoutSeconds", num 10)
          ∷ ("failureThreshold", num 6)
          ∷ []),
    )
    ∷ [])

pub sidecars : String → Option Tailnet → List Value
sidecars auth_secret none = []
sidecars auth_secret (some t) =
    get_tailscale_sidecar (get_or t.hostname "odoo") (get_or t.tags "tag:odoo-web") auth_secret ∷ []

addon_volumes : Python → String → List Addon → List Value
unfolding key_volume
addon_volumes py resource_name addons =
    if nonempty addons
    then (dict (
        ("name", str "addons")
        ∷ ("persistentVolumeClaim", dict (("claimName", str (resource_name <> "-addons")) ∷ []))
        ∷ []))
      ∷ map key_volume (py.iterate (deploy_secrets addons))
    else []

tailscale_volumes : String → Option Tailnet → List Value
tailscale_volumes name none = []
tailscale_volumes name (some t) = get_tailscale_volumes (name <> "-odoo")

pub volumes : Python → String → List Addon → Option Tailnet → List Value
unfolding addon_volumes tailscale_volumes
volumes py name addons tailscale =
    let resource_name = name <> "-odoo" in
    ((dict (
        ("name", str "filestore")
        ∷ ("persistentVolumeClaim", dict (("claimName", str (resource_name <> "-filestore")) ∷ []))
        ∷ []))
      ∷ (dict (
          ("name", str "config")
          ∷ (
            "configMap",
            dict (("name", str (resource_name <> "-config")) ∷ ("defaultMode", num 493) ∷ []),
          )
          ∷ []))
      ∷ [])
    ++ (addon_volumes py resource_name addons ++ tailscale_volumes name tailscale)

-- `pod_spec`
pub pod_spec : String → List Value → List Value → List Value → Value
pod_spec resource_name containers volume_list init_list = dict (
    ("serviceAccountName", str resource_name)
    ∷ ("containers", list containers)
    ∷ ("volumes", list volume_list)
    ∷ (if nonempty init_list then ("initContainers", list init_list) ∷ [] else []))
