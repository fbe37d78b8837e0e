-- ===== src/Tailscale.antt =====
-- src/handlers/tailscale.py: the sidecar container and the objects that it needs.
pub mod Rules
use odoo_operator.Base.{ℕ, String, ◌<>◌, Bool, true, List, [], ◌∷◌, ◌++◌, decimal, if◌then◌else◌}
use odoo_operator.Value.{Value, num, str, bool, dict, list, new}
use odoo_operator.Prog.{Key, config_map, pvc, role, role_binding, Prog, ret, ◌>>=◌, ◌>>◌}
use odoo_operator.Kube.{create_or_patch, create_or_skip, delete_if_present}
use odoo_operator.Python.{Python}
use odoo_operator.Owner.{labels, key}

unfoldable pub get_tailscale_sidecar : String → String → String → Value
get_tailscale_sidecar hostname tags auth_secret_name = dict (
    ("name", str "tailscale")
    ∷ ("image", str "tailscale/tailscale:v1.76.1")
    ∷ ("imagePullPolicy", str "IfNotPresent")
    ∷ (
      "env",
      list (
          (dict (
            ("name", str "TS_AUTHKEY")
            ∷ (
              "valueFrom",
              dict (
                  (
                    "secretKeyRef",
                    dict (("name", str auth_secret_name) ∷ ("key", str "TS_AUTHKEY") ∷ []),
                  )
                  ∷ []),
            )
            ∷ []))
          ∷ (dict (("name", str "TS_HOSTNAME") ∷ ("value", str hostname) ∷ []))
          ∷ (dict (("name", str "TS_STATE_DIR") ∷ ("value", str "/var/lib/tailscale") ∷ []))
          ∷ (dict (("name", str "TS_USERSPACE") ∷ ("value", str "false") ∷ []))
          ∷ (dict (("name", str "TS_SERVE_CONFIG") ∷ ("value", str "/config/serve.json") ∷ []))
          ∷ (dict
              (("name", str "TS_EXTRA_ARGS") ∷ ("value", str ("--advertise-tags=" <> tags)) ∷ []))
          ∷ []),
    )
    ∷ (
      "securityContext",
      dict (("capabilities", dict (("add", list ((str "NET_ADMIN") ∷ [])) ∷ [])) ∷ []),
    )
    ∷ (
      "volumeMounts",
      list (
          (dict (("name", str "tailscale-state") ∷ ("mountPath", str "/var/lib/tailscale") ∷ []))
          ∷ (dict (("name", str "tailscale-config") ∷ ("mountPath", str "/config") ∷ []))
          ∷ []),
    )
    ∷ [])

unfoldable pub get_tailscale_volumes : String → List Value
get_tailscale_volumes name =
    (dict (
      ("name", str "tailscale-state")
      ∷ ("persistentVolumeClaim", dict (("claimName", str (name <> "-tailscale-state")) ∷ []))
      ∷ []))
    ∷ (dict (
        ("name", str "tailscale-config")
        ∷ ("configMap", dict (("name", str (name <> "-tailscale-config")) ∷ []))
        ∷ []))
    ∷ []

pub get_serve_config : ℕ → Bool → Value
get_serve_config target_port funnel = dict (
    ("TCP", dict (("443", dict (("HTTPS", bool true) ∷ [])) ∷ []))
    ∷ (
      "Web",
      dict (
          (
            "443",
            dict (
                (
                  "Handlers",
                  dict (
                      (
                        "/",
                        dict (("Proxy", str ("http://127.0.0.1:" <> (decimal target_port))) ∷ []),
                      )
                      ∷ []),
                )
                ∷ []),
          )
          ∷ []),
    )
    ∷ (if funnel then ("AllowFunnel", dict (("443", bool true) ∷ [])) ∷ [] else []))

-- The names that `resource_name = f"{name}-{component}"` leads to.
abbrev pub resource : String → String → String
resource name component = name <> ("-" <> component)

abbrev pub config_key : String → String → String → Key
config_key namespace name component =
    key config_map namespace (resource name component <> "-tailscale-config")

abbrev pub state_key : String → String → String → Key
state_key namespace name component =
    key pvc namespace (resource name component <> "-tailscale-state")

module _ (py : Python) where
  config_body : String → String → String → ℕ → Bool → Value
  config_body namespace name component target_port funnel =
      let resource_name = resource name component in
      new "V1ConfigMap" (
        (
          "metadata",
          new "V1ObjectMeta" (
              ("name", str (resource_name <> "-tailscale-config"))
              ∷ ("namespace", str namespace)
              ∷ ("labels", labels name component)
              ∷ []),
        )
        ∷ ("data", dict (("serve.json", str (py.dumps (get_serve_config target_port funnel))) ∷ []))
        ∷ [])

  state_body : String → String → String → Value
  state_body namespace name component =
      let resource_name = resource name component in
      new "V1PersistentVolumeClaim" (
        (
          "metadata",
          new "V1ObjectMeta" (
              ("name", str (resource_name <> "-tailscale-state"))
              ∷ ("namespace", str namespace)
              ∷ ("labels", labels name component)
              ∷ []),
        )
        ∷ (
          "spec",
          new "V1PersistentVolumeClaimSpec" (
              ("access_modes", list ((str "ReadWriteOnce") ∷ []))
              ∷ (
                "resources",
                new "V1VolumeResourceRequirements"
                    (("requests", dict (("storage", str "100Mi") ∷ [])) ∷ []),
              )
              ∷ []),
        )
        ∷ [])

  pub create_tailscale_resources : String → String → String → ℕ → Bool → Prog Unit
  unfolding config_body state_body
  create_tailscale_resources namespace name component target_port funnel = do
    create_or_patch (config_key namespace name component)
        (config_body namespace name component target_port funnel)
    create_or_skip (state_key namespace name component) (state_body namespace name component)

pub delete_tailscale_resources : String → String → String → Prog Unit
delete_tailscale_resources namespace name component = do
  delete_if_present (config_key namespace name component)
  delete_if_present (state_key namespace name component)

abbrev pub role_key : String → String → String → Key
role_key namespace name component = key role namespace (resource name component <> "-tailscale")

abbrev pub binding_key : String → String → String → Key
binding_key namespace name component =
    key role_binding namespace (resource name component <> "-tailscale")

-- `get_tailscale_rbac`, its two results.
pub rbac_role : String → String → String → Value
rbac_role namespace name component =
    let resource_name = resource name component in
    dict (
      ("apiVersion", str "rbac.authorization.k8s.io/v1")
      ∷ ("kind", str "Role")
      ∷ (
        "metadata",
        dict (("name", str (resource_name <> "-tailscale")) ∷ ("namespace", str namespace) ∷ []),
      )
      ∷ (
        "rules",
        list (
            (dict (
              ("apiGroups", list ((str "") ∷ []))
              ∷ ("resources", list ((str "secrets") ∷ []))
              ∷ (
                "verbs",
                list (
                    (str "create")
                    ∷ (str "get")
                    ∷ (str "update")
                    ∷ (str "patch")
                    ∷ (str "delete")
                    ∷ []),
              )
              ∷ []))
            ∷ []),
      )
      ∷ [])

pub rbac_binding : String → String → String → Value
rbac_binding namespace name component =
    let resource_name = resource name component in
    dict (
      ("apiVersion", str "rbac.authorization.k8s.io/v1")
      ∷ ("kind", str "RoleBinding")
      ∷ (
        "metadata",
        dict (("name", str (resource_name <> "-tailscale")) ∷ ("namespace", str namespace) ∷ []),
      )
      ∷ (
        "subjects",
        list (
            (dict (
              ("kind", str "ServiceAccount")
              ∷ ("name", str resource_name)
              ∷ ("namespace", str namespace)
              ∷ []))
            ∷ []),
      )
      ∷ (
        "roleRef",
        dict (
            ("kind", str "Role")
            ∷ ("name", str (resource_name <> "-tailscale"))
            ∷ ("apiGroup", str "rbac.authorization.k8s.io")
            ∷ []),
      )
      ∷ [])
