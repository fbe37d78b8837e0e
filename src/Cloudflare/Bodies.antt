-- ===== src/Cloudflare/Bodies.antt =====
-- The tunnel's config map and its deployment (src/handlers/cloudflare.py).
pub mod Volumes
use odoo_operator.Base.{ℕ, String, ◌<>◌, true, Option, [], ◌∷◌}
use odoo_operator.Value.{Value, bool, num, str, dict, list, new}
use odoo_operator.Owner.{OwnerRef, controller_references, owner_entry, labels, selector}

unfoldable pub config_body : String → String → String → Option OwnerRef → Value
config_body namespace name tunnel_config owner_ref =
    let resource_name = name <> "-cloudflare-tunnel" in
    new "V1ConfigMap" (
      (
        "metadata",
        new "V1ObjectMeta" (
            ("name", str (resource_name <> "-config"))
            ∷ ("namespace", str namespace)
            ∷ ("owner_references", controller_references owner_ref)
            ∷ ("labels", labels name "cloudflare-tunnel")
            ∷ []),
      )
      ∷ ("data", dict (("config.yaml", str tunnel_config) ∷ []))
      ∷ [])

unfoldable pub tunnel_pod : String → String → Value
tunnel_pod name tunnel_secret_name =
    let resource_name = name <> "-cloudflare-tunnel" in
    dict (
      (
        "containers",
        list (
            (dict (
              ("name", str "cloudflared")
              ∷ ("image", str "cloudflare/cloudflared:latest")
              ∷ (
                "args",
                list (
                    (str "tunnel")
                    ∷ (str "--config")
                    ∷ (str "/etc/cloudflared/config.yaml")
                    ∷ (str "--no-autoupdate")
                    ∷ (str "run")
                    ∷ []),
              )
              ∷ (
                "volumeMounts",
                list (
                    (dict (
                      ("name", str "config")
                      ∷ ("mountPath", str "/etc/cloudflared/config.yaml")
                      ∷ ("subPath", str "config.yaml")
                      ∷ ("readOnly", bool true)
                      ∷ []))
                    ∷ (dict (
                        ("name", str "credentials")
                        ∷ ("mountPath", str "/etc/cloudflared/credentials.json")
                        ∷ ("subPath", str "credentials.json")
                        ∷ ("readOnly", bool true)
                        ∷ []))
                    ∷ []),
              )
              ∷ (
                "ports",
                list ((dict (("containerPort", num 20241) ∷ ("name", str "metrics") ∷ [])) ∷ []),
              )
              ∷ (
                "resources",
                dict (
                    ("requests", dict (("cpu", str "10m") ∷ ("memory", str "64Mi") ∷ []))
                    ∷ ("limits", dict (("cpu", str "100m") ∷ ("memory", str "128Mi") ∷ []))
                    ∷ []),
              )
              ∷ (
                "livenessProbe",
                dict (
                    ("tcpSocket", dict (("port", num 20241) ∷ []))
                    ∷ ("initialDelaySeconds", num 10)
                    ∷ ("periodSeconds", num 30)
                    ∷ ("failureThreshold", num 3)
                    ∷ []),
              )
              ∷ (
                "readinessProbe",
                dict (
                    ("tcpSocket", dict (("port", num 20241) ∷ []))
                    ∷ ("initialDelaySeconds", num 5)
                    ∷ ("periodSeconds", num 10)
                    ∷ []),
              )
              ∷ []))
            ∷ []),
      )
      ∷ (
        "volumes",
        list (
            (dict (
              ("name", str "config")
              ∷ ("configMap", dict (("name", str (resource_name <> "-config")) ∷ []))
              ∷ []))
            ∷ (dict (
                ("name", str "credentials")
                ∷ (
                  "secret",
                  dict (
                      ("secretName", str tunnel_secret_name)
                      ∷ (
                        "items",
                        list (
                            (dict (
                              ("key", str "credentials.json")
                              ∷ ("path", str "credentials.json")
                              ∷ []))
                            ∷ []),
                      )
                      ∷ []),
                )
                ∷ []))
            ∷ []),
      )
      ∷ [])

unfoldable pub deployment_body : String → String → String → ℕ → Option OwnerRef → Value
unfolding tunnel_pod
deployment_body namespace name tunnel_secret_name replicas owner_ref =
    let resource_name = name <> "-cloudflare-tunnel" in
    let metadata = dict (
      ("name", str resource_name)
      ∷ ("namespace", str namespace)
      ∷ ("labels", labels name "cloudflare-tunnel")
      ∷ owner_entry owner_ref) in
    let spec = tunnel_pod name tunnel_secret_name in
    dict (
      ("apiVersion", str "apps/v1")
      ∷ ("kind", str "Deployment")
      ∷ ("metadata", metadata)
      ∷ (
        "spec",
        dict (
            ("replicas", num replicas)
            ∷ ("selector", dict (("matchLabels", selector name "cloudflare-tunnel") ∷ []))
            ∷ (
              "template",
              dict (
                  ("metadata", dict (("labels", selector name "cloudflare-tunnel") ∷ []))
                  ∷ ("spec", spec)
                  ∷ []),
            )
            ∷ []),
      )
      ∷ [])
