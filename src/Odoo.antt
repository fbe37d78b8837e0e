-- ===== src/Odoo.antt =====
-- src/handlers/odoo.py: the Odoo deployment with its account, claims, secret, configuration,
-- sidecar and service.
pub mod Clone
pub mod Conf
pub mod Pod
pub mod Bodies
pub mod Rules
use odoo_operator.Base.{
  ℕ, String, ◌<>◌, true, Option, none, some, List, [], ◌∷◌, ◌++◌, get_or, or_text, nonempty,
}
use odoo_operator.Value.{Value}
use odoo_operator.Prog.{
  Key, service_account, pvc, secret, config_map, deployment, service, Prog, ret, ◌>>=◌, ◌>>◌, when,
}
use odoo_operator.Kube.{
  create_or_skip, create_or_patch, create_or_patch_wrapped, create_if_missing, delete_if_present,
}
use odoo_operator.Python.{Python}
use odoo_operator.Password.{generate_password}
use odoo_operator.Spec.{Addon, Resources, Tailnet, no_amounts, no_resources}
use odoo_operator.Owner.{OwnerRef, key}
use odoo_operator.Tailscale
use odoo_operator.Odoo.Conf.{odoo_conf, compute_config_hash}
use odoo_operator.Odoo.Pod.{init_containers, odoo_container, sidecars, volumes, pod_spec}
use odoo_operator.Odoo.Bodies.{
  account_body, claim_spec, filestore_body, secret_body, addons_body, config_data, config_body,
  deployment_metadata, deployment_body, service_body,
}

abbrev pub account_key : String → String → Key
account_key namespace name = key service_account namespace (name <> "-odoo")

abbrev pub filestore_key : String → String → Key
filestore_key namespace name = key pvc namespace (name <> "-odoo-filestore")

abbrev pub secret_key : String → String → Key
secret_key namespace name = key secret namespace (name <> "-odoo-admin")

abbrev pub addons_key : String → String → Key
addons_key namespace name = key pvc namespace (name <> "-odoo-addons")

abbrev pub config_key : String → String → Key
config_key namespace name = key config_map namespace (name <> "-odoo-config")

abbrev pub deployment_key : String → String → Key
deployment_key namespace name = key deployment namespace (name <> "-odoo")

abbrev pub service_key : String → String → Key
service_key namespace name = key service namespace (name <> "-odoo")

-- The arguments of `create_odoo`. `valkey_host` is `none` unless Valkey is enabled and has a host.
pub record OdooArgs : Type 0 where
  pub namespace : String
  pub name : String
  pub version : String
  pub image : Option String
  pub replicas : ℕ
  pub storage : String
  pub storage_class_name : Option String
  pub resources : Option Resources
  pub addons : List Addon
  pub db_host : String
  pub db_secret : String
  pub valkey_host : Option String
  pub tailscale : Option Tailnet
  pub tailscale_auth_secret : String
  pub owner_ref : Option OwnerRef

abbrev admin_secret : OdooArgs → Prog Value
admin_secret a = do
  password ← generate_password 32
  ret (secret_body a.namespace a.name password a.owner_ref)

module _ (py : Python) where
  -- The branch `if tailscale:`.
  setup_tailscale : String → String → Option Tailnet → Prog Unit
  setup_tailscale namespace name none = ret tt
  setup_tailscale namespace name (some t) = do
    Tailscale.create_tailscale_resources py namespace name "odoo" 8069 (get_or t.funnel true)
    create_or_patch (Tailscale.role_key namespace name "odoo")
        (Tailscale.rbac_role namespace name "odoo")
    create_or_patch (Tailscale.binding_key namespace name "odoo")
        (Tailscale.rbac_binding namespace name "odoo")

  abbrev pub odoo_pod : OdooArgs → Value
  odoo_pod a =
      let res = get_or a.resources no_resources in
      pod_spec (a.name <> "-odoo")
        (odoo_container (a.name <> "-odoo") (or_text a.image ("odoo:" <> a.version)) a.db_host
            a.db_secret a.valkey_host a.addons (get_or res.requests no_amounts)
            (get_or res.limits no_amounts)
          ∷ sidecars a.tailscale_auth_secret a.tailscale)
        (volumes py a.name a.addons a.tailscale) (init_containers py a.addons)

  abbrev odoo_deployment : OdooArgs → Value
  odoo_deployment a =
      deployment_body a.name (deployment_metadata a.namespace a.name a.owner_ref) a.replicas
        (compute_config_hash py a.version a.image a.addons (get_or a.resources no_resources)
          a.db_host a.tailscale)
        (odoo_pod a)

  pub create_odoo : OdooArgs → Prog Unit
  unfolding setup_tailscale
  create_odoo a = do
    create_or_skip (account_key a.namespace a.name) (account_body a.namespace a.name a.owner_ref)
    create_or_skip (filestore_key a.namespace a.name)
        (filestore_body a.namespace a.name (claim_spec a.storage a.storage_class_name) a.owner_ref)
    create_if_missing (secret_key a.namespace a.name) (admin_secret a)
    when (nonempty a.addons) (
        create_or_skip (addons_key a.namespace a.name)
          (addons_body a.namespace a.name (claim_spec "5Gi" a.storage_class_name) a.owner_ref))
    create_or_patch (config_key a.namespace a.name) (
        config_body a.namespace a.name
          (config_data (odoo_conf a.db_host a.addons a.valkey_host) a.addons) a.owner_ref)
    setup_tailscale a.namespace a.name a.tailscale
    create_or_patch_wrapped "Failed to create Odoo deployment: " (deployment_key a.namespace a.name)
        (odoo_deployment a)
    create_or_patch (service_key a.namespace a.name) (service_body a.namespace a.name a.owner_ref)

pub delete_odoo : String → String → Prog Unit
delete_odoo namespace name = do
  delete_if_present (deployment_key namespace name)
  delete_if_present (service_key namespace name)
  delete_if_present (config_key namespace name)
  delete_if_present (filestore_key namespace name)
  delete_if_present (addons_key namespace name)
  Tailscale.delete_tailscale_resources namespace name "odoo"
  delete_if_present (Tailscale.role_key namespace name "odoo")
  delete_if_present (Tailscale.binding_key namespace name "odoo")
  delete_if_present (account_key namespace name)
