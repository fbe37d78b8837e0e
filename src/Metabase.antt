-- ===== src/Metabase.antt =====
-- src/handlers/metabase.py: the Metabase deployment with its account, claim, secret, sidecar and
-- service.
pub mod Bodies
pub mod Rules
use odoo_operator.Base.{String, ◌<>◌, false, Option, none, some, List, [], ◌∷◌, get_or}
use odoo_operator.Value.{Value}
use odoo_operator.Prog.{
  Key, service_account, pvc, secret, deployment, service, Prog, ret, ◌>>=◌, ◌>>◌,
}
use odoo_operator.Kube.{
  create_or_skip, create_or_patch, create_or_patch_wrapped, create_if_missing, delete_if_present,
}
use odoo_operator.Python.{Python}
use odoo_operator.Password.{generate_password}
use odoo_operator.Spec.{Resources, Tailnet, no_amounts, no_resources}
use odoo_operator.Owner.{OwnerRef, key}
use odoo_operator.Tailscale
use odoo_operator.Metabase.Bodies.{
  account_body, claim_spec, data_body, secret_body, metabase_container, sidecars, volumes,
  deployment_body, service_body,
}

abbrev pub account_key : String → String → Key
account_key namespace name = key service_account namespace (name <> "-metabase")

abbrev pub data_key : String → String → Key
data_key namespace name = key pvc namespace (name <> "-metabase-data")

abbrev pub secret_key : String → String → Key
secret_key namespace name = key secret namespace (name <> "-metabase-admin")

abbrev pub deployment_key : String → String → Key
deployment_key namespace name = key deployment namespace (name <> "-metabase")

abbrev pub service_key : String → String → Key
service_key namespace name = key service namespace (name <> "-metabase")

-- The arguments of `create_metabase`.
pub record MetabaseArgs : Type 0 where
  pub namespace : String
  pub name : String
  pub storage : String
  pub storage_class_name : Option String
  pub resources : Option Resources
  pub tailscale : Option Tailnet
  pub tailscale_auth_secret : String
  pub owner_ref : Option OwnerRef

abbrev admin_secret : MetabaseArgs → Prog Value
admin_secret a = do
  password ← generate_password 24
  ret (secret_body a.namespace a.name password a.owner_ref)

module _ (py : Python) where
  setup_tailscale : String → String → Option Tailnet → Prog Unit
  setup_tailscale namespace name none = ret tt
  setup_tailscale namespace name (some t) = do
    Tailscale.create_tailscale_resources py namespace name "metabase" 3000 (get_or t.funnel false)
    create_or_patch (Tailscale.role_key namespace name "metabase")
        (Tailscale.rbac_role namespace name "metabase")
    create_or_patch (Tailscale.binding_key namespace name "metabase")
        (Tailscale.rbac_binding namespace name "metabase")

  abbrev pub metabase_deployment : MetabaseArgs → Value
  metabase_deployment a =
      let res = get_or a.resources no_resources in
      deployment_body a.namespace a.name
        (metabase_container a.name (get_or res.requests no_amounts) (get_or res.limits no_amounts)
          ∷ sidecars a.tailscale_auth_secret a.tailscale)
        (volumes a.name a.tailscale) a.owner_ref

  pub create_metabase : MetabaseArgs → Prog Unit
  unfolding setup_tailscale
  create_metabase a = do
    create_or_skip (account_key a.namespace a.name) (account_body a.namespace a.name a.owner_ref)
    create_or_skip (data_key a.namespace a.name)
        (data_body a.namespace a.name (claim_spec a.storage a.storage_class_name) a.owner_ref)
    create_if_missing (secret_key a.namespace a.name) (admin_secret a)
    setup_tailscale a.namespace a.name a.tailscale
    create_or_patch_wrapped "Failed to create Metabase: " (deployment_key a.namespace a.name)
        (metabase_deployment a)
    create_or_patch (service_key a.namespace a.name) (service_body a.namespace a.name a.owner_ref)

pub delete_metabase : String → String → Prog Unit
delete_metabase namespace name = do
  delete_if_present (deployment_key namespace name)
  delete_if_present (service_key namespace name)
  delete_if_present (data_key namespace name)
  Tailscale.delete_tailscale_resources namespace name "metabase"
  delete_if_present (Tailscale.role_key namespace name "metabase")
  delete_if_present (Tailscale.binding_key namespace name "metabase")
  delete_if_present (account_key namespace name)
