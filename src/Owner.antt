-- ===== src/Owner.antt =====
-- Owner references (`build_owner_reference` in src/main.py, `build_owner_references` in
-- src/handlers/odoo.py, metabase.py and valkey.py) and the labels of every object
-- (`get_cluster_labels` in src/handlers/cluster.py).
use odoo_operator.Base.{
  String, Bool, true, Option, none, some, List, [], ◌∷◌, truthy_opt, if◌then◌else◌,
}
use odoo_operator.Value.{Value, null, bool, str, dict, list, new, str_opt}
use odoo_operator.Prog.{Kind, Key}

-- The dict that `build_owner_reference` returns.
pub record OwnerRef : Type 0 where
  pub api_version : String
  pub kind : String
  pub name : String
  pub uid : Option String
  pub controller : Bool
  pub block_owner_deletion : Bool

pub build_owner_reference : String → Option String → OwnerRef
build_owner_reference name uid = record {
  api_version = "odoo.simstech.cloud/v1alpha1";
  kind = "OdooCluster";
  name = name;
  uid = uid;
  controller = true;
  block_owner_deletion = true;
}

-- The dict itself, as it stands in a body.
abbrev pub owner_dict : OwnerRef → Value
owner_dict o = dict (
    ("apiVersion", str o.api_version)
    ∷ ("kind", str o.kind)
    ∷ ("name", str o.name)
    ∷ ("uid", str_opt o.uid)
    ∷ ("controller", bool o.controller)
    ∷ ("blockOwnerDeletion", bool o.block_owner_deletion)
    ∷ [])

pub build_owner_references : Option OwnerRef → Value
build_owner_references none = null
build_owner_references (some o) = list (
    new "V1OwnerReference" (
      ("api_version", str o.api_version)
      ∷ ("kind", str o.kind)
      ∷ ("name", str o.name)
      ∷ ("uid", str_opt o.uid)
      ∷ ("controller", bool o.controller)
      ∷ ("block_owner_deletion", bool o.block_owner_deletion)
      ∷ [])
    ∷ [])

-- The list as db_init.py and cloudflare.py write it out, with both flags set.
pub controller_references : Option OwnerRef → Value
controller_references none = null
controller_references (some o) = list (
    new "V1OwnerReference" (
      ("api_version", str o.api_version)
      ∷ ("kind", str o.kind)
      ∷ ("name", str o.name)
      ∷ ("uid", str_opt o.uid)
      ∷ ("controller", bool true)
      ∷ ("block_owner_deletion", bool true)
      ∷ [])
    ∷ [])

-- `if owner_ref: metadata["ownerReferences"] = [owner_ref]`
abbrev pub owner_entry : Option OwnerRef → List (String × Value)
owner_entry none = []
owner_entry (some o) = ("ownerReferences", list (owner_dict o ∷ [])) ∷ []

pub get_cluster_labels : String → Option String → Value
get_cluster_labels name component = dict (
    ("app.kubernetes.io/managed-by", str "odoo.simstech.cloud-operator")
    ∷ ("odoo.simstech.cloud/cluster", str name)
    ∷ (if truthy_opt component
        then ("odoo.simstech.cloud/component", str_opt component) ∷ []
        else []))

-- The labels as the handlers write them out, and those of a selector.
abbrev pub labels : String → String → Value
labels name component = dict (
    ("app.kubernetes.io/managed-by", str "odoo.simstech.cloud-operator")
    ∷ ("odoo.simstech.cloud/cluster", str name)
    ∷ ("odoo.simstech.cloud/component", str component)
    ∷ [])

abbrev pub selector : String → String → Value
selector name component = dict (
    ("odoo.simstech.cloud/cluster", str name)
    ∷ ("odoo.simstech.cloud/component", str component)
    ∷ [])

abbrev pub key : Kind → String → String → Key
key kind namespace name = record { kind = kind; space = namespace; name = name }
