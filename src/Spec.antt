-- ===== src/Spec.antt =====
-- The `spec` of an OdooCluster, field by field as the handlers read it. `d.get(key)` of a dict is a
-- field of type `Option`: `none` where the key is missing.
pub mod Parts
use mathlib.Core.Option
use odoo_operator.Base.{
  ℕ, String, Bool, false, Option, none, some, List, [], ◌∷◌, ◌++◌, map, decimal, truthy_opt, get_or,
  if◌then◌else◌,
}
use odoo_operator.Value.{Value, null, bool, num, str, dict, list}

-- An `x-kubernetes-int-or-string`.
pub data Quantity : Type 0 where
  int : ℕ → Quantity
  text : String → Quantity

abbrev pub quantity : Quantity → Value
quantity (int n) = num n
quantity (text s) = str s

-- `ensure_str(val, default)`: the default for a value that is missing, else `str(val)`.
pub ensure_str : Option Quantity → String → String
ensure_str none d = d
ensure_str (some (int n)) d = decimal n
ensure_str (some (text s)) d = s

pub record Amounts : Type 0 where
  pub cpu : Option Quantity
  pub memory : Option Quantity

pub record Resources : Type 0 where
  pub requests : Option Amounts
  pub limits : Option Amounts

-- `{}`
abbrev pub no_amounts : Amounts
no_amounts = record { cpu = none; memory = none }

abbrev pub no_resources : Resources
no_resources = record { requests = none; limits = none }

-- An entry of `spec.odoo.addons`; `name` and `repo` are required by the schema.
pub record Addon : Type 0 where
  pub name : String
  pub repo : String
  pub branch : Option String
  pub path : Option String
  pub deploy_key_secret : Option String
  pub install : Option Bool

-- The names of the deploy keys, as they are added to a set.
pub deploy_secrets : List Addon → List String
deploy_secrets [] = []
deploy_secrets (a ∷ addons) =
    (if truthy_opt a.deploy_key_secret then get_or a.deploy_key_secret "" ∷ [] else [])
    ++ deploy_secrets addons

-- A key of a dict, where the value is there.
abbrev entry : String → Option Value → List (String × Value)
entry k none = []
entry k (some v) = (k, v) ∷ []

-- The dicts themselves, as the handlers pass them on.
addon_dict : Addon → Value
addon_dict a = dict (
    ("name", str a.name)
    ∷ ("repo", str a.repo)
    ∷ (entry "branch" (Option.map str a.branch)
        ++ (entry "path" (Option.map str a.path)
            ++ (entry "deployKeySecret" (Option.map str a.deploy_key_secret)
                ++ entry "install" (Option.map bool a.install)))))

pub addon_list : List Addon → Value
unfolding addon_dict
addon_list addons = list (map addon_dict addons)

abbrev amounts_dict : Amounts → Value
amounts_dict a =
    dict (entry "cpu" (Option.map quantity a.cpu) ++ entry "memory" (Option.map quantity a.memory))

pub resources_dict : Resources → Value
resources_dict r = dict (
    entry "requests" (Option.map amounts_dict r.requests)
    ++ entry "limits" (Option.map amounts_dict r.limits))

pub record S3 : Type 0 where
  pub endpoint : Option String
  pub bucket : Option String
  pub secret_name : Option String
  pub database_key : Option String
  pub filestore_key : Option String

abbrev pub no_s3 : S3
no_s3 = record {
  endpoint = none;
  bucket = none;
  secret_name = none;
  database_key = none;
  filestore_key = none;
}

pub record Backup : Type 0 where
  pub enabled : Option Bool
  pub schedule : Option String
  pub filestore_schedule : Option String
  pub retention_policy : Option String
  pub s3 : Option S3

pub record Restore : Type 0 where
  pub enabled : Option Bool
  pub s3 : Option S3

pub record DatabaseSpec : Type 0 where
  pub storage : Option String
  pub storage_class_name : Option String
  pub instances : Option ℕ
  pub resources : Option Resources
  pub backup : Option Backup
  pub restore : Option Restore

pub record OdooSpec : Type 0 where
  pub version : Option String
  pub image : Option String
  pub replicas : Option ℕ
  pub storage : Option String
  pub storage_class_name : Option String
  pub resources : Option Resources
  pub addons : Option (List Addon)

pub record ValkeySpec : Type 0 where
  pub enabled : Option Bool
  pub storage : Option String
  pub resources : Option Resources

pub record BiSpec : Type 0 where
  pub enabled : Option Bool
  pub storage : Option String
  pub storage_class_name : Option String
  pub resources : Option Resources

pub record AddonsSpec : Type 0 where
  pub valkey : Option ValkeySpec
  pub bi : Option BiSpec

-- `spec.networking.tailscale.odoo` and `.bi`
pub record Tailnet : Type 0 where
  pub enabled : Option Bool
  pub hostname : Option String
  pub funnel : Option Bool
  pub tags : Option String

pub tailnet_dict : Option Tailnet → Value
tailnet_dict none = null
tailnet_dict (some t) = dict (
    entry "enabled" (Option.map bool t.enabled)
    ++ (entry "hostname" (Option.map str t.hostname)
        ++ (entry "funnel" (Option.map bool t.funnel) ++ entry "tags" (Option.map str t.tags))))

pub record TailscaleSpec : Type 0 where
  pub auth_secret_name : Option String
  pub odoo : Option Tailnet
  pub bi : Option Tailnet

pub record CloudflareSpec : Type 0 where
  pub enabled : Option Bool
  pub tunnel_secret_name : Option String
  pub replicas : Option ℕ
  pub odoo_hostname : Option String
  pub bi_hostname : Option String

pub record Networking : Type 0 where
  pub tailscale : Option TailscaleSpec
  pub cloudflare : Option CloudflareSpec

pub record ClusterSpec : Type 0 where
  pub odoo : Option OdooSpec
  pub database : Option DatabaseSpec
  pub addons : Option AddonsSpec
  pub networking : Option Networking
