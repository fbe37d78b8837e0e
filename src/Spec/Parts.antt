-- ===== src/Spec/Parts.antt =====
-- The parts of an OdooCluster's `spec`, with `{}` in the place of one that is missing, as
-- `spec.get('…', {})` gives it (src/main.py).
use odoo_operator.Base.{Bool, false, Option, none, some, List, [], get_or, if◌then◌else◌}
use odoo_operator.Spec.{
  Addon, AddonsSpec, Backup, BiSpec, CloudflareSpec, ClusterSpec, DatabaseSpec, Networking,
  OdooSpec, Tailnet, TailscaleSpec, ValkeySpec,
}

-- `{}` in the place of a part that is missing.
abbrev pub no_backup : Backup
no_backup = record {
  enabled = none;
  schedule = none;
  filestore_schedule = none;
  retention_policy = none;
  s3 = none;
}

abbrev pub no_database : DatabaseSpec
no_database = record {
  storage = none;
  storage_class_name = none;
  instances = none;
  resources = none;
  backup = none;
  restore = none;
}

abbrev pub no_odoo : OdooSpec
no_odoo = record {
  version = none;
  image = none;
  replicas = none;
  storage = none;
  storage_class_name = none;
  resources = none;
  addons = none;
}

abbrev pub no_valkey : ValkeySpec
no_valkey = record { enabled = none; storage = none; resources = none }

abbrev pub no_bi : BiSpec
no_bi = record { enabled = none; storage = none; storage_class_name = none; resources = none }

abbrev pub no_tailnet : Tailnet
no_tailnet = record { enabled = none; hostname = none; funnel = none; tags = none }

abbrev pub no_tailscale : TailscaleSpec
no_tailscale = record { auth_secret_name = none; odoo = none; bi = none }

abbrev pub no_cloudflare : CloudflareSpec
no_cloudflare = record {
  enabled = none;
  tunnel_secret_name = none;
  replicas = none;
  odoo_hostname = none;
  bi_hostname = none;
}

abbrev pub no_addons : AddonsSpec
no_addons = record { valkey = none; bi = none }

abbrev pub no_networking : Networking
no_networking = record { tailscale = none; cloudflare = none }

-- The parts of a spec, as `spec.get('…', {})` reads them one below the other.
abbrev pub database_of : ClusterSpec → DatabaseSpec
database_of c = get_or c.database no_database

abbrev pub backup_of : ClusterSpec → Backup
backup_of c = get_or (database_of c).backup no_backup

abbrev pub odoo_of : ClusterSpec → OdooSpec
odoo_of c = get_or c.odoo no_odoo

abbrev pub addon_list_of : ClusterSpec → List Addon
addon_list_of c = get_or (odoo_of c).addons []

abbrev pub valkey_of : ClusterSpec → ValkeySpec
valkey_of c = get_or (get_or c.addons no_addons).valkey no_valkey

abbrev pub bi_of : ClusterSpec → BiSpec
bi_of c = get_or (get_or c.addons no_addons).bi no_bi

abbrev pub tailscale_of : ClusterSpec → TailscaleSpec
tailscale_of c = get_or (get_or c.networking no_networking).tailscale no_tailscale

abbrev pub cloudflare_of : ClusterSpec → CloudflareSpec
cloudflare_of c = get_or (get_or c.networking no_networking).cloudflare no_cloudflare

-- `x if x.get('enabled') else None`
abbrev pub if_enabled {ℓ} : {A : Type ℓ} → Option Bool → A → Option A
if_enabled none a = none
if_enabled (some b) a = if b then some a else none

abbrev pub is_enabled : Option Bool → Bool
is_enabled b = get_or b false
