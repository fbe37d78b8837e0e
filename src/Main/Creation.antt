-- ===== src/Main/Creation.antt =====
-- The `try` block of `on_create` in src/main.py, a step for each part of the cluster.
pub mod Rules
pub mod Phase
pub mod Retention
pub mod Failure
pub mod References
use odoo_operator.Base.{
  ℕ, String, ◌<>◌, Bool, true, false, ◌&&◌, Option, none, some, List, [], ◌∷◌, truthy_opt, get_or,
  or_text, chars, text_of, List, rstrip_by, ◌==◌, parse_int, int_text, PyInt, if◌then◌else◌,
}
use Prim.Native.Char.{Char, code}
use odoo_operator.Value.{Value, bool, str, dict}
use odoo_operator.Prog.{
  now, value_error, Prog, ret, raise, ◌>>=◌, ◌>>◌, request, as_text, set_status, set_endpoint, when,
}
use odoo_operator.Python.{Python}
use odoo_operator.Spec.{ClusterSpec, Backup, no_s3}
use odoo_operator.Spec.Parts.{
  no_tailnet, database_of, backup_of, odoo_of, addon_list_of, valkey_of, bi_of, tailscale_of,
  cloudflare_of, if_enabled, is_enabled,
}
use odoo_operator.Owner.{OwnerRef}
use odoo_operator.Database.{create_database}
use odoo_operator.Valkey.{create_valkey}
use odoo_operator.Metabase.{MetabaseArgs, create_metabase}
use odoo_operator.Odoo.{OdooArgs, create_odoo}
use odoo_operator.DbInit.{JobArgs, create_db_init_job}
use odoo_operator.Cloudflare.{TunnelArgs, create_cloudflare_tunnel}
use odoo_operator.FilestoreBackup.Body.{BackupArgs}
use odoo_operator.FilestoreBackup.{create_filestore_backup_job}

-- `patch.status['lastUpdated'] = datetime.now(timezone.utc).isoformat()`
pub touch : Prog Unit
touch = do t ← as_text (← request now); set_status "lastUpdated" (str t)

-- What every step is given.
pub record Cluster : Type 0 where
  pub spec : ClusterSpec
  pub name : String
  pub namespace : String
  pub owner : OwnerRef

abbrev pub db_host_name : String → String → String
db_host_name namespace name = name <> ("-db-rw." <> (namespace <> ".svc.cluster.local"))

pub database_step : Cluster → Prog Unit
database_step c = do
  let db = database_of c.spec
  create_database c.namespace c.name (get_or db.storage "20Gi") db.storage_class_name
      (get_or db.instances 1) db.resources
      (if_enabled (backup_of c.spec).enabled (backup_of c.spec)) (some c.owner)
  set_status "database"
      (dict (("host", str (db_host_name c.namespace c.name)) ∷ ("ready", bool false) ∷ []))

pub valkey_step : Cluster → Prog Unit
valkey_step c =
    let v = valkey_of c.spec in
    when (is_enabled v.enabled)
      (create_valkey c.namespace c.name (get_or v.storage "1Gi") v.resources (some c.owner))

abbrev pub tailnet_url : String → String
tailnet_url hostname = "https://" <> (hostname <> ".tail108d23.ts.net")

pub metabase_args : Cluster → MetabaseArgs
metabase_args c =
    let bi = bi_of c.spec in
    let ts = tailscale_of c.spec in
    record {
      namespace = c.namespace;
      name = c.name;
      storage = get_or bi.storage "5Gi";
      storage_class_name = bi.storage_class_name;
      resources = bi.resources;
      tailscale = if_enabled (get_or ts.bi no_tailnet).enabled (get_or ts.bi no_tailnet);
      tailscale_auth_secret = get_or ts.auth_secret_name "tailscale-auth";
      owner_ref = some c.owner;
    }

pub job_args : Cluster → JobArgs
job_args c =
    let odoo = odoo_of c.spec in
    record {
      namespace = c.namespace;
      name = c.name;
      odoo_image = or_text odoo.image ("odoo:" <> get_or odoo.version "17.0");
      db_host = c.name <> "-db-rw";
      db_secret = c.name <> "-db-app";
      admin_secret_name = c.name <> "-odoo-admin";
      addons = addon_list_of c.spec;
      storage_class_name = odoo.storage_class_name;
      restore = (database_of c.spec).restore;
      owner_ref = some c.owner;
    }

pub odoo_args : Cluster → OdooArgs
odoo_args c =
    let odoo = odoo_of c.spec in
    let ts = tailscale_of c.spec in
    record {
      namespace = c.namespace;
      name = c.name;
      version = get_or odoo.version "17.0";
      image = odoo.image;
      replicas = get_or odoo.replicas 1;
      storage = get_or odoo.storage "10Gi";
      storage_class_name = odoo.storage_class_name;
      resources = odoo.resources;
      addons = addon_list_of c.spec;
      db_host = c.name <> "-db-rw";
      db_secret = c.name <> "-db-app";
      valkey_host = if_enabled (valkey_of c.spec).enabled (c.name <> "-valkey");
      tailscale = if_enabled (get_or ts.odoo no_tailnet).enabled (get_or ts.odoo no_tailnet);
      tailscale_auth_secret = get_or ts.auth_secret_name "tailscale-auth";
      owner_ref = some c.owner;
    }

pub tunnel_args : Cluster → TunnelArgs
tunnel_args c =
    let cf = cloudflare_of c.spec in
    record {
      namespace = c.namespace;
      name = c.name;
      tunnel_secret_name = get_or cf.tunnel_secret_name "cloudflare-tunnel";
      odoo_hostname = cf.odoo_hostname;
      metabase_hostname = cf.bi_hostname;
      metabase_enabled = is_enabled (bi_of c.spec).enabled;
      replicas = get_or cf.replicas 1;
      owner_ref = some c.owner;
    }

-- The public endpoints and the tunnel's status.
tunnel_status : Cluster → Prog Unit
tunnel_status c = do
  let cf = cloudflare_of c.spec
  when (truthy_opt cf.odoo_hostname)
      (set_endpoint "odooPublic" ("https://" <> get_or cf.odoo_hostname ""))
  when (truthy_opt cf.bi_hostname && is_enabled (bi_of c.spec).enabled)
      (set_endpoint "biPublic" ("https://" <> get_or cf.bi_hostname ""))
  set_status "cloudflare" (dict (("ready", bool false) ∷ []))

-- `policy.rstrip('d')`
abbrev pub number_part : String → List Char
number_part policy = rstrip_by (λ ch. code ch == b'd') (chars policy)

-- The number that `int(policy.rstrip('d'))` gives, if any.
unfoldable pub days_number : String → Option PyInt
unfolding rstrip_by parse_int
days_number policy = parse_int (number_part policy)

-- The backup is made where it is enabled and has a bucket.
abbrev pub wants_backup : ClusterSpec → Bool
wants_backup spec =
    let b = backup_of spec in is_enabled b.enabled && truthy_opt (get_or b.s3 no_s3).bucket

pub backup_args : Cluster → String → BackupArgs
backup_args c days =
    let b = backup_of c.spec in
    let s3 = get_or b.s3 no_s3 in
    record {
      namespace = c.namespace;
      name = c.name;
      schedule = get_or b.filestore_schedule "0 3 * * *";
      s3_bucket = s3.bucket;
      s3_endpoint = s3.endpoint;
      s3_secret_name = get_or s3.secret_name "backup-s3-creds";
      retention_days = days;
      owner_ref = some c.owner;
    }

pub finish_step : Prog Unit
unfolding touch
finish_step = do
  set_status "phase" (str "Initializing")
  set_status "message" (str "Waiting for database initialization to complete")
  touch

module _ (py : Python) where
  pub metabase_step : Cluster → Prog Unit
  unfolding metabase_args
  metabase_step c = when (is_enabled (bi_of c.spec).enabled) (do
    create_metabase py (metabase_args c)
    let net = get_or (tailscale_of c.spec).bi no_tailnet
    when (is_enabled net.enabled) (set_endpoint "bi" (tailnet_url (get_or net.hostname "bi"))))

  pub init_step : Cluster → Prog Unit
  unfolding job_args
  init_step c = do
    create_db_init_job py (job_args c)
    set_status "dbInit"
        (dict (("jobName", str (c.name <> "-db-init")) ∷ ("status", str "running") ∷ []))

  pub odoo_step : Cluster → Prog Unit
  unfolding odoo_args
  odoo_step c = do
    create_odoo py (odoo_args c)
    let net = get_or (tailscale_of c.spec).odoo no_tailnet
    when (is_enabled net.enabled) (set_endpoint "odoo" (tailnet_url (get_or net.hostname "odoo")))

  pub tunnel_step : Cluster → Prog Unit
  unfolding tunnel_args tunnel_status
  tunnel_step c =
      when (is_enabled (cloudflare_of c.spec).enabled)
        (do create_cloudflare_tunnel py (tunnel_args c); tunnel_status c)

  -- The number's text, or the `ValueError` on what is no number.
  unfoldable pub days_of : String → Option PyInt → Prog String
  unfolding int_text
  days_of literal (some n) = ret (int_text n)
  days_of literal none = raise (value_error (py.int_error literal))

  -- `int(policy.rstrip('d'))`
  unfoldable pub retention_days : String → Prog String
  unfolding days_number days_of
  retention_days policy = days_of (text_of (number_part policy)) (days_number policy)

  pub backup_step : Cluster → Prog Unit
  unfolding backup_args
  backup_step c = when (wants_backup c.spec) (do
    days ← retention_days (get_or (backup_of c.spec).retention_policy "30d")
    create_filestore_backup_job (backup_args c days)
    set_status "filestoreBackup" (dict (("enabled", bool true) ∷ [])))

  pub create_all : Cluster → Prog Unit
  create_all c = do
    database_step c
    valkey_step c
    metabase_step c
    init_step c
    odoo_step c
    tunnel_step c
    backup_step c
    finish_step
