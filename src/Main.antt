-- ===== src/Main.antt =====
-- src/main.py: the handlers of creation, update, deletion and of the timer. `patch.status[…] = …`
-- is a write of the program.
pub mod Creation
pub mod Reconcile
pub mod Stored
pub mod Scope
pub mod Removal
pub mod Phase
pub mod Refinement
pub mod Lifecycle
pub mod Policy
pub mod Mounted
use odoo_operator.Base.{String, Option, get_or}
use odoo_operator.Value.{str}
use odoo_operator.Prog.{
  Exn, permanent_error, message, Prog, raise, ◌>>=◌, ◌>>◌, catch, set_status, when,
}
use odoo_operator.Python.{Python}
use odoo_operator.Spec.{ClusterSpec}
use odoo_operator.Spec.Parts.{valkey_of, bi_of, cloudflare_of, is_enabled}
use odoo_operator.Owner.{build_owner_reference}
use odoo_operator.Database.{delete_database}
use odoo_operator.Valkey.{delete_valkey}
use odoo_operator.Metabase.{delete_metabase}
use odoo_operator.Odoo.{delete_odoo}
use odoo_operator.DbInit.{delete_db_init_job}
use odoo_operator.Cloudflare.{delete_cloudflare_tunnel}
use odoo_operator.Main.Creation.{touch, create_all}

-- The `except` clause of `on_create`.
pub fail_creation : Exn → Prog Unit
fail_creation e = do
  set_status "phase" (str "Error")
  set_status "message" (str (message e))
  touch
  raise (permanent_error (message e))

module _ (py : Python) where
  pub on_create : ClusterSpec → String → String → Option String → Prog Unit
  unfolding fail_creation
  on_create spec name namespace uid = do
    set_status "phase" (str "Creating")
    set_status "message" (str "Initializing cluster resources")
    touch
    set_status "namespace" (str namespace)
    catch
        (create_all py (record {
          spec = spec;
          name = name;
          namespace = namespace;
          owner = build_owner_reference name uid;
        }))
        fail_creation

  pub on_update : ClusterSpec → String → String → Option String → Prog Unit
  on_update spec name namespace uid = do
    set_status "phase" (str "Updating")
    set_status "message" (str "Updating cluster resources")
    touch
    on_create spec name namespace uid

pub on_delete : ClusterSpec → String → String → Prog Unit
on_delete spec name namespace = do
  when (is_enabled (cloudflare_of spec).enabled) (delete_cloudflare_tunnel namespace name)
  when (is_enabled (bi_of spec).enabled) (delete_metabase namespace name)
  delete_odoo namespace name
  delete_db_init_job namespace name
  when (is_enabled (valkey_of spec).enabled) (delete_valkey namespace name)
  delete_database namespace name
