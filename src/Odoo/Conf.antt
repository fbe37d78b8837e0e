-- ===== src/Odoo/Conf.antt =====
-- The contents of `odoo.conf` (src/handlers/odoo.py): the addons path, the session store and the
-- hash that restarts the pods when the configuration changes.
use odoo_operator.Base.{
  String, ◌<>◌, Option, none, some, List, [], ◌∷◌, join, nonempty, if◌then◌else◌,
}
use odoo_operator.Value.{str, dict, str_opt}
use odoo_operator.Python.{Python}
use odoo_operator.Spec.{Addon, Resources, Tailnet, addon_list, resources_dict, tailnet_dict}

addons_paths : List Addon → List String
addons_paths [] = []
addons_paths (a ∷ addons) = ("/mnt/addons/" <> a.name) ∷ addons_paths addons

unfoldable pub build_addons_path : List Addon → String
unfolding addons_paths
build_addons_path addons = join "," ("/mnt/extra-addons" ∷ addons_paths addons)

-- `valkey_host` if `valkey_enabled and valkey_host`: the parameter is `none` otherwise.
pub redis_config : Option String → String
redis_config none = ""
redis_config (some host) =
    "\n; Redis session store (Valkey)\nredis_session_store = True\nredis_host = "
    <> (host <> "\nredis_port = 6379\n")

pub odoo_conf : String → List Addon → Option String → String
unfolding build_addons_path redis_config
odoo_conf db_host addons valkey_host =
    let addons_path = if nonempty addons then build_addons_path addons else "/mnt/extra-addons" in
    let redis_config = redis_config valkey_host in
    "[options]\ndb_host = "
    <> (db_host
        <> ("\ndb_port = 5432\ndb_user = odoo\ndb_name = odoo\ndata_dir = /var/lib/odoo\naddons_path = "
            <> (addons_path
                <> ("\nproxy_mode = True\nlist_db = False\n" <> (redis_config <> "\n")))))

pub compute_config_hash :
    Python → String → Option String → List Addon → Resources → String → Option Tailnet → String
compute_config_hash py version image addons resources db_host tailscale = py.digest (
    dict (
      ("version", str version)
      ∷ ("image", str_opt image)
      ∷ ("addons", addon_list addons)
      ∷ ("resources", resources_dict resources)
      ∷ ("db_host", str db_host)
      ∷ ("tailscale", tailnet_dict tailscale)
      ∷ []))
