-- ===== src/Tests.antt =====
-- A cluster `shop` in the namespace `prod`, for the theorems at concrete inputs.
pub mod Handlers
pub mod Composition
pub mod Timer
pub mod Parts
pub mod Sync
use odoo_operator.Base.{
  digit_in, ◌<>◌, String, ◌≡◌, refl, true, false, none, some, List, [], ◌∷◌, All, In, inl, inr,
  str_eq,
}
use odoo_operator.Value.{null, str, obj, model, end, field}
use odoo_operator.Prog.{secret, cron_job, pvc, ok, request, as_text, ◌>>=◌}
use odoo_operator.Prog.Only.{Only}
use odoo_operator.Server.{present, IsStored, IsGone}
use odoo_operator.Server.Run.{run}
use odoo_operator.Server.Memory.{Memory, memory, empty}
use odoo_operator.Server.Memory.Laws.{memory-IsLawful, memory-IsHealthy, memory-IsRandom}
use odoo_operator.Python.{Python}
use odoo_operator.Spec.{ClusterSpec, Addon}
use odoo_operator.Dynamic.{get_in, get_attr, get_value, lift}
use odoo_operator.Owner.{key}
use odoo_operator.Scope.{Provisions, Removes, InScope}
use odoo_operator.Password.{generate_password, choose_char}
use odoo_operator.Password.Rules.{IsPassword, generate_password_chars}
use odoo_operator.Odoo.{create_odoo}
use odoo_operator.Odoo.Rules.{odoo_keys, create_odoo-total}
use odoo_operator.Metabase.{create_metabase}
use odoo_operator.Metabase.Rules.{metabase_keys, create_metabase-total}
use odoo_operator.DbInit.{create_db_init_job}
use odoo_operator.DbInit.Rules.{job_keys, create_db_init_job-total}
use odoo_operator.Cloudflare.{TunnelArgs, read_tunnel_id, create_cloudflare_tunnel}
use odoo_operator.Cloudflare.Rules.{tunnel_keys, create_cloudflare_tunnel-total}
use odoo_operator.ModuleSync.{contains, missing_from, PodResult}
use odoo_operator.ModuleSync.Missing.{missing_from_sound, missing_from_complete}
use odoo_operator.Main.{on_create, on_update, on_delete}
use odoo_operator.Main.Creation.{Cluster, days_number, odoo_args, metabase_args, job_args}
use odoo_operator.Main.Creation.Phase.{IsPlain}
use odoo_operator.Main.Creation.Rules.{cluster_keys}
use odoo_operator.Main.Stored.{cluster_of, Succeeds-on_create, on_create-IsStored, on_update-total}
use odoo_operator.Main.Scope.{
  on_create-Provisions, on_update-spares, on_update-frame, on_delete-Removes, on_delete-leaves,
}
use odoo_operator.Main.Phase.{IsConclusion, on_create-concludes, on_update-concludes}
use odoo_operator.Main.Removal.{removed_keys, on_delete-removed, on_delete-total}
use odoo_operator.Main.Reconcile.{Status, reconcile_status}
use odoo_operator.Main.Reconcile.Rules.{reconcile_status-harmless}
use odoo_operator.Main.Reconcile.Phase.{IsTransition, reconcile_status-phase}

abbrev pub python : Python
python = record {
  dumps = λ v. "{}";
  digest = λ v. "0123456789abcdef";
  iterate = λ xs. xs;
  decode = λ t. ok t;
  int_error = λ t. "invalid literal for int() with base 10: '" <> (t <> "'");
}

abbrev pub stock : Addon
stock = record {
  name = "stock";
  repo = "https://example.org/stock.git";
  branch = none;
  path = some "stock";
  deploy_key_secret = none;
  install = none;
}

-- An addon, a database with the default backup, Valkey and Metabase.
abbrev pub spec : ClusterSpec
spec = record {
  odoo = some (record {
    version = none;
    image = none;
    replicas = some 2;
    storage = none;
    storage_class_name = none;
    resources = none;
    addons = some (stock ∷ []);
  });
  database = none;
  addons = some (record {
    valkey = some (record { enabled = some true; storage = none; resources = none });
    bi = some (record {
      enabled = some true;
      storage = none;
      storage_class_name = none;
      resources = none;
    });
  });
  networking = none;
}

abbrev pub shop : Cluster
shop = cluster_of spec "shop" "prod" (some "uid-1")

-- A cluster in which every object is there.
abbrev pub full : Memory
full k = present null

pub plain : IsPlain spec
unfolding days_number digit_in
plain = record {
  no_tunnel = refl;
  policy_days = record { negative = false; magnitude = 30 };
  policy_parses = refl;
}

abbrev pub initializing : Status
initializing = record {
  phase = some "Initializing";
  database_ready = some false;
  cloudflare_ready = none;
}
