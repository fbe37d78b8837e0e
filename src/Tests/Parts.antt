-- ===== src/Tests/Parts.antt =====
-- The theorems on the parts of a cluster at concrete inputs, on a server in memory.
use odoo_operator.Base.{String, ◌≡◌, refl, false, none, some, List, [], ◌∷◌, All, In}
use odoo_operator.Base.{strip, lstrip_by, rstrip_by, is_space}
use odoo_operator.Value.{null, str, obj, model, end, field}
use odoo_operator.Prog.{pvc, ok, request, as_text, ◌>>=◌}
use odoo_operator.Prog.Only.{Only}
use odoo_operator.Server.{present, IsStored}
use odoo_operator.Server.Run.{run}
use odoo_operator.Server.Memory.{Memory, memory, empty}
use odoo_operator.Server.Memory.Laws.{
  memory-Accepts, memory-IsLawful, memory-IsHealthy, memory-IsRandom,
}
use odoo_operator.Dynamic.{get_in, get_attr, get_value, lift}
use odoo_operator.Owner.{key}
use odoo_operator.Password.{generate_password, choose_char}
use odoo_operator.Password.Rules.{IsPassword, generate_password_chars}
use odoo_operator.Odoo.{create_odoo}
use odoo_operator.Odoo.Rules.{odoo_keys, create_odoo-total}
use odoo_operator.Metabase.{create_metabase}
use odoo_operator.Metabase.Rules.{metabase_keys, create_metabase-total}
use odoo_operator.DbInit.{create_db_init_job}
use odoo_operator.DbInit.Rules.{job_keys, create_db_init_job-total}
use odoo_operator.Cloudflare.{TunnelArgs, read_tunnel_id, create_cloudflare_tunnel}
use odoo_operator.Cloudflare.Rules.{tunnel_keys, create_cloudflare_tunnel-total}
use odoo_operator.ModuleSync.{missing_from, PodResult, at_start}
use odoo_operator.Value.{model, field, end}
use odoo_operator.Main.Creation.{retention_days, odoo_args, metabase_args, job_args}
use odoo_operator.Tests.{python, stock, shop, full}
use odoo_operator.Base.{◌<>◌, decimal, ◌↔◌, Bool, Option}
use odoo_operator.Prog.{ret}
use odoo_operator.Cluster.{get_cluster_status}
use odoo_operator.Cluster.Rules.{ReadsIn, get_cluster_status-ReadsIn}
use odoo_operator.Main.Creation.Retention.{retention_days-decimal, ds}
use odoo_operator.ModuleSync.Missing.{missing_from_iff}
use odoo_operator.ModuleSync.Exec.{get_addon_git_sha, update_addon_on_pod}
use odoo_operator.ModuleSync.Exec.{check_installed_modules}
use odoo_operator.ModuleSync.{Target, sync_pod}
use odoo_operator.ModuleSync.Reports.{IsReport, extended, sync_pod-IsReport}
use odoo_operator.ModuleSync.Exec.Rules.{git_commands-harmless}

create_odoo-total_example :
    ((run memory (create_odoo python (odoo_args shop)) empty).result ≡ ok tt)
    × All
        (λ k.
          IsStored (memory.find (run memory (create_odoo python (odoo_args shop)) empty).state k))
        (odoo_keys (odoo_args shop))
create_odoo-total_example =
    create_odoo-total memory python (odoo_args shop) empty memory-IsLawful memory-IsHealthy
      (memory-Accepts _ _)

create_metabase-total_example :
    ((run memory (create_metabase python (metabase_args shop)) empty).result ≡ ok tt)
    × All
        (λ k.
          IsStored
            (memory.find (run memory (create_metabase python (metabase_args shop)) empty).state k))
        (metabase_keys (metabase_args shop))
create_metabase-total_example =
    create_metabase-total memory python (metabase_args shop) empty memory-IsLawful memory-IsHealthy
      (memory-Accepts _ _)

create_db_init_job-total_example :
    (job_name : String) × ((run memory (create_db_init_job python (job_args shop)) empty).result
      ≡ ok job_name)
    × All
        (λ k.
          IsStored
            (memory.find (run memory (create_db_init_job python (job_args shop)) empty).state k))
        (job_keys (job_args shop))
create_db_init_job-total_example =
    create_db_init_job-total memory python (job_args shop) empty memory-IsLawful memory-IsHealthy
      (memory-Accepts _ _)

abbrev tunnel : TunnelArgs
tunnel = record {
  namespace = "prod";
  name = "shop";
  tunnel_secret_name = "cloudflare-tunnel";
  odoo_hostname = some "shop.example.org";
  metabase_hostname = none;
  metabase_enabled = false;
  replicas = 1;
  owner_ref = none;
}

-- Every object that is there has a tunnel's id in its data.
abbrev with_id : Memory
with_id k =
    present (model "V1Secret" (field "data" (obj (field "TUNNEL_ID" (str "tunnel-1") end)) end))

id_read :
    (run memory (read_tunnel_id python "prod" "cloudflare-tunnel") with_id).result ≡ ok "tunnel-1"
unfolding read_tunnel_id strip lstrip_by rstrip_by is_space request as_text get_attr get_value
    get_in lift ◌>>=◌ run
id_read = refl

create_cloudflare_tunnel-total_example :
    ((run memory (create_cloudflare_tunnel python tunnel) with_id).result ≡ ok tt)
    × All
        (λ k.
          IsStored
            (memory.find (run memory (create_cloudflare_tunnel python tunnel) with_id).state k))
        (tunnel_keys "prod" "shop")
create_cloudflare_tunnel-total_example =
    create_cloudflare_tunnel-total memory python tunnel with_id "tunnel-1" memory-IsLawful
      memory-IsHealthy (memory-Accepts _ _) id_read

two_chosen : (run memory (generate_password 2) empty).result ≡ ok "aa"
unfolding generate_password choose_char request as_text ◌>>=◌ run
two_chosen = refl

generate_password_chars_example : IsPassword 2 "aa"
generate_password_chars_example = generate_password_chars memory memory-IsRandom 2 empty two_chosen

missing_from_iff_example :
    In {A = String} "stock" (missing_from ("sale" ∷ []) ("sale" ∷ "stock" ∷ []))
    ↔ (In {A = String} "stock" ("sale" ∷ "stock" ∷ []) × (¬ In {A = String} "stock" ("sale" ∷ [])))
missing_from_iff_example = missing_from_iff "stock" ("sale" ∷ []) ("sale" ∷ "stock" ∷ [])

retention_days-decimal_example : retention_days python (decimal 30 <> ds 1) ≡ ret (decimal 30)
retention_days-decimal_example = retention_days-decimal python 30 1

get_cluster_status-ReadsIn_example : Only (ReadsIn "odoo-shop") (get_cluster_status "prod" "shop")
get_cluster_status-ReadsIn_example = get_cluster_status-ReadsIn "prod" "shop"

git_commands-harmless_example :
    ((sha : Option String) × ((run memory
          (get_addon_git_sha "prod" "shop-odoo-1" "stock")
          full).result
        ≡ ok sha))
    × ((run memory (get_addon_git_sha "prod" "shop-odoo-1" "stock") full).state
          (key pvc "prod" "shop-odoo-addons")
        ≡ present null)
    × ((updated : Bool) × ((run memory (update_addon_on_pod "prod" "shop-odoo-1" stock) full).result
          ≡ ok updated))
    × ((run memory (update_addon_on_pod "prod" "shop-odoo-1" stock) full).state
          (key pvc "prod" "shop-odoo-addons")
        ≡ present null)
git_commands-harmless_example =
    git_commands-harmless memory "prod" "shop-odoo-1" stock full (key pvc "prod" "shop-odoo-addons")
      memory-IsLawful

abbrev target : Target
target = record { namespace = "prod"; db_host = "shop-db-rw"; db_password = "secret" }

sync_pod-IsReport_example :
    (installed : List String) × ((run memory
        (check_installed_modules "prod" "shop-odoo-1" "shop-db-rw" "secret")
        full).result
      ≡ ok installed)
    × (r : PodResult) × ((run memory
          (sync_pod target ("stock" ∷ []) at_start "shop-odoo-1")
          full).result
        ≡ ok (extended at_start r))
    × IsReport "shop-odoo-1" (missing_from installed ("stock" ∷ [])) r
sync_pod-IsReport_example =
    sync_pod-IsReport memory target ("stock" ∷ []) at_start "shop-odoo-1" full
