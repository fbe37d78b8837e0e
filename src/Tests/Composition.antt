-- ===== src/Tests/Composition.antt =====
-- The theorems on the abstract cluster, on several handlers in a row and on what pods mount, at
-- concrete inputs, on a server in memory.
use odoo_operator.Base.{digit_in, ◌≡◌, refl, true, none, some, [], ◌∷◌, All}
use odoo_operator.Value.{str}
use odoo_operator.Server.{IsStored}
use odoo_operator.Server.Run.{run}
use odoo_operator.Server.Memory.{memory, empty}
use odoo_operator.Server.Memory.Laws.{memory-Accepts, memory-IsLawful, memory-IsHealthy}
use odoo_operator.Spec.{ClusterSpec}
use odoo_operator.Main.{on_create, on_update, on_delete}
use odoo_operator.Main.Creation.{odoo_args, metabase_args, job_args}
use odoo_operator.Main.Creation.Rules.{cluster_keys}
use odoo_operator.Main.Stored.{Succeeds-on_create}
use odoo_operator.Main.Removal.{removed_keys}
use odoo_operator.Tests.{python, spec, shop, full, plain}
use odoo_operator.Prog.{err, permanent_error}
use odoo_operator.Spec.{no_s3}
use odoo_operator.Base.{digit_in, is_space}
use odoo_operator.Server.Writes.{last_phase}
use odoo_operator.Server.View.{ensure, discard, stored_view, alive_view}
use odoo_operator.Main.Refinement.{
  on_create-ensure, on_update-ensure, on_delete-discard, on_delete-on_update_leftover,
  on_update-idempotent,
}
use odoo_operator.Main.Creation.Failure.{HasOtherUnit}
use odoo_operator.Main.Policy.{on_create-policy_error}
use odoo_operator.Main.Creation.References.{
  leftover_keys, pod_refs, tunnel_deployment, backup_cronjob,
}
use odoo_operator.Main.Mounted.{
  valkey_set_of, cluster_pods-IsMounted, on_create-pod_refs, filestore_paths,
}
use odoo_operator.Pod.{
  IsMounted, IsSetMounted, pod_of, paths, items_of, entry, volumes_of, claims_named,
}
use odoo_operator.Odoo.{odoo_pod}
use odoo_operator.DbInit.{job_pod}
use odoo_operator.Metabase.{metabase_deployment}
use odoo_operator.FilestoreBackup.Body.Volumes.{cron_pod_of}

on_create-ensure_example :
    stored_view memory (run memory (on_create python spec "shop" "prod" (some "uid-1")) empty).state
    ≡ ensure (cluster_keys shop) (stored_view memory empty)
on_create-ensure_example =
    on_create-ensure memory python spec "shop" "prod" (some "uid-1") empty memory-IsLawful
      ((Succeeds-on_create memory memory-IsLawful memory-IsHealthy python spec "shop" "prod"
          (some "uid-1") plain).at
        empty (memory-Accepts _ _)).1

on_update-ensure_example :
    stored_view memory (run memory (on_update python spec "shop" "prod" (some "uid-1")) empty).state
    ≡ ensure (cluster_keys shop) (stored_view memory empty)
on_update-ensure_example =
    on_update-ensure memory python spec "shop" "prod" (some "uid-1") empty memory-IsLawful
      memory-IsHealthy plain (memory-Accepts _ _)

on_update-idempotent_example :
    stored_view memory
      (run memory
        (on_update python spec "shop" "prod" (some "uid-1"))
        (run memory (on_update python spec "shop" "prod" (some "uid-1")) empty).state).state
    ≡ stored_view memory
        (run memory (on_update python spec "shop" "prod" (some "uid-1")) empty).state
on_update-idempotent_example =
    on_update-idempotent memory python spec "shop" "prod" (some "uid-1") empty memory-IsLawful
      memory-IsHealthy plain (memory-Accepts _ _) (memory-Accepts _ _)

on_delete-discard_example :
    alive_view memory (run memory (on_delete spec "shop" "prod") full).state
    ≡ discard (removed_keys spec "shop" "prod") (alive_view memory full)
on_delete-discard_example =
    on_delete-discard memory spec "shop" "prod" full memory-IsLawful memory-IsHealthy

on_delete-on_update_leftover_example :
    All
      (λ k. IsStored (
        memory.find
          (run memory
            (on_delete spec "shop" "prod")
            (run memory (on_update python spec "shop" "prod" (some "uid-1")) empty).state).state
          k))
      (leftover_keys shop)
on_delete-on_update_leftover_example =
    on_delete-on_update_leftover memory python spec "shop" "prod" (some "uid-1") empty
      memory-IsLawful memory-IsHealthy plain (memory-Accepts _ _)

cluster_pods-IsMounted_example :
    IsMounted (odoo_pod python (odoo_args shop))
    × IsMounted (job_pod python (job_args shop))
    × IsMounted (cron_pod_of (backup_cronjob shop "30"))
    × IsMounted (pod_of (metabase_deployment python (metabase_args shop)))
    × IsMounted (pod_of (tunnel_deployment shop))
    × IsSetMounted (valkey_set_of shop)
cluster_pods-IsMounted_example = cluster_pods-IsMounted python shop "30"

on_create-pod_refs_example :
    All
      (λ k. IsStored (
        memory.find
          (run memory (on_create python spec "shop" "prod" (some "uid-1")) empty).state
          k))
      (pod_refs python shop "30")
on_create-pod_refs_example =
    on_create-pod_refs memory python spec "shop" "prod" (some "uid-1") "30" empty memory-IsLawful
      ((Succeeds-on_create memory memory-IsLawful memory-IsHealthy python spec "shop" "prod"
          (some "uid-1") plain).at
        empty (memory-Accepts _ _)).1

filestore_paths_example :
    (claims_named "filestore" (volumes_of (odoo_pod python (odoo_args shop)))
      ≡ str "shop-odoo-filestore" ∷ [])
    × (claims_named "filestore" (volumes_of (cron_pod_of (backup_cronjob shop "30")))
        ≡ str "shop-odoo-filestore" ∷ [])
    × (paths "filestore" (items_of (entry "containers" (odoo_pod python (odoo_args shop))))
        ≡ str "/var/lib/odoo" ∷ [])
    × (paths "filestore" (items_of (entry "containers" (cron_pod_of (backup_cronjob shop "30"))))
        ≡ str "/var/lib/odoo/filestore" ∷ [])
filestore_paths_example = filestore_paths python shop "30"

-- A backup that is kept for four weeks.
abbrev weekly : ClusterSpec
weekly = record {
  odoo = none;
  database = some (record {
    storage = none;
    storage_class_name = none;
    instances = none;
    resources = none;
    backup = some (record {
      enabled = some true;
      schedule = none;
      filestore_schedule = none;
      retention_policy = some "4w";
      s3 = some (record no_s3 { bucket = some "backups" });
    });
    restore = none;
  });
  addons = none;
  networking = none;
}

four_weeks : HasOtherUnit weekly
unfolding is_space digit_in
four_weeks = record {
  amount = "4";
  unit = "w";
  is_unit = record { no_digit = refl; no_space = refl };
  not_days = refl;
  policy = refl;
}

on_create-policy_error_example :
    ((run memory (on_create python weekly "shop" "prod" none) empty).result
      ≡ err (permanent_error "invalid literal for int() with base 10: '4w'"))
    × (last_phase (run memory (on_create python weekly "shop" "prod" none) empty).writes
        ≡ some (str "Error"))
on_create-policy_error_example =
    on_create-policy_error memory python weekly "shop" "prod" none empty memory-IsLawful
      memory-IsHealthy refl refl four_weeks (memory-Accepts _ _)
