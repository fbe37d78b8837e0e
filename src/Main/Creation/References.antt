-- ===== src/Main/Creation/References.antt =====
-- What the volumes of the cluster's pods refer to is among the objects of the cluster.
use odoo_operator.Base.{
  String, ◌<>◌, ◌≡◌, refl, sym, subst, Bool, true, false, List, [], ◌∷◌, ◌++◌, All, All-append,
  All-imp, In, In-append_left, In-append_right, ◌⊎◌, inl, inr, if◌then◌else◌, nonempty,
}
use odoo_operator.Value.{Value, str}
use odoo_operator.Prog.{Key, pvc, secret}
use odoo_operator.Owner.{key}
use odoo_operator.Cloudflare.Bodies.{deployment_body}
use odoo_operator.Cloudflare.Bodies.Volumes.{tunnel_pod-refs}
use odoo_operator.Cloudflare.Rules.{tunnel_keys}
use odoo_operator.FilestoreBackup.{cron_key}
use odoo_operator.Scope.{is_left}
use odoo_operator.FilestoreBackup.Body.{cronjob_body}
use odoo_operator.FilestoreBackup.Body.Volumes.{cron_pod-filestore, cron_pod_of, cron_pod-refs}
use odoo_operator.Python.{Python}
use odoo_operator.Spec.Parts.{backup_of, valkey_of, bi_of, cloudflare_of, is_enabled, if_enabled}
use odoo_operator.Pod.{claims_named, refs, volumes_of, pod_of}
use odoo_operator.Database.Rules.{database_keys}
use odoo_operator.Valkey.Rules.{valkey_keys}
use odoo_operator.Metabase.{metabase_deployment}
use odoo_operator.Metabase.Rules.{metabase_keys}
use odoo_operator.Metabase.Bodies.Volumes.{metabase_pod-refs}
use odoo_operator.DbInit.{addons_key, job_pod}
use odoo_operator.DbInit.Rules.{job_keys}
use odoo_operator.DbInit.Pod.Volumes.{filestore_ref, job_pod-refs}
use odoo_operator.Odoo.Pod.Filestore.{odoo_pod-filestore}
use odoo_operator.Odoo.{odoo_pod}
use odoo_operator.Odoo.Rules.{odoo_keys}
use odoo_operator.Odoo.Pod.References.{odoo_pod-refs}
use odoo_operator.Main.Creation.{
  Cluster, metabase_args, job_args, odoo_args, tunnel_args, backup_args, wants_backup,
}
use odoo_operator.Main.Creation.Rules.{cluster_keys}

module _ (c : Cluster) where
  abbrev database_part : List Key
  database_part =
      database_keys c.namespace c.name (if_enabled (backup_of c.spec).enabled (backup_of c.spec))

  abbrev valkey_part : List Key
  valkey_part = if is_enabled (valkey_of c.spec).enabled then valkey_keys c.namespace c.name else []

  abbrev metabase_part : List Key
  metabase_part = if is_enabled (bi_of c.spec).enabled then metabase_keys (metabase_args c) else []

  In-metabase :
      (k : Key)
      → is_enabled (bi_of c.spec).enabled ≡ true
      → In k (metabase_keys (metabase_args c))
      → In k (cluster_keys c)
  unfolding cluster_keys
  In-metabase k e i = In-append_right k database_part _ (
      In-append_right k valkey_part _ (
        In-append_left k metabase_part _
          (subst (λ b. In k (if b then metabase_keys (metabase_args c) else [])) (sym e) i)))

  In-job : (k : Key) → In k (job_keys (job_args c)) → In k (cluster_keys c)
  unfolding cluster_keys
  In-job k i = In-append_right k database_part _ (
      In-append_right k valkey_part _
        (In-append_right k metabase_part _ (In-append_left k (job_keys (job_args c)) _ i)))

  In-odoo : (k : Key) → In k (odoo_keys (odoo_args c)) → In k (cluster_keys c)
  unfolding cluster_keys
  In-odoo k i = In-append_right k database_part _ (
      In-append_right k valkey_part _ (
        In-append_right k metabase_part _ (
          In-append_right k (job_keys (job_args c)) _
            (In-append_left k (odoo_keys (odoo_args c)) _ i))))

  -- The claim of the addons, where the job has one, and that of the filestore.
  job_ref :
      (k : Key)
      → In k (
          if nonempty (job_args c).addons
          then addons_key (job_args c).namespace (job_args c).name ∷ []
          else [])
        ⊎ (k ≡ filestore_ref (job_args c))
      → In k (cluster_keys c)
  unfolding job_args odoo_args
  job_ref k (inl i) = In-job k (inr (In-append_left k _ _ i))
  job_ref k (inr e) = In-odoo k (inr (inl e))

  abbrev tunnel_part : List Key
  tunnel_part =
      if is_enabled (cloudflare_of c.spec).enabled then tunnel_keys c.namespace c.name else []

  In-tunnel :
      (k : Key)
      → is_enabled (cloudflare_of c.spec).enabled ≡ true
      → In k (tunnel_keys c.namespace c.name)
      → In k (cluster_keys c)
  unfolding cluster_keys
  In-tunnel k e i = In-append_right k database_part _ (
      In-append_right k valkey_part _ (
        In-append_right k metabase_part _ (
          In-append_right k (job_keys (job_args c)) _ (
            In-append_right k (odoo_keys (odoo_args c)) _ (
              In-append_left k tunnel_part _ (
                subst (λ b. In k (if b then tunnel_keys c.namespace c.name else [])) (sym e) i))))))

  backup_part :
      (k : Key)
      → wants_backup c.spec ≡ true
      → k ≡ cron_key c.namespace c.name
      → In k (cluster_keys c)
  unfolding cluster_keys
  backup_part k e q = In-append_right k database_part _ (
      In-append_right k valkey_part _ (
        In-append_right k metabase_part _ (
          In-append_right k (job_keys (job_args c)) _ (
            In-append_right k (odoo_keys (odoo_args c)) _ (
              In-append_right k tunnel_part _ (
                subst (λ b. In k (if b then cron_key c.namespace c.name ∷ [] else [])) (sym e)
                  (inl q)))))))

-- The objects of the cluster that `on_delete` does not name: the secrets of the administrators and
-- the CronJob of the backup.
abbrev pub leftover_keys : Cluster → List Key
leftover_keys c =
    key secret c.namespace (c.name <> "-odoo-admin")
    ∷ ((if is_enabled (bi_of c.spec).enabled
          then key secret c.namespace (c.name <> "-metabase-admin") ∷ []
          else [])
        ++ (if wants_backup c.spec then cron_key c.namespace c.name ∷ [] else []))

abbrev IsLeftover : Cluster → Key → Type 0
IsLeftover c k = In k (cluster_keys c) × (is_left k.kind ≡ true)

metabase-IsLeftover :
    (c : Cluster) (b : Bool)
    → is_enabled (bi_of c.spec).enabled ≡ b
    → All
        (IsLeftover c)
        (if b then key secret c.namespace (c.name <> "-metabase-admin") ∷ [] else [])
unfolding metabase_args
metabase-IsLeftover c true e = ((In-metabase c _ e (inr (inr (inl refl))), refl), tt)
metabase-IsLeftover c false e = tt

backup-IsLeftover :
    (c : Cluster) (b : Bool)
    → wants_backup c.spec ≡ b
    → All (IsLeftover c) (if b then cron_key c.namespace c.name ∷ [] else [])
backup-IsLeftover c true e = ((backup_part c _ e refl, refl), tt)
backup-IsLeftover c false e = tt

pub leftover_keys-All :
    (c : Cluster) → All (λ k. In k (cluster_keys c) × (is_left k.kind ≡ true)) (leftover_keys c)
unfolding odoo_args
leftover_keys-All c = (
  (In-odoo c _ (inr (inr (inl refl))), refl),
  All-append (IsLeftover c) _ _ (metabase-IsLeftover c (is_enabled (bi_of c.spec).enabled) refl)
      (backup-IsLeftover c (wants_backup c.spec) refl),
)

-- The deployment of the cluster's tunnel, and the CronJob of its backup.
abbrev pub tunnel_deployment : Cluster → Value
tunnel_deployment c =
    let t = tunnel_args c in
    deployment_body t.namespace t.name t.tunnel_secret_name t.replicas t.owner_ref

abbrev pub backup_cronjob : Cluster → String → Value
backup_cronjob c days = cronjob_body (backup_args c days)

-- The claims and config maps that the volumes of the cluster's pods refer to: of the Odoo pod, of
-- the initialization job's and the backup's, and of Metabase's and the tunnel's where the spec asks
-- for them.
abbrev pub pod_refs : Python → Cluster → String → List Key
pod_refs py c days =
    refs c.namespace (volumes_of (odoo_pod py (odoo_args c)))
    ++ (refs c.namespace (volumes_of (job_pod py (job_args c)))
        ++ (refs c.namespace (volumes_of (cron_pod_of (backup_cronjob c days)))
            ++ ((if is_enabled (bi_of c.spec).enabled
                  then refs c.namespace
                      (volumes_of (pod_of (metabase_deployment py (metabase_args c))))
                  else [])
                ++ (if is_enabled (cloudflare_of c.spec).enabled
                    then refs c.namespace (volumes_of (pod_of (tunnel_deployment c)))
                    else []))))

metabase_refs :
    (py : Python) (c : Cluster) (b : Bool)
    → is_enabled (bi_of c.spec).enabled ≡ b
    → All
        (λ k. In k (cluster_keys c))
        (if b
          then refs c.namespace (volumes_of (pod_of (metabase_deployment py (metabase_args c))))
          else [])
unfolding metabase_args
metabase_refs py c true e =
    All-imp (λ k. In k (metabase_keys (metabase_args c))) (λ k. In k (cluster_keys c)) _
      (λ k. In-metabase c k e) (metabase_pod-refs py (metabase_args c))
metabase_refs py c false e = tt

tunnel_refs :
    (c : Cluster) (b : Bool)
    → is_enabled (cloudflare_of c.spec).enabled ≡ b
    → All
        (λ k. In k (cluster_keys c))
        (if b then refs c.namespace (volumes_of (pod_of (tunnel_deployment c))) else [])
unfolding tunnel_args
tunnel_refs c true e =
    All-imp (λ k. In k (tunnel_keys c.namespace c.name)) (λ k. In k (cluster_keys c)) _
      (λ k. In-tunnel c k e) (tunnel_pod-refs c.namespace c.name _ _ _)
tunnel_refs c false e = tt

backup_refs-filestore :
    (c : Cluster) (days : String)
    → refs c.namespace (volumes_of (cron_pod_of (backup_cronjob c days)))
      ≡ key pvc c.namespace (c.name <> "-odoo-filestore") ∷ []
unfolding backup_args
backup_refs-filestore c days = cron_pod-refs (backup_args c days)

-- The volume named `filestore` is the claim of the cluster's filestore in both pods.
pub odoo_filestore :
    (py : Python) (c : Cluster)
    → claims_named "filestore" (volumes_of (odoo_pod py (odoo_args c)))
      ≡ str (c.name <> "-odoo-filestore") ∷ []
unfolding odoo_args
odoo_filestore py c = odoo_pod-filestore py (odoo_args c)

pub backup_filestore :
    (c : Cluster) (days : String)
    → claims_named "filestore" (volumes_of (cron_pod_of (backup_cronjob c days)))
      ≡ str (c.name <> "-odoo-filestore") ∷ []
unfolding backup_args
backup_filestore c days = cron_pod-filestore (backup_args c days)

backup_refs :
    (c : Cluster) (days : String)
    → All
        (λ k. In k (cluster_keys c))
        (refs c.namespace (volumes_of (cron_pod_of (backup_cronjob c days))))
unfolding odoo_args
backup_refs c days =
    rw (backup_refs-filestore c days)
      (In-odoo c (key pvc c.namespace (c.name <> "-odoo-filestore")) (inr (inl refl)), tt)

-- The claims and config maps that the volumes of the cluster's pods refer to are among the objects of
-- the cluster, whatever the spec asks for.
pub pod_refs-cluster_keys :
    (py : Python) (c : Cluster) (days : String)
    → All (λ k. In k (cluster_keys c)) (pod_refs py c days)
unfolding odoo_args job_args
pod_refs-cluster_keys py c days =
    let P = λ (k : Key). In k (cluster_keys c) in
    All-append P _ _
      (All-imp (λ k. In k (odoo_keys (odoo_args c))) P _ (λ k. In-odoo c k)
        (odoo_pod-refs py (odoo_args c)))
      (All-append P _ _ (All-imp _ P _ (λ k. job_ref c k) (job_pod-refs py (job_args c))) (
        All-append P _ _ (backup_refs c days) (
          All-append P _ _ (metabase_refs py c (is_enabled (bi_of c.spec).enabled) refl)
            (tunnel_refs c (is_enabled (cloudflare_of c.spec).enabled) refl))))
