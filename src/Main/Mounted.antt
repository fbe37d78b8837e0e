-- ===== src/Main/Mounted.antt =====
-- The pods of a cluster: what they mount, and what their volumes refer to after a creation.
use odoo_operator.Base.{String, ◌<>◌, ◌≡◌, Option, some, get_or, [], ◌∷◌, All, All-imp, All_at, In}
use odoo_operator.Prog.{ok}
use odoo_operator.Server.{Server, IsLawful, IsStored}
use odoo_operator.Server.Run.{run}
use odoo_operator.Python.{Python}
use odoo_operator.Spec.{ClusterSpec}
use odoo_operator.Pod.{
  IsMounted, IsSetMounted, pod_of, paths, items_of, entry, volumes_of, claims_named,
}
use odoo_operator.Odoo.{odoo_pod}
use odoo_operator.Odoo.Pod.Volumes.{odoo_pod-IsMounted, odoo_pod-paths}
use odoo_operator.DbInit.{job_pod}
use odoo_operator.DbInit.Pod.Volumes.{job_pod-IsMounted}
use odoo_operator.Metabase.{metabase_deployment}
use odoo_operator.Metabase.Bodies.Volumes.{metabase_pod-IsMounted}
use odoo_operator.Cloudflare.Bodies.Volumes.{tunnel_pod-IsMounted}
use odoo_operator.FilestoreBackup.Body.Volumes.{cron_pod_of, cron_pod-IsMounted, cron_pod-paths}
use odoo_operator.Value.{Value, str}
use odoo_operator.Spec.Parts.{valkey_of}
use odoo_operator.Valkey.{valkey_set}
use odoo_operator.Valkey.Volumes.{valkey_set-IsSetMounted}
use odoo_operator.Main.Creation.{backup_args, Cluster, odoo_args, job_args, metabase_args}
use odoo_operator.Main.Creation.Rules.{cluster_keys}
use odoo_operator.Main.Creation.References.{
  tunnel_deployment, backup_cronjob, pod_refs, pod_refs-cluster_keys, odoo_filestore,
  backup_filestore,
}
use odoo_operator.Main.Stored.{cluster_of, on_create-IsStored}
use odoo_operator.Main.{on_create}

-- Valkey's stateful set, with the arguments of the step that creates it.
abbrev pub valkey_set_of : Cluster → Value
valkey_set_of c =
    let v = valkey_of c.spec in
    valkey_set c.namespace c.name (get_or v.storage "1Gi") v.resources (some c.owner)

-- In the pods of Odoo, of the initialization job, of the backup, of Metabase and of the tunnel every
-- volume that a container, a sidecar or an init container mounts is one of the pod's volumes,
-- whatever the spec asks for; what Valkey's container mounts is a volume of its pod or has a claim
-- template in the stateful set.
pub cluster_pods-IsMounted :
    (py : Python) (c : Cluster) (days : String)
    → IsMounted (odoo_pod py (odoo_args c))
      × IsMounted (job_pod py (job_args c))
      × IsMounted (cron_pod_of (backup_cronjob c days))
      × IsMounted (pod_of (metabase_deployment py (metabase_args c)))
      × IsMounted (pod_of (tunnel_deployment c))
      × IsSetMounted (valkey_set_of c)
cluster_pods-IsMounted py c days = (
  odoo_pod-IsMounted py (odoo_args c),
  job_pod-IsMounted py (job_args c),
  cron_pod-IsMounted (backup_args c days),
  metabase_pod-IsMounted py (metabase_args c),
  tunnel_pod-IsMounted _ _ _ _ _,
  valkey_set-IsSetMounted _ _ _ _ _,
)

-- On a lawful server, after a creation that returned, every claim and config map is stored that a
-- volume refers to in the pods of Odoo, of the initialization job, of the backup and, where the spec
-- asks for them, of Metabase and of the tunnel.
pub on_create-pod_refs :
    (S : Server) (py : Python) (spec : ClusterSpec) (name namespace : String) (uid : Option String)
    (days : String) (s : S.State)
    → IsLawful S
    → (run S (on_create py spec name namespace uid) s).result ≡ ok tt
    → All
        (λ k. IsStored (S.find (run S (on_create py spec name namespace uid) s).state k))
        (pod_refs py (cluster_of spec name namespace uid) days)
on_create-pod_refs S py spec name namespace uid days s L h =
    let c = cluster_of spec name namespace uid in
    let t = (run S (on_create py spec name namespace uid) s).state in
    All-imp (λ k. In k (cluster_keys c)) (λ k. IsStored (S.find t k)) (pod_refs py c days)
      (All_at (λ k. IsStored (S.find t k)) (cluster_keys c)
        (on_create-IsStored S py spec name namespace uid s L h))
      (pod_refs-cluster_keys py c days)

-- The Odoo pod and the backup's pod each have one volume named `filestore`, which is the claim of the
-- cluster's filestore. Containers of the Odoo pod mount it at Odoo's data directory `/var/lib/odoo`
-- alone, those of the backup's pod at the directory `filestore` below it alone.
pub filestore_paths :
    (py : Python) (c : Cluster) (days : String)
    → (claims_named "filestore" (volumes_of (odoo_pod py (odoo_args c)))
        ≡ str (c.name <> "-odoo-filestore") ∷ [])
      × (claims_named "filestore" (volumes_of (cron_pod_of (backup_cronjob c days)))
          ≡ str (c.name <> "-odoo-filestore") ∷ [])
      × (paths "filestore" (items_of (entry "containers" (odoo_pod py (odoo_args c))))
          ≡ str "/var/lib/odoo" ∷ [])
      × (paths "filestore" (items_of (entry "containers" (cron_pod_of (backup_cronjob c days))))
          ≡ str "/var/lib/odoo/filestore" ∷ [])
filestore_paths py c days = (
  odoo_filestore py c,
  backup_filestore c days,
  odoo_pod-paths py (odoo_args c),
  cron_pod-paths (backup_args c days),
)
