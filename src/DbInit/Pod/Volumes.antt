-- ===== src/DbInit/Pod/Volumes.antt =====
-- The volumes of the initialization job's pod: what its containers mount, and what they refer to.

use odoo_operator.Base.{
  String, ◌<>◌, ◌≡◌, refl, ap, Option, List, [], ◌∷◌, All, In, ◌⊎◌, inl, inr, Bool-cases,
  if◌then◌else◌, nonempty,
}
use mathlib.Core.List.{append-nil}
use odoo_operator.Value.{Value, str, items}
use odoo_operator.Prog.{Key, pvc}
use odoo_operator.Dynamic.{get_in}
use odoo_operator.Python.{Python}
use odoo_operator.Spec.{Addon, Restore, deploy_secrets}
use odoo_operator.Owner.{key}
use odoo_operator.Pod.{entry, names, mounts, refs, IsMounted, items_of, volumes_of}
use odoo_operator.Pod.Rules.{key_mounts-names, All-self, refs-secrets}
use odoo_operator.DbInit.Pod.{
  key_mount, key_volume, restores_filestore, volume_mounts, volumes, init_containers, pod_spec,
  env_vars,
}
use odoo_operator.DbInit.{JobArgs, addons_key, job_script, job_pod}

same_name : (k : String) → entry "name" (key_mount k) ≡ entry "name" (key_volume k)
unfolding entry key_mount key_volume get_in
same_name k = refl

secret_volume :
    (namespace k : String) (ws : List Value)
    → refs namespace (items (key_volume k ∷ ws)) ≡ refs namespace (items ws)
unfolding refs entry key_volume get_in
secret_volume namespace k ws = refl

-- A pod whose empty lists are left out, by its parts.
module _ (image script : String) (env mount_list volume_list : List Value) where
  volumes_of-pod_spec :
      (inits : List Value)
      → volumes_of (pod_spec image script env mount_list volume_list inits) ≡ items volume_list
  unfolding entry get_in pod_spec
  volumes_of-pod_spec inits = go volume_list inits
    where
      go :
          (vs inits : List Value)
          → volumes_of (pod_spec image script env mount_list vs inits) ≡ items vs
      go [] [] = refl
      go [] (c ∷ cs) = refl
      go (v ∷ vs) [] = refl
      go (v ∷ vs) (c ∷ cs) = refl

  init_mounts_of :
      (inits : List Value)
      → mounts (
          items_of
            (entry "initContainers" (pod_spec image script env mount_list volume_list inits)))
        ≡ mounts (items inits)
  unfolding mounts entry get_in pod_spec
  init_mounts_of inits = go volume_list inits
    where
      go :
          (vs inits : List Value)
          → mounts
              (items_of (entry "initContainers" (pod_spec image script env mount_list vs inits)))
            ≡ mounts (items inits)
      go [] [] = refl
      go [] (c ∷ cs) = refl
      go (v ∷ vs) [] = refl
      go (v ∷ vs) (c ∷ cs) = refl

  main_mounts_of :
      (inits : List Value)
      → mounts
          (items_of (entry "containers" (pod_spec image script env mount_list volume_list inits)))
        ≡ names (items mount_list)
  unfolding mounts entry get_in pod_spec names
  main_mounts_of inits = go mount_list inits
    where
      go :
          (ms inits : List Value)
          → mounts (items_of (entry "containers" (pod_spec image script env ms volume_list inits)))
            ≡ names (items ms)
      go [] [] = refl
      go [] (c ∷ cs) = refl
      go (m ∷ ms) [] = append-nil _
      go (m ∷ ms) (c ∷ cs) = append-nil _

-- What is mounted has the names of the volumes, in their order.
names-volume_mounts :
    (py : Python) (name : String) (addons : List Addon) (restore : Option Restore)
    → names (items (volume_mounts py addons restore))
      ≡ names (items (volumes py name addons restore))
unfolding names entry get_in volume_mounts volumes
names-volume_mounts py name [] restore = elim (Bool-cases (restores_filestore restore)) [
  | inl e ↦ rw e refl
  | inr e ↦ rw e refl
]
names-volume_mounts py name (a ∷ addons) restore =
    let ks = py.iterate (deploy_secrets (a ∷ addons)) in
    elim (Bool-cases (restores_filestore restore)) [
      | inl e ↦ rw e (
          ap (λ ns. str "addons" ∷ ns)
            (key_mounts-names key_mount key_volume same_name ks _ _ refl))
      | inr e ↦ rw e (
          ap (λ ns. str "addons" ∷ ns)
            (key_mounts-names key_mount key_volume same_name ks _ _ refl))
    ]

-- The claim of the filestore, which the Odoo handler stores.
abbrev pub filestore_ref : JobArgs → Key
filestore_ref a = key pvc a.namespace (a.name <> "-odoo-filestore")

module _ (py : Python) (a : JobArgs) where
  abbrev mount_list : List Value
  mount_list = volume_mounts py a.addons a.restore

  abbrev volume_list : List Value
  volume_list = volumes py a.name a.addons a.restore

  All-mounted : All (λ n. In n (names (items volume_list))) (names (items mount_list))
  All-mounted =
      rw (names-volume_mounts py a.name a.addons a.restore) (All-self (names (items volume_list)))

  init_mounted :
      (addons : List Addon)
      → All
          (λ n. In n (names (items volume_list)))
          (mounts (items (init_containers addons mount_list)))
  unfolding mounts entry get_in init_containers
  init_mounted [] = tt
  init_mounted (x ∷ addons) = rw (append-nil (names (items mount_list))) All-mounted

  abbrev env : List Value
  env = env_vars a.db_secret a.admin_secret_name a.restore

  abbrev inits : List Value
  inits = init_containers a.addons mount_list

  -- Every volume that the job's container and its init container mount is one of the volumes of the
  -- job's pod, whatever the spec asks for.
  pub job_pod-IsMounted : IsMounted (job_pod py a)
  unfolding job_pod
  job_pod-IsMounted =
      let v = volumes_of-pod_spec a.odoo_image (job_script a) env mount_list volume_list inits in
      record {
        init = rw v (
            rw (init_mounts_of a.odoo_image (job_script a) env mount_list volume_list inits)
              (init_mounted a.addons));
        main = rw v (
            rw (main_mounts_of a.odoo_image (job_script a) env mount_list volume_list inits)
              All-mounted);
      }

  refs-volumes :
      (addons : List Addon)
      → All
          (λ k.
            In k (if nonempty addons then addons_key a.namespace a.name ∷ [] else [])
            ⊎ (k ≡ filestore_ref a))
          (refs a.namespace (items (volumes py a.name addons a.restore)))
  unfolding refs entry get_in volumes
  refs-volumes [] = elim (Bool-cases (restores_filestore a.restore)) [
    | inl e ↦ rw e (inr refl, tt)
    | inr e ↦ rw e tt
  ]
  refs-volumes (x ∷ addons) =
      let ks = py.iterate (deploy_secrets (x ∷ addons)) in
      elim (Bool-cases (restores_filestore a.restore)) [
        | inl e ↦ rw e (
            rw (refs-secrets a.namespace key_volume (secret_volume a.namespace) ks _)
              (inl (inl refl), (inr refl, tt)))
        | inr e ↦ rw e (
            rw (refs-secrets a.namespace key_volume (secret_volume a.namespace) ks [])
              (inl (inl refl), tt))
      ]

  -- The claims that the volumes of the job's pod refer to are the claim of the addons, with addons,
  -- and that of the filestore.
  pub job_pod-refs :
      All
        (λ k.
          In k (if nonempty a.addons then addons_key a.namespace a.name ∷ [] else [])
          ⊎ (k ≡ filestore_ref a))
        (refs a.namespace (volumes_of (job_pod py a)))
  unfolding job_pod
  job_pod-refs =
      rw (volumes_of-pod_spec a.odoo_image (job_script a) env mount_list volume_list inits)
        (refs-volumes a.addons)
