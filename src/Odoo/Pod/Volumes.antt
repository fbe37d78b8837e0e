-- ===== src/Odoo/Pod/Volumes.antt =====
-- The volumes of the Odoo pod: what its containers mount, and what they refer to.
use odoo_operator.Base.{
  String, ◌<>◌, ◌≡◌, refl, Option, none, some, List, [], ◌∷◌, ◌++◌, map, All, All-imp, All-append,
  In, inl, inr,
}
use mathlib.Core.List.{append-nil}
use odoo_operator.Value.{Value, str, items}
use odoo_operator.Dynamic.{get_in}
use odoo_operator.Python.{Python}
use odoo_operator.Spec.{Addon, Tailnet, deploy_secrets}
use odoo_operator.Tailscale.{get_tailscale_volumes, get_tailscale_sidecar}
use odoo_operator.Pod.{entry, names, mounts, IsMounted, items_of, paths, paths_in}
use odoo_operator.Pod.Rules.{In-names_later, key_mounts-covered}
use odoo_operator.Odoo.Pod.{
  key_mount, key_volume, init_mounts, init_containers, odoo_container, sidecars, volumes, pod_spec,
  addon_volumes, tailscale_volumes, odoo_volume_mounts,
}
use odoo_operator.Odoo.{OdooArgs, odoo_pod}

same_name : (k : String) → entry "name" (key_mount k) ≡ entry "name" (key_volume k)
unfolding entry key_mount key_volume get_in
same_name k = refl

module _ (py : Python) (name : String) (t : Option Tailnet) where
  -- The init container, which is there only with addons.
  init-IsMounted :
      (addons : List Addon)
      → All
          (λ n. In n (names (items (volumes py name addons t))))
          (mounts (items (init_containers py addons)))
  unfolding names mounts entry get_in volumes init_containers init_mounts addon_volumes
  init-IsMounted [] = tt
  init-IsMounted (a ∷ addons) =
      let ks = py.iterate (deploy_secrets (a ∷ addons)) in
      rw (append-nil (names (items (map key_mount ks)))) (
        inr (inr (inl refl)),
        (
          inr (inl refl),
          All-imp (λ n. In n (names (items (map key_volume ks ++ tailscale_volumes name t))))
              (λ n. In n (names (items (volumes py name (a ∷ addons) t))))
              (names (items (map key_mount ks))) (λ n i. inr (inr (inr i)))
              (key_mounts-covered key_mount key_volume same_name ks (tailscale_volumes name t)),
        ),
      )

  odoo-IsMounted :
      (addons : List Addon)
      → All
          (λ n. In n (names (items (volumes py name addons t))))
          (names (items (odoo_volume_mounts addons)))
  unfolding names entry get_in volumes odoo_volume_mounts addon_volumes
  odoo-IsMounted [] = (inl refl, (inr (inl refl), tt))
  odoo-IsMounted (a ∷ addons) = (inl refl, (inr (inl refl), (inr (inr (inl refl)), tt)))

sidecar-IsMounted :
    (py : Python) (name auth_secret : String) (addons : List Addon) (t : Option Tailnet)
    → All
        (λ n. In n (names (items (volumes py name addons t))))
        (mounts (items (sidecars auth_secret t)))
unfolding names mounts entry get_in volumes sidecars tailscale_volumes get_tailscale_volumes
    get_tailscale_sidecar addon_volumes
sidecar-IsMounted py name auth_secret addons none = tt
sidecar-IsMounted py name auth_secret [] (some t) =
    (inr (inr (inl refl)), (inr (inr (inr (inl refl))), tt))
sidecar-IsMounted py name auth_secret (a ∷ addons) (some t) =
    let ks = map key_volume (py.iterate (deploy_secrets (a ∷ addons))) in
    let ts = get_tailscale_volumes (name <> "-odoo") in
    (
      inr (inr (inr (In-names_later (str "tailscale-state") ks ts (inl refl)))),
      (inr (inr (inr (In-names_later (str "tailscale-config") ks ts (inr (inl refl))))), tt),
    )

-- The init containers of the pod, where the key is left out for an empty list.
init_mounts_of :
    (resource_name : String) (containers volume_list init_list : List Value)
    → mounts (
        items_of (entry "initContainers" (pod_spec resource_name containers volume_list init_list)))
      ≡ mounts (items init_list)
unfolding mounts entry get_in pod_spec
init_mounts_of resource_name containers volume_list [] = refl
init_mounts_of resource_name containers volume_list (c ∷ cs) = refl

-- Every volume that the Odoo container, the Tailscale sidecar and the init container mount is one of
-- the volumes of the Odoo pod, whatever the spec asks for.
pub odoo_pod-IsMounted : (py : Python) (a : OdooArgs) → IsMounted (odoo_pod py a)
unfolding mounts entry get_in pod_spec odoo_container names
odoo_pod-IsMounted py a = record {
  init =
      rw
        (init_mounts_of (a.name <> "-odoo") _ (volumes py a.name a.addons a.tailscale)
          (init_containers py a.addons))
        (init-IsMounted py a.name a.tailscale a.addons);
  main =
      All-append _ (names (items (odoo_volume_mounts a.addons))) _
        (odoo-IsMounted py a.name a.tailscale a.addons)
        (sidecar-IsMounted py a.name a.tailscale_auth_secret a.addons a.tailscale);
}

-- Where the claim of the filestore is mounted: at Odoo's data directory, and nowhere else.
pub odoo_pod-paths :
    (py : Python) (a : OdooArgs)
    → paths "filestore" (items_of (entry "containers" (odoo_pod py a))) ≡ str "/var/lib/odoo" ∷ []
unfolding paths paths_in entry get_in pod_spec odoo_container odoo_volume_mounts sidecars
    get_tailscale_sidecar
odoo_pod-paths py a = go a.addons a.tailscale
  where
    go :
        (addons : List Addon) (t : Option Tailnet)
        → paths "filestore" (
            items_of
              (entry "containers" (odoo_pod py (record a { addons = addons; tailscale = t }))))
          ≡ str "/var/lib/odoo" ∷ []
    go [] none = refl
    go [] (some t) = refl
    go (x ∷ addons) none = refl
    go (x ∷ addons) (some t) = refl
