-- ===== src/Metabase/Bodies/Volumes.antt =====
-- The volumes of the Metabase pod: what its containers mount, and what they refer to.
use text.Mathlib.TextLemmas.{append_assoc}
use odoo_operator.Base.{String, refl, ap, Option, none, some, All, In, inl, inr}
use odoo_operator.Value.{items}
use odoo_operator.Prog.{pvc}
use odoo_operator.Dynamic.{get_in}
use odoo_operator.Python.{Python}
use odoo_operator.Spec.{Tailnet}
use odoo_operator.Owner.{key}
use odoo_operator.Tailscale.{get_tailscale_volumes, get_tailscale_sidecar}
use odoo_operator.Pod.{entry, names, mounts, refs, IsMounted, pod_of, volumes_of}
use odoo_operator.Metabase.Bodies.{
  metabase_container, sidecars, tailscale_volumes, volumes, deployment_body,
}
use odoo_operator.Metabase.{MetabaseArgs, metabase_deployment}
use odoo_operator.Metabase.Rules.{metabase_keys}

sidecar-IsMounted :
    (name auth_secret : String) (t : Option Tailnet)
    → All (λ n. In n (names (items (volumes name t)))) (mounts (items (sidecars auth_secret t)))
unfolding names mounts entry get_in volumes sidecars tailscale_volumes get_tailscale_volumes
    get_tailscale_sidecar
sidecar-IsMounted name auth_secret none = tt
sidecar-IsMounted name auth_secret (some t) = (inr (inl refl), (inr (inr (inl refl)), tt))

-- Every volume that the Metabase container and the Tailscale sidecar mount is one of the volumes of
-- the Metabase pod, whatever the spec asks for.
pub metabase_pod-IsMounted :
    (py : Python) (a : MetabaseArgs) → IsMounted (pod_of (metabase_deployment py a))
unfolding names mounts entry get_in volumes deployment_body metabase_container
metabase_pod-IsMounted py a = record {
  init = tt;
  main = (inl refl, sidecar-IsMounted a.name a.tailscale_auth_secret a.tailscale);
}

-- The claims and config maps that the volumes of the Metabase pod refer to are objects that its
-- handler stores, whatever the spec asks for.
pub metabase_pod-refs :
    (py : Python) (a : MetabaseArgs)
    → All
        (λ k. In k (metabase_keys a))
        (refs a.namespace (volumes_of (pod_of (metabase_deployment py a))))
unfolding refs entry get_in deployment_body volumes tailscale_volumes get_tailscale_volumes
metabase_pod-refs py a = go a.tailscale
  where
    go :
        (t : Option Tailnet)
        → All
            (λ k. In k (metabase_keys (record a { tailscale = t })))
            (refs a.namespace (items (volumes a.name t)))
    go none = (inr (inl (ap (key pvc a.namespace) (append_assoc a.name "-metabase" "-data"))), tt)
    go (some t) = (
      inr (inl (ap (key pvc a.namespace) (append_assoc a.name "-metabase" "-data"))),
      (inr (inr (inr (inr (inl refl)))), (inr (inr (inr (inl refl))), tt)),
    )
