-- ===== src/Cloudflare/Bodies/Volumes.antt =====
-- The volumes of the tunnel's pod: what it mounts, and what they refer to.
use text.Mathlib.TextLemmas.{append_assoc}
use odoo_operator.Base.{ℕ, String, refl, ap, Option, All, In, inl, inr}
use odoo_operator.Prog.{config_map}
use odoo_operator.Dynamic.{get_in}
use odoo_operator.Owner.{OwnerRef, key}
use odoo_operator.Pod.{entry, names, mounts, refs, IsMounted, pod_of, volumes_of}
use odoo_operator.Cloudflare.Bodies.{tunnel_pod, deployment_body}
use odoo_operator.Cloudflare.Rules.{tunnel_keys}

module _ (namespace name tunnel_secret_name : String) (replicas : ℕ)
    (owner_ref : Option OwnerRef) where
  -- Every volume that the tunnel's container mounts is one of the volumes of its pod.
  pub tunnel_pod-IsMounted :
      IsMounted (pod_of (deployment_body namespace name tunnel_secret_name replicas owner_ref))
  unfolding names mounts entry get_in deployment_body tunnel_pod
  tunnel_pod-IsMounted = record { init = tt; main = (inl refl, (inr (inl refl), tt)) }

  -- The config map that the tunnel's pod refers to is one of the objects that its handler stores.
  pub tunnel_pod-refs :
      All
        (λ k. In k (tunnel_keys namespace name))
        (refs namespace (
          volumes_of
            (pod_of (deployment_body namespace name tunnel_secret_name replicas owner_ref))))
  unfolding refs entry get_in deployment_body tunnel_pod
  tunnel_pod-refs =
      (inl (ap (key config_map namespace) (append_assoc name "-cloudflare-tunnel" "-config")), tt)
