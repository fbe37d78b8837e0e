-- ===== src/Odoo/Pod/References.antt =====
-- What the volumes of the Odoo pod refer to: claims and config maps that its handler stores.
use text.Mathlib.TextLemmas.{append_assoc}
use odoo_operator.Base.{
  String, ◌<>◌, ◌≡◌, refl, ap, Option, none, some, List, [], ◌∷◌, All, In, inl, inr,
}
use odoo_operator.Value.{Value, items}
use odoo_operator.Prog.{Kind, pvc, config_map}
use odoo_operator.Dynamic.{get_in}
use odoo_operator.Python.{Python}
use odoo_operator.Spec.{Addon, Tailnet, deploy_secrets}
use odoo_operator.Owner.{key}
use odoo_operator.Tailscale.{get_tailscale_volumes}
use odoo_operator.Pod.{entry, refs, volumes_of}
use odoo_operator.Pod.Rules.{refs-secrets}
use odoo_operator.Odoo.Pod.{key_volume, volumes, pod_spec, addon_volumes, tailscale_volumes}
use odoo_operator.Odoo.{OdooArgs, odoo_pod}
use odoo_operator.Odoo.Rules.{odoo_keys}

secret_volume :
    (namespace k : String) (ws : List Value)
    → refs namespace (items (key_volume k ∷ ws)) ≡ refs namespace (items ws)
unfolding refs entry key_volume get_in
secret_volume namespace k ws = refl

module _ (py : Python) (a : OdooArgs) where
  -- The key of an object whose name is built in two steps.
  twice :
      (kind : Kind) (suffix : String)
      → key kind a.namespace ((a.name <> "-odoo") <> suffix)
        ≡ key kind a.namespace (a.name <> ("-odoo" <> suffix))
  twice kind suffix = ap (key kind a.namespace) (append_assoc a.name "-odoo" suffix)

-- The claims and config maps that the volumes of the Odoo pod refer to are objects that its handler
-- stores, whatever the spec asks for.
pub odoo_pod-refs :
    (py : Python) (a : OdooArgs)
    → All (λ k. In k (odoo_keys a)) (refs a.namespace (volumes_of (odoo_pod py a)))
unfolding refs entry get_in pod_spec volumes addon_volumes tailscale_volumes get_tailscale_volumes
odoo_pod-refs py a = go a.addons a.tailscale
  where
    go :
        (addons : List Addon) (t : Option Tailnet)
        → All
            (λ k. In k (odoo_keys (record a { addons = addons; tailscale = t })))
            (refs a.namespace (items (volumes py a.name addons t)))
    go [] none = (
      (inr (inl (twice py a pvc "-filestore"))),
      ((inr (inr (inr (inl (twice py a config_map "-config"))))), tt),
    )
    go [] (some t) = (
      (inr (inl (twice py a pvc "-filestore"))),
      (
        (inr (inr (inr (inl (twice py a config_map "-config"))))),
        ((inr (inr (inr (inr (inr (inl refl)))))), ((inr (inr (inr (inr (inl refl))))), tt)),
      ),
    )
    go (x ∷ addons) none =
        rw
          (refs-secrets a.namespace key_volume (secret_volume a.namespace)
            (py.iterate (deploy_secrets (x ∷ addons))) [])
          (
            (inr (inl (twice py a pvc "-filestore"))),
            (
              (inr (inr (inr (inr (inl (twice py a config_map "-config")))))),
              ((inr (inr (inr (inl (twice py a pvc "-addons"))))), tt),
            ),
          )
    go (x ∷ addons) (some t) =
        rw
          (refs-secrets a.namespace key_volume (secret_volume a.namespace)
            (py.iterate (deploy_secrets (x ∷ addons))) (get_tailscale_volumes (a.name <> "-odoo")))
          (
            (inr (inl (twice py a pvc "-filestore"))),
            (
              (inr (inr (inr (inr (inl (twice py a config_map "-config")))))),
              (
                (inr (inr (inr (inl (twice py a pvc "-addons"))))),
                (
                  (inr (inr (inr (inr (inr (inr (inl refl))))))),
                  ((inr (inr (inr (inr (inr (inl refl)))))), tt),
                ),
              ),
            ),
          )
