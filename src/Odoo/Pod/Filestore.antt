-- ===== src/Odoo/Pod/Filestore.antt =====
-- The claim of the filestore in the Odoo pod.
use text.Mathlib.TextLemmas.{append_assoc}
use odoo_operator.Base.{
  String, ◌<>◌, ◌≡◌, refl, ap, ◌∙◌, false, Option, none, some, List, [], ◌∷◌, ◌++◌, map, chars, sym,
  str_eq, str_eq_iff, Bool-cases, inl, inr,
}
use odoo_operator.Base.Strip.{chars-append}
use odoo_operator.Value.{Value, str, items}
use odoo_operator.Dynamic.{get_in}
use odoo_operator.Python.{Python}
use odoo_operator.Spec.{Addon, Tailnet, deploy_secrets}
use odoo_operator.Tailscale.{get_tailscale_volumes}
use odoo_operator.Pod.{entry, claims_named, volumes_of}
use odoo_operator.Odoo.Pod.{key_volume, volumes, pod_spec, addon_volumes, tailscale_volumes}
use odoo_operator.Odoo.{OdooArgs, odoo_pod}

-- No volume of a deploy key has the name of the filestore's.
deploy_key-differs : (k : String) → str_eq ("deploy-key-" <> k) "filestore" ≡ false
deploy_key-differs k = elim (Bool-cases (str_eq ("deploy-key-" <> k) "filestore")) [
  | inl e ↦ absurd (
      cc (
        sym (chars-append "deploy-key-" k)
        ∙ ap chars ((str_eq_iff ("deploy-key-" <> k) "filestore").0 e)))
  | inr e ↦ e
]

claims_named-keys :
    (ks : List String) (ws : List Value)
    → claims_named "filestore" (items (map key_volume ks ++ ws))
      ≡ claims_named "filestore" (items ws)
unfolding claims_named entry key_volume get_in
claims_named-keys [] ws = refl
claims_named-keys (k ∷ ks) ws = rw (deploy_key-differs k) (claims_named-keys ks ws)

-- The volume named `filestore` is the claim of the cluster's filestore, whatever the spec asks for.
pub odoo_pod-filestore :
    (py : Python) (a : OdooArgs)
    → claims_named "filestore" (volumes_of (odoo_pod py a)) ≡ str (a.name <> "-odoo-filestore") ∷ []
unfolding claims_named entry get_in pod_spec volumes addon_volumes tailscale_volumes
    get_tailscale_volumes
odoo_pod-filestore py a =
    go a.addons a.tailscale ∙ ap (λ t. str t ∷ []) (append_assoc a.name "-odoo" "-filestore")
  where
    go :
        (addons : List Addon) (t : Option Tailnet)
        → claims_named "filestore" (items (volumes py a.name addons t))
          ≡ str ((a.name <> "-odoo") <> "-filestore") ∷ []
    go [] none = refl
    go [] (some t) = refl
    go (x ∷ addons) none =
        ap (λ cs. str ((a.name <> "-odoo") <> "-filestore") ∷ cs)
          (claims_named-keys (py.iterate (deploy_secrets (x ∷ addons))) [])
    go (x ∷ addons) (some t) =
        ap (λ cs. str ((a.name <> "-odoo") <> "-filestore") ∷ cs)
          (claims_named-keys (py.iterate (deploy_secrets (x ∷ addons)))
            (get_tailscale_volumes (a.name <> "-odoo")))
