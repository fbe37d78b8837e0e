-- ===== src/Tailscale/Rules.antt =====
-- What the Tailscale helper requests, and the objects that it leaves stored or gone.
use odoo_operator.Base.{ℕ, String, refl, Bool, List, [], ◌∷◌, ◌++◌}
use odoo_operator.Prog.{Key, config_map, pvc, role, role_binding}
use odoo_operator.Prog.Only.{Only, Only-bind}
use odoo_operator.Server.{Server, IsLawful, IsHealthy}
use odoo_operator.Server.Rules.{Succeeds, Succeeds-bind}
use odoo_operator.Kube.Requests.{Only-delete_if_present, Only-create_or_patch, Only-create_or_skip}
use odoo_operator.Kube.Effects.{
  Builds-bind, Clears-bind, Builds, Clears, Builds-create_or_patch, Builds-create_or_skip,
  Clears-delete_if_present,
}
use odoo_operator.Kube.Returns.{
  Succeeds-create_or_patch, Succeeds-create_or_skip, Succeeds-delete_if_present,
}
use odoo_operator.Kube.{create_or_patch}
use odoo_operator.Python.{Python}
use odoo_operator.Dynamic.{get_in}
use odoo_operator.Scope.{Provisions, Removes, metadata_of, InScope-twice}
use odoo_operator.Tailscale.{
  config_key, state_key, role_key, binding_key, rbac_role, rbac_binding, create_tailscale_resources,
  delete_tailscale_resources,
}

abbrev pub tailscale_keys : String → String → String → List Key
tailscale_keys namespace name component =
    config_key namespace name component ∷ state_key namespace name component ∷ []

abbrev pub sidecar_keys : String → String → String → List Key
sidecar_keys namespace name component =
    tailscale_keys namespace name component
    ++ (role_key namespace name component ∷ binding_key namespace name component ∷ [])

module _ (py : Python) (namespace name component : String) (port : ℕ) (funnel : Bool) where
  pub Only-create_tailscale_resources :
      Only
        (Provisions namespace name)
        (create_tailscale_resources py namespace name component port funnel)
  unfolding create_tailscale_resources metadata_of get_in
  Only-create_tailscale_resources =
      let config = InScope-twice namespace name component "-tailscale-config" config_map in
      Only-bind (Only-create_or_patch _ _ (config, (refl, refl)) (config, refl, (refl, refl))) λ _.
        Only-create_or_skip _ _
          (InScope-twice namespace name component "-tailscale-state" pvc, (refl, refl))

  module _ (S : Server) (L : IsLawful S) where
    pub Builds-create_tailscale_resources :
        Builds S L
          (tailscale_keys namespace name component)
          (create_tailscale_resources py namespace name component port funnel)
    unfolding create_tailscale_resources
    Builds-create_tailscale_resources =
        Builds-bind S L (Builds-create_or_patch S L _ _) λ _. Builds-create_or_skip S L _ _

    pub Succeeds-create_tailscale_resources :
        IsHealthy S
        → Succeeds S (create_tailscale_resources py namespace name component port funnel)
    unfolding create_tailscale_resources
    Succeeds-create_tailscale_resources H =
        Succeeds-bind (Succeeds-create_or_patch S L H _ _) λ _. Succeeds-create_or_skip S L H _ _

module _ (namespace name component : String) where
  pub Only-create_role :
      Only
        (Provisions namespace name)
        (create_or_patch (role_key namespace name component) (rbac_role namespace name component))
  unfolding metadata_of get_in rbac_role
  Only-create_role =
      let here = InScope-twice namespace name component "-tailscale" role in
      Only-create_or_patch _ _ (here, (refl, refl)) (here, refl, (refl, refl))

  pub Only-create_binding : Only (Provisions namespace name) (
      create_or_patch
        (binding_key namespace name component)
        (rbac_binding namespace name component))
  unfolding metadata_of get_in rbac_binding
  Only-create_binding =
      let here = InScope-twice namespace name component "-tailscale" role_binding in
      Only-create_or_patch _ _ (here, (refl, refl)) (here, refl, (refl, refl))

  module _ (S : Server) (L : IsLawful S) where
    pub Clears-delete_tailscale_resources :
        Clears S L
          (tailscale_keys namespace name component)
          (delete_tailscale_resources namespace name component)
    unfolding delete_tailscale_resources
    Clears-delete_tailscale_resources =
        Clears-bind S L (Clears-delete_if_present S L _) λ _. Clears-delete_if_present S L _

    pub Succeeds-delete_tailscale_resources :
        IsHealthy S → Succeeds S (delete_tailscale_resources namespace name component)
    unfolding delete_tailscale_resources
    Succeeds-delete_tailscale_resources H =
        Succeeds-bind (Succeeds-delete_if_present S L H _) λ _. Succeeds-delete_if_present S L H _

pub Only-delete_tailscale_resources :
    (namespace name component : String)
    → Only (Removes namespace name) (delete_tailscale_resources namespace name component)
unfolding delete_tailscale_resources
Only-delete_tailscale_resources namespace name component =
    Only-bind
      (Only-delete_if_present _
        (InScope-twice namespace name component "-tailscale-config" config_map, refl))
      λ _.
        Only-delete_if_present _
          (InScope-twice namespace name component "-tailscale-state" pvc, refl)
