-- ===== src/Odoo/Rules.antt =====
-- What `create_odoo` and `delete_odoo` request, and the objects that they leave stored or gone.
use odoo_operator.Base.{
  String, refl, Option, none, some, List, [], ◌∷◌, ◌++◌, ◌≡◌, All, if◌then◌else◌, nonempty,
}
use odoo_operator.Value.{Value}
use odoo_operator.Prog.{choice, Request, Key, role, role_binding, ok}
use odoo_operator.Prog.Only.{Yields, Yields-bind, Yields-ret, Only, Only-bind, Only-ret, Only-when}
use odoo_operator.Server.Accepted.{Accepts}
use odoo_operator.Server.{Server, IsLawful, IsHealthy, IsStored}
use odoo_operator.Server.Run.{run}
use odoo_operator.Server.Rules.{Achieves-ret, Succeeds, Succeeds-bind, Succeeds-when, Succeeds-ret}
use odoo_operator.Kube.Requests.{
  Only-delete_if_present, Only-create_or_patch, Only-create_or_skip, Only-create_or_patch_wrapped,
  Only-create_if_missing,
}
use odoo_operator.Kube.Effects.{
  Builds-bind, Clears-bind, Builds-when, Builds, Clears, Builds-create_or_patch,
  Builds-create_or_skip, Builds-create_or_patch_wrapped, Builds-create_if_missing,
  Clears-delete_if_present,
}
use odoo_operator.Kube.Returns.{
  Succeeds-create_or_patch, Succeeds-create_or_skip, Succeeds-create_or_patch_wrapped,
  Succeeds-create_if_missing, Succeeds-delete_if_present,
}
use odoo_operator.Password.{generate_password}
use odoo_operator.Password.Rules.{Only-generate_password, Succeeds-generate_password}
use odoo_operator.Python.{Python}
use odoo_operator.Dynamic.{get_in}
use odoo_operator.Spec.{Tailnet}
use odoo_operator.Scope.{Provisions, Removes, InScope-twice, suffix, metadata_of}
use odoo_operator.Tailscale.{role_key, binding_key}
use odoo_operator.Tailscale.Rules.{
  tailscale_keys, sidecar_keys, Only-delete_tailscale_resources, Only-create_tailscale_resources,
  Only-create_role, Only-create_binding, Builds-create_tailscale_resources,
  Succeeds-create_tailscale_resources, Clears-delete_tailscale_resources,
  Succeeds-delete_tailscale_resources,
}
use odoo_operator.Odoo.Bodies.{
  account_body, filestore_body, secret_body, addons_body, config_body, deployment_metadata,
  deployment_body, service_body,
}
use odoo_operator.Odoo.{
  account_key, filestore_key, secret_key, addons_key, config_key, deployment_key, service_key,
  OdooArgs, setup_tailscale, admin_secret, create_odoo, delete_odoo,
}

abbrev pub setup_keys : String → String → Option Tailnet → List Key
setup_keys namespace name none = []
setup_keys namespace name (some t) = sidecar_keys namespace name "odoo"

-- The objects of an Odoo instance that is created with these arguments.
abbrev pub odoo_keys : OdooArgs → List Key
odoo_keys a =
    account_key a.namespace a.name
    ∷ filestore_key a.namespace a.name
    ∷ secret_key a.namespace a.name
    ∷ ((if nonempty a.addons then addons_key a.namespace a.name ∷ [] else [])
        ++ (config_key a.namespace a.name
            ∷ (setup_keys a.namespace a.name a.tailscale
                ++ (deployment_key a.namespace a.name ∷ service_key a.namespace a.name ∷ []))))

-- What `delete_odoo` removes, in its order. The secret of the administrator is not among them.
abbrev pub odoo_removed : String → String → List Key
odoo_removed namespace name =
    deployment_key namespace name
    ∷ service_key namespace name
    ∷ config_key namespace name
    ∷ filestore_key namespace name
    ∷ addons_key namespace name
    ∷ (tailscale_keys namespace name "odoo"
        ++ (role_key namespace name "odoo"
            ∷ binding_key namespace name "odoo"
            ∷ account_key namespace name
            ∷ []))

Only-admin_secret :
    {P : Request → Type 0} (a : OdooArgs)
    → ((al : String) → P (choice al))
    → Only P (admin_secret a)
Only-admin_secret a p = Only-bind (Only-generate_password p 32) λ password. Only-ret _

Yields-admin_secret :
    {Q : Value → Type 0} (a : OdooArgs)
    → ((password : String) → Q (secret_body a.namespace a.name password a.owner_ref))
    → Yields Q (admin_secret a)
Yields-admin_secret a q = Yields-bind (generate_password 32) λ password. Yields-ret _ (q password)

module _ (py : Python) where
  Only-setup_tailscale :
      (namespace name : String) (t : Option Tailnet)
      → Only (Provisions namespace name) (setup_tailscale py namespace name t)
  unfolding setup_tailscale
  Only-setup_tailscale namespace name none = Only-ret tt
  Only-setup_tailscale namespace name (some t) =
      Only-bind (Only-create_tailscale_resources py namespace name "odoo" _ _) λ _.
        Only-bind (Only-create_role namespace name "odoo")
          λ _. Only-create_binding namespace name "odoo"

  pub Only-create_odoo : (a : OdooArgs) → Only (Provisions a.namespace a.name) (create_odoo py a)
  unfolding create_odoo account_body filestore_body secret_body addons_body config_body
      deployment_metadata deployment_body service_body metadata_of get_in
  Only-create_odoo a =
      Only-bind (Only-create_or_skip _ _ ((refl, ("odoo", refl)), (refl, refl))) λ _.
        Only-bind
          (Only-create_or_skip _ _
            ((refl, ("odoo-filestore", refl)), (suffix a.name "-odoo" "-filestore", refl)))
          λ _.
            Only-bind
              (Only-create_if_missing _ tt (Only-admin_secret a (λ al. tt))
                (Yields-admin_secret a λ password. ((refl, ("odoo-admin", refl)), (refl, refl))))
              λ _.
                Only-bind
                  (Only-when _ (
                    Only-create_or_skip _ _
                      ((refl, ("odoo-addons", refl)), (suffix a.name "-odoo" "-addons", refl))))
                  λ _.
                    Only-bind
                      (Only-create_or_patch _ _
                        ((refl, ("odoo-config", refl)), (suffix a.name "-odoo" "-config", refl))
                        (
                          (refl, ("odoo-config", refl)),
                          refl,
                          (suffix a.name "-odoo" "-config", refl),
                        ))
                      λ _. Only-bind (Only-setup_tailscale a.namespace a.name a.tailscale) λ _.
                        Only-bind
                          (Only-create_or_patch_wrapped _ _ _ ((refl, ("odoo", refl)), (refl, refl))
                            ((refl, ("odoo", refl)), refl, (refl, refl)))
                          λ _.
                            Only-create_or_patch _ _ ((refl, ("odoo", refl)), (refl, refl))
                              ((refl, ("odoo", refl)), refl, (refl, refl))

  module _ (S : Server) (L : IsLawful S) where
    Builds-setup_tailscale :
        (namespace name : String) (t : Option Tailnet)
        → Builds S L (setup_keys namespace name t) (setup_tailscale py namespace name t)
    unfolding setup_tailscale
    Builds-setup_tailscale namespace name none = Achieves-ret S _ _ tt
    Builds-setup_tailscale namespace name (some t) =
        Builds-bind S L (Builds-create_tailscale_resources py namespace name "odoo" _ _ S L)
          λ _. Builds-bind S L (Builds-create_or_patch S L _ _) λ _. Builds-create_or_patch S L _ _

    Succeeds-setup_tailscale :
        (namespace name : String) (t : Option Tailnet)
        → IsHealthy S
        → Succeeds S (setup_tailscale py namespace name t)
    unfolding setup_tailscale
    Succeeds-setup_tailscale namespace name none H = Succeeds-ret tt
    Succeeds-setup_tailscale namespace name (some t) H =
        Succeeds-bind (Succeeds-create_tailscale_resources py namespace name "odoo" _ _ S L H) λ _.
          Succeeds-bind (Succeeds-create_or_patch S L H _ _) λ _. Succeeds-create_or_patch S L H _ _

    pub Builds-create_odoo : (a : OdooArgs) → Builds S L (odoo_keys a) (create_odoo py a)
    unfolding create_odoo
    Builds-create_odoo a = Builds-bind S L (Builds-create_or_skip S L _ _) λ _.
        Builds-bind S L (Builds-create_or_skip S L _ _) λ _.
          Builds-bind S L (Builds-create_if_missing S L _ (Only-admin_secret a (λ al. tt))) λ _.
            Builds-bind S L (Builds-when S L _ (Builds-create_or_skip S L _ _)) λ _.
              Builds-bind S L (Builds-create_or_patch S L _ _) λ _.
                Builds-bind S L (Builds-setup_tailscale a.namespace a.name a.tailscale) λ _.
                  Builds-bind S L (Builds-create_or_patch_wrapped S L _ _ _)
                    λ _. Builds-create_or_patch S L _ _

    pub Succeeds-create_odoo : IsHealthy S → (a : OdooArgs) → Succeeds S (create_odoo py a)
    unfolding create_odoo
    Succeeds-create_odoo H a = Succeeds-bind (Succeeds-create_or_skip S L H _ _) λ _.
        Succeeds-bind (Succeeds-create_or_skip S L H _ _) λ _.
          Succeeds-bind
            (Succeeds-create_if_missing S L H _ (Only-admin_secret a (λ al. tt))
              (Succeeds-bind (Succeeds-generate_password S H 32) λ password. Succeeds-ret _))
            λ _. Succeeds-bind (Succeeds-when _ (Succeeds-create_or_skip S L H _ _)) λ _.
              Succeeds-bind (Succeeds-create_or_patch S L H _ _) λ _.
                Succeeds-bind (Succeeds-setup_tailscale a.namespace a.name a.tailscale H) λ _.
                  Succeeds-bind (Succeeds-create_or_patch_wrapped S L H _ _ _)
                    λ _. Succeeds-create_or_patch S L H _ _

module _ (namespace name : String) (S : Server) (L : IsLawful S) where
  pub Clears-delete_odoo : Clears S L (odoo_removed namespace name) (delete_odoo namespace name)
  unfolding delete_odoo
  Clears-delete_odoo = Clears-bind S L (Clears-delete_if_present S L _) λ _.
      Clears-bind S L (Clears-delete_if_present S L _) λ _.
        Clears-bind S L (Clears-delete_if_present S L _) λ _.
          Clears-bind S L (Clears-delete_if_present S L _) λ _.
            Clears-bind S L (Clears-delete_if_present S L _) λ _.
              Clears-bind S L {ks = tailscale_keys namespace name "odoo"}
                (Clears-delete_tailscale_resources namespace name "odoo" S L)
                λ _. Clears-bind S L (Clears-delete_if_present S L _) λ _.
                  Clears-bind S L (Clears-delete_if_present S L _)
                    λ _. Clears-delete_if_present S L _

  pub Succeeds-delete_odoo : IsHealthy S → Succeeds S (delete_odoo namespace name)
  unfolding delete_odoo
  Succeeds-delete_odoo H =
      let gone = Succeeds-delete_if_present S L H in
      Succeeds-bind (gone _) λ _. Succeeds-bind (gone _) λ _. Succeeds-bind (gone _) λ _.
        Succeeds-bind (gone _) λ _. Succeeds-bind (gone _) λ _.
          Succeeds-bind (Succeeds-delete_tailscale_resources namespace name "odoo" S L H)
            λ _. Succeeds-bind (gone _) λ _. Succeeds-bind (gone _) λ _. gone _

pub Only-delete_odoo :
    (namespace name : String) → Only (Removes namespace name) (delete_odoo namespace name)
unfolding delete_odoo
Only-delete_odoo namespace name =
    Only-bind (Only-delete_if_present _ ((refl, ("odoo", refl)), refl)) λ _.
      Only-bind (Only-delete_if_present _ ((refl, ("odoo", refl)), refl)) λ _.
        Only-bind (Only-delete_if_present _ ((refl, ("odoo-config", refl)), refl)) λ _.
          Only-bind (Only-delete_if_present _ ((refl, ("odoo-filestore", refl)), refl)) λ _.
            Only-bind (Only-delete_if_present _ ((refl, ("odoo-addons", refl)), refl)) λ _.
              Only-bind (Only-delete_tailscale_resources namespace name "odoo") λ _.
                Only-bind
                  (Only-delete_if_present _
                    (InScope-twice namespace name "odoo" "-tailscale" role, refl))
                  λ _.
                    Only-bind
                      (Only-delete_if_present _
                        (InScope-twice namespace name "odoo" "-tailscale" role_binding, refl))
                      λ _. Only-delete_if_present _ ((refl, ("odoo", refl)), refl)

-- On a lawful server with no fault of its own the creation of an Odoo instance, none of whose
-- creations and patches the server answers with 422, returns from every state of the cluster, and
-- then its account, claims, secret, configuration, deployment, service and, if it has one, the
-- objects of its sidecar are stored.
pub create_odoo-total :
    (S : Server) (py : Python) (a : OdooArgs) (s : S.State)
    → IsLawful S
    → IsHealthy S
    → Accepts S (create_odoo py a) s
    → ((run S (create_odoo py a) s).result ≡ ok tt)
      × All (λ k. IsStored (S.find (run S (create_odoo py a) s).state k)) (odoo_keys a)
create_odoo-total S py a s L H w =
    let e = ((Succeeds-create_odoo py S L H a).at s w).1 in
    (e, (Builds-create_odoo py S L a).done s e)
