-- ===== src/Metabase/Rules.antt =====
-- What `create_metabase` and `delete_metabase` request, and the objects that they leave stored or
-- gone.
use odoo_operator.Base.{String, refl, Option, none, some, List, [], ◌∷◌, ◌++◌, ◌≡◌, All}
use odoo_operator.Value.{Value}
use odoo_operator.Prog.{choice, Request, Key, role, role_binding, ok}
use odoo_operator.Prog.Only.{Yields, Yields-bind, Yields-ret, Only, Only-bind, Only-ret}
use odoo_operator.Server.Accepted.{Accepts}
use odoo_operator.Server.{Server, IsLawful, IsHealthy, IsStored}
use odoo_operator.Server.Run.{run}
use odoo_operator.Server.Rules.{Achieves-ret, Succeeds, Succeeds-bind, Succeeds-ret}
use odoo_operator.Kube.Requests.{
  Only-delete_if_present, Only-create_or_patch, Only-create_or_skip, Only-create_or_patch_wrapped,
  Only-create_if_missing,
}
use odoo_operator.Kube.Effects.{
  Builds-bind, Clears-bind, Builds, Clears, Builds-create_or_patch, Builds-create_or_skip,
  Builds-create_or_patch_wrapped, Builds-create_if_missing, Clears-delete_if_present,
}
use odoo_operator.Kube.Returns.{
  Succeeds-create_or_patch, Succeeds-create_or_skip, Succeeds-create_or_patch_wrapped,
  Succeeds-create_if_missing, Succeeds-delete_if_present,
}
use odoo_operator.Password.{generate_password}
use odoo_operator.Password.Rules.{Only-generate_password, Succeeds-generate_password}
use odoo_operator.Python.{Python}
use odoo_operator.Dynamic.{get_in}
use odoo_operator.Spec.{Tailnet}
use odoo_operator.Scope.{Provisions, Removes, InScope-twice, suffix, metadata_of}
use odoo_operator.Tailscale.{role_key, binding_key}
use odoo_operator.Tailscale.Rules.{
  tailscale_keys, sidecar_keys, Only-delete_tailscale_resources, Only-create_tailscale_resources,
  Only-create_role, Only-create_binding, Builds-create_tailscale_resources,
  Succeeds-create_tailscale_resources, Clears-delete_tailscale_resources,
  Succeeds-delete_tailscale_resources,
}
use odoo_operator.Metabase.Bodies.{
  account_body, data_body, secret_body, deployment_body, service_body,
}
use odoo_operator.Metabase.{
  account_key, data_key, secret_key, deployment_key, service_key, MetabaseArgs, setup_tailscale,
  admin_secret, create_metabase, delete_metabase,
}

abbrev pub setup_keys : String → String → Option Tailnet → List Key
setup_keys namespace name none = []
setup_keys namespace name (some t) = sidecar_keys namespace name "metabase"

-- The objects of a Metabase instance that is created with these arguments.
abbrev pub metabase_keys : MetabaseArgs → List Key
metabase_keys a =
    account_key a.namespace a.name
    ∷ data_key a.namespace a.name
    ∷ secret_key a.namespace a.name
    ∷ (setup_keys a.namespace a.name a.tailscale
        ++ (deployment_key a.namespace a.name ∷ service_key a.namespace a.name ∷ []))

-- What `delete_metabase` removes, in its order. The secret of the administrator is not among them.
abbrev pub metabase_removed : String → String → List Key
metabase_removed namespace name =
    deployment_key namespace name
    ∷ service_key namespace name
    ∷ data_key namespace name
    ∷ (tailscale_keys namespace name "metabase"
        ++ (role_key namespace name "metabase"
            ∷ binding_key namespace name "metabase"
            ∷ account_key namespace name
            ∷ []))

Only-admin_secret :
    {P : Request → Type 0} (a : MetabaseArgs)
    → ((al : String) → P (choice al))
    → Only P (admin_secret a)
Only-admin_secret a p = Only-bind (Only-generate_password p 24) λ password. Only-ret _

Yields-admin_secret :
    {Q : Value → Type 0} (a : MetabaseArgs)
    → ((password : String) → Q (secret_body a.namespace a.name password a.owner_ref))
    → Yields Q (admin_secret a)
Yields-admin_secret a q = Yields-bind (generate_password 24) λ password. Yields-ret _ (q password)

module _ (py : Python) where
  Only-setup_tailscale :
      (namespace name : String) (t : Option Tailnet)
      → Only (Provisions namespace name) (setup_tailscale py namespace name t)
  unfolding setup_tailscale
  Only-setup_tailscale namespace name none = Only-ret tt
  Only-setup_tailscale namespace name (some t) =
      Only-bind (Only-create_tailscale_resources py namespace name "metabase" _ _) λ _.
        Only-bind (Only-create_role namespace name "metabase")
          λ _. Only-create_binding namespace name "metabase"

  pub Only-create_metabase :
      (a : MetabaseArgs) → Only (Provisions a.namespace a.name) (create_metabase py a)
  unfolding create_metabase account_body data_body secret_body deployment_body service_body
      metadata_of get_in
  Only-create_metabase a =
      Only-bind (Only-create_or_skip _ _ ((refl, ("metabase", refl)), (refl, refl))) λ _.
        Only-bind
          (Only-create_or_skip _ _
            ((refl, ("metabase-data", refl)), (suffix a.name "-metabase" "-data", refl)))
          λ _.
            Only-bind
              (Only-create_if_missing _ tt (Only-admin_secret a (λ al. tt)) (
                Yields-admin_secret a λ password. ((refl, ("metabase-admin", refl)), (refl, refl))))
              λ _. Only-bind (Only-setup_tailscale a.namespace a.name a.tailscale) λ _.
                Only-bind
                  (Only-create_or_patch_wrapped _ _ _ ((refl, ("metabase", refl)), (refl, refl))
                    ((refl, ("metabase", refl)), refl, (refl, refl)))
                  λ _.
                    Only-create_or_patch _ _ ((refl, ("metabase", refl)), (refl, refl))
                      ((refl, ("metabase", refl)), refl, (refl, refl))

  module _ (S : Server) (L : IsLawful S) where
    Builds-setup_tailscale :
        (namespace name : String) (t : Option Tailnet)
        → Builds S L (setup_keys namespace name t) (setup_tailscale py namespace name t)
    unfolding setup_tailscale
    Builds-setup_tailscale namespace name none = Achieves-ret S _ _ tt
    Builds-setup_tailscale namespace name (some t) =
        Builds-bind S L (Builds-create_tailscale_resources py namespace name "metabase" _ _ S L)
          λ _. Builds-bind S L (Builds-create_or_patch S L _ _) λ _. Builds-create_or_patch S L _ _

    Succeeds-setup_tailscale :
        (namespace name : String) (t : Option Tailnet)
        → IsHealthy S
        → Succeeds S (setup_tailscale py namespace name t)
    unfolding setup_tailscale
    Succeeds-setup_tailscale namespace name none H = Succeeds-ret tt
    Succeeds-setup_tailscale namespace name (some t) H =
        Succeeds-bind (Succeeds-create_tailscale_resources py namespace name "metabase" _ _ S L H)
          λ _.
            Succeeds-bind (Succeeds-create_or_patch S L H _ _)
              λ _. Succeeds-create_or_patch S L H _ _

    pub Builds-create_metabase :
        (a : MetabaseArgs) → Builds S L (metabase_keys a) (create_metabase py a)
    unfolding create_metabase
    Builds-create_metabase a = Builds-bind S L (Builds-create_or_skip S L _ _) λ _.
        Builds-bind S L (Builds-create_or_skip S L _ _) λ _.
          Builds-bind S L (Builds-create_if_missing S L _ (Only-admin_secret a (λ al. tt))) λ _.
            Builds-bind S L (Builds-setup_tailscale a.namespace a.name a.tailscale) λ _.
              Builds-bind S L (Builds-create_or_patch_wrapped S L _ _ _)
                λ _. Builds-create_or_patch S L _ _

    pub Succeeds-create_metabase :
        IsHealthy S → (a : MetabaseArgs) → Succeeds S (create_metabase py a)
    unfolding create_metabase
    Succeeds-create_metabase H a = Succeeds-bind (Succeeds-create_or_skip S L H _ _) λ _.
        Succeeds-bind (Succeeds-create_or_skip S L H _ _) λ _.
          Succeeds-bind
            (Succeeds-create_if_missing S L H _ (Only-admin_secret a (λ al. tt))
              (Succeeds-bind (Succeeds-generate_password S H 24) λ password. Succeeds-ret _))
            λ _. Succeeds-bind (Succeeds-setup_tailscale a.namespace a.name a.tailscale H) λ _.
              Succeeds-bind (Succeeds-create_or_patch_wrapped S L H _ _ _)
                λ _. Succeeds-create_or_patch S L H _ _

module _ (namespace name : String) (S : Server) (L : IsLawful S) where
  pub Clears-delete_metabase :
      Clears S L (metabase_removed namespace name) (delete_metabase namespace name)
  unfolding delete_metabase
  Clears-delete_metabase = Clears-bind S L (Clears-delete_if_present S L _) λ _.
      Clears-bind S L (Clears-delete_if_present S L _) λ _.
        Clears-bind S L (Clears-delete_if_present S L _) λ _.
          Clears-bind S L {ks = tailscale_keys namespace name "metabase"}
            (Clears-delete_tailscale_resources namespace name "metabase" S L)
            λ _. Clears-bind S L (Clears-delete_if_present S L _) λ _.
              Clears-bind S L (Clears-delete_if_present S L _) λ _. Clears-delete_if_present S L _

  pub Succeeds-delete_metabase : IsHealthy S → Succeeds S (delete_metabase namespace name)
  unfolding delete_metabase
  Succeeds-delete_metabase H =
      let gone = Succeeds-delete_if_present S L H in
      Succeeds-bind (gone _) λ _. Succeeds-bind (gone _) λ _. Succeeds-bind (gone _) λ _.
        Succeeds-bind (Succeeds-delete_tailscale_resources namespace name "metabase" S L H)
          λ _. Succeeds-bind (gone _) λ _. Succeeds-bind (gone _) λ _. gone _

pub Only-delete_metabase :
    (namespace name : String) → Only (Removes namespace name) (delete_metabase namespace name)
unfolding delete_metabase
Only-delete_metabase namespace name =
    Only-bind (Only-delete_if_present _ ((refl, ("metabase", refl)), refl)) λ _.
      Only-bind (Only-delete_if_present _ ((refl, ("metabase", refl)), refl)) λ _.
        Only-bind (Only-delete_if_present _ ((refl, ("metabase-data", refl)), refl)) λ _.
          Only-bind (Only-delete_tailscale_resources namespace name "metabase") λ _.
            Only-bind
              (Only-delete_if_present _
                (InScope-twice namespace name "metabase" "-tailscale" role, refl))
              λ _.
                Only-bind
                  (Only-delete_if_present _
                    (InScope-twice namespace name "metabase" "-tailscale" role_binding, refl))
                  λ _. Only-delete_if_present _ ((refl, ("metabase", refl)), refl)

-- On a lawful server with no fault of its own the creation of a Metabase instance, none of whose
-- creations and patches the server answers with 422, returns from every state of the cluster, and
-- then its account, claim, secret, deployment, service and, if it has one, the objects of its
-- sidecar are stored.
pub create_metabase-total :
    (S : Server) (py : Python) (a : MetabaseArgs) (s : S.State)
    → IsLawful S
    → IsHealthy S
    → Accepts S (create_metabase py a) s
    → ((run S (create_metabase py a) s).result ≡ ok tt)
      × All (λ k. IsStored (S.find (run S (create_metabase py a) s).state k)) (metabase_keys a)
create_metabase-total S py a s L H w =
    let e = ((Succeeds-create_metabase py S L H a).at s w).1 in
    (e, (Builds-create_metabase py S L a).done s e)
