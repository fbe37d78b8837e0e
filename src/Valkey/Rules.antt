-- ===== src/Valkey/Rules.antt =====
-- What the Valkey handlers request, and the objects that they leave stored or gone.
use odoo_operator.Base.{String, refl, Option, List, [], ◌∷◌}
use odoo_operator.Prog.{Key}
use odoo_operator.Prog.Only.{Only, Only-bind}
use odoo_operator.Server.{Server, IsLawful, IsHealthy}
use odoo_operator.Server.Rules.{Succeeds, Succeeds-bind}
use odoo_operator.Kube.Requests.{
  Only-delete_if_present, Only-create_or_patch, Only-create_or_patch_wrapped,
}
use odoo_operator.Kube.Effects.{
  Builds-bind, Clears-bind, Builds, Clears, Builds-create_or_patch, Builds-create_or_patch_wrapped,
  Clears-delete_if_present,
}
use odoo_operator.Kube.Returns.{
  Succeeds-create_or_patch, Succeeds-create_or_patch_wrapped, Succeeds-delete_if_present,
}
use odoo_operator.Dynamic.{get_in}
use odoo_operator.Scope.{Provisions, Removes, metadata_of}
use odoo_operator.Spec.{Resources}
use odoo_operator.Owner.{OwnerRef}
use odoo_operator.Valkey.{
  service_key, set_key, service_body, set_body, valkey_set, create_valkey, delete_valkey,
}

abbrev pub valkey_keys : String → String → List Key
valkey_keys namespace name = service_key namespace name ∷ set_key namespace name ∷ []

module _ (namespace name storage : String) (resources : Option Resources)
    (owner_ref : Option OwnerRef) where
  pub Only-create_valkey :
      Only (Provisions namespace name) (create_valkey namespace name storage resources owner_ref)
  unfolding create_valkey service_body valkey_set set_body metadata_of get_in
  Only-create_valkey =
      Only-bind
        (Only-create_or_patch _ _ ((refl, ("valkey", refl)), (refl, refl))
          ((refl, ("valkey", refl)), refl, (refl, refl)))
        λ _.
          Only-create_or_patch_wrapped _ _ _ ((refl, ("valkey", refl)), (refl, refl))
            ((refl, ("valkey", refl)), refl, (refl, refl))

  module _ (S : Server) (L : IsLawful S) where
    pub Builds-create_valkey :
        Builds S L
          (valkey_keys namespace name)
          (create_valkey namespace name storage resources owner_ref)
    unfolding create_valkey
    Builds-create_valkey =
        Builds-bind S L (Builds-create_or_patch S L _ _)
          λ _. Builds-create_or_patch_wrapped S L _ _ _

    pub Succeeds-create_valkey :
        IsHealthy S → Succeeds S (create_valkey namespace name storage resources owner_ref)
    unfolding create_valkey
    Succeeds-create_valkey H =
        Succeeds-bind (Succeeds-create_or_patch S L H _ _)
          λ _. Succeeds-create_or_patch_wrapped S L H _ _ _

module _ (namespace name : String) (S : Server) (L : IsLawful S) where
  pub Clears-delete_valkey :
      Clears S L
        (set_key namespace name ∷ service_key namespace name ∷ [])
        (delete_valkey namespace name)
  unfolding delete_valkey
  Clears-delete_valkey =
      Clears-bind S L (Clears-delete_if_present S L _) λ _. Clears-delete_if_present S L _

  pub Succeeds-delete_valkey : IsHealthy S → Succeeds S (delete_valkey namespace name)
  unfolding delete_valkey
  Succeeds-delete_valkey H =
      Succeeds-bind (Succeeds-delete_if_present S L H _) λ _. Succeeds-delete_if_present S L H _

pub Only-delete_valkey :
    (namespace name : String) → Only (Removes namespace name) (delete_valkey namespace name)
unfolding delete_valkey
Only-delete_valkey namespace name =
    Only-bind (Only-delete_if_present _ ((refl, ("valkey", refl)), refl))
      λ _. Only-delete_if_present _ ((refl, ("valkey", refl)), refl)
