-- ===== src/Database/Rules.antt =====
-- The objects that the database handler may write, and those that it leaves stored or gone.
use odoo_operator.Base.{refl, ℕ, String, Option, List, [], ◌∷◌, if◌then◌else◌}
use odoo_operator.Prog.{Key}
use odoo_operator.Prog.Only.{Only, Only-bind, Only-when}
use odoo_operator.Prog.Reader.{
  Reader, Reader-bind, Reader-catch, Reader-ret, Reader-raise, Reader-if, Reader-request,
}
use odoo_operator.Dynamic.Rules.{Reader-get_value}
use odoo_operator.Base.{false}
use odoo_operator.Database.{healthy, check_database_ready}
use odoo_operator.Server.{Server, IsLawful, IsHealthy}
use odoo_operator.Server.Rules.{Succeeds, Succeeds-bind, Succeeds-when}
use odoo_operator.Kube.Requests.{
  Only-delete_if_present, Only-create_or_patch_wrapped, Only-delete_if_present,
}
use odoo_operator.Kube.Effects.{
  Builds-bind, Clears-bind, Builds-when, Builds, Clears, Builds-create_or_patch_wrapped,
  Clears-delete_if_present,
}
use odoo_operator.Kube.Returns.{Succeeds-create_or_patch_wrapped, Succeeds-delete_if_present}
use odoo_operator.Value.{Value}
use odoo_operator.Dynamic.{get_in}
use odoo_operator.Scope.{Provisions, Removes, metadata_of}
use odoo_operator.Spec.{Resources, Backup}
use odoo_operator.Owner.{OwnerRef}
use odoo_operator.Database.{
  db_key, backup_key, has_bucket, create_scheduled_backup, create_database, delete_database,
}

-- The objects of a database that is created with these arguments.
abbrev pub database_keys : String → String → Option Backup → List Key
database_keys namespace name backup =
    db_key namespace name ∷ (if has_bucket backup then backup_key namespace name ∷ [] else [])

module _ (namespace name storage : String) (storage_class_name : Option String) (instances : ℕ)
    (resources : Option Resources) (backup : Option Backup) (owner_ref : Option OwnerRef) where
  pub Only-create_database : Only (Provisions namespace name) (
      create_database namespace name storage storage_class_name instances resources backup
        owner_ref)
  unfolding create_database create_scheduled_backup metadata_of get_in
  Only-create_database =
      Only-bind
        (Only-create_or_patch_wrapped _ _ _ ((refl, ("db", refl)), (refl, refl))
          ((refl, ("db", refl)), refl, (refl, refl)))
        λ _. Only-when _ (
          Only-create_or_patch_wrapped _ _ _ ((refl, ("db-backup", refl)), (refl, refl))
            ((refl, ("db-backup", refl)), refl, (refl, refl)))

  module _ (S : Server) (L : IsLawful S) where
    pub Builds-create_database : Builds S L (database_keys namespace name backup) (
        create_database namespace name storage storage_class_name instances resources backup
          owner_ref)
    unfolding create_database create_scheduled_backup
    Builds-create_database =
        Builds-bind S L (Builds-create_or_patch_wrapped S L _ _ _)
          λ _. Builds-when S L _ (Builds-create_or_patch_wrapped S L _ _ _)

    pub Succeeds-create_database :
        IsHealthy S
        → Succeeds S (
            create_database namespace name storage storage_class_name instances resources backup
              owner_ref)
    unfolding create_database create_scheduled_backup
    Succeeds-create_database H =
        Succeeds-bind (Succeeds-create_or_patch_wrapped S L H _ _ _)
          λ _. Succeeds-when _ (Succeeds-create_or_patch_wrapped S L H _ _ _)

module _ (namespace name : String) (S : Server) (L : IsLawful S) where
  pub Clears-delete_database :
      Clears S L
        (backup_key namespace name ∷ db_key namespace name ∷ [])
        (delete_database namespace name)
  unfolding delete_database
  Clears-delete_database =
      Clears-bind S L (Clears-delete_if_present S L _) λ _. Clears-delete_if_present S L _

  pub Succeeds-delete_database : IsHealthy S → Succeeds S (delete_database namespace name)
  unfolding delete_database
  Succeeds-delete_database H =
      Succeeds-bind (Succeeds-delete_if_present S L H _) λ _. Succeeds-delete_if_present S L H _

pub Only-delete_database :
    (namespace name : String) → Only (Removes namespace name) (delete_database namespace name)
unfolding delete_database
Only-delete_database namespace name =
    Only-bind (Only-delete_if_present _ ((refl, ("db-backup", refl)), refl))
      λ _. Only-delete_if_present _ ((refl, ("db", refl)), refl)

Reader-healthy : (cluster : Value) → Reader (healthy cluster)
unfolding healthy
Reader-healthy cluster =
    Reader-bind (Reader-get_value cluster _ _)
      λ status. Reader-bind (Reader-get_value status _ _) λ phase. Reader-ret _

pub Reader-check_database_ready :
    (namespace name : String) → Reader (check_database_ready namespace name)
unfolding check_database_ready
Reader-check_database_ready namespace name =
    Reader-catch (Reader-bind (Reader-request _ tt) Reader-healthy)
      λ e. Reader-if _ (Reader-ret false) (Reader-raise e)
