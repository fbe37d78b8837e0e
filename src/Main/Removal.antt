-- ===== src/Main/Removal.antt =====
-- The objects that `on_delete` removes, and that it returns.
use odoo_operator.Base.{String, ◌≡◌, List, [], ◌∷◌, ◌++◌, All, if◌then◌else◌}
use odoo_operator.Prog.{Key, ok}
use odoo_operator.Server.{Server, IsLawful, IsHealthy, IsGone}
use odoo_operator.Server.Accepted.{Accepts-Only}
use odoo_operator.Server.Lasting.{NoCreate-IsAccepted}
use odoo_operator.Server.Run.{run}
use odoo_operator.Server.Rules.{Succeeds, Succeeds-bind, Succeeds-when}
use odoo_operator.Kube.Effects.{Clears, Clears-bind, Clears-when}
use odoo_operator.Spec.{ClusterSpec}
use odoo_operator.Spec.Parts.{valkey_of, bi_of, cloudflare_of, is_enabled}
use odoo_operator.Database.{db_key, backup_key}
use odoo_operator.Database.Rules.{Clears-delete_database, Succeeds-delete_database}
use odoo_operator.Valkey
use odoo_operator.Valkey.Rules.{Clears-delete_valkey, Succeeds-delete_valkey}
use odoo_operator.Metabase.Rules.{
  metabase_removed, Clears-delete_metabase, Succeeds-delete_metabase,
}
use odoo_operator.Odoo.Rules.{odoo_removed, Clears-delete_odoo, Succeeds-delete_odoo}
use odoo_operator.DbInit.{job_key}
use odoo_operator.DbInit.Rules.{Clears-delete_db_init_job, Succeeds-delete_db_init_job}
use odoo_operator.Cloudflare
use odoo_operator.Cloudflare.Rules.{
  Clears-delete_cloudflare_tunnel, Succeeds-delete_cloudflare_tunnel,
}
use odoo_operator.Main.{on_delete}

-- What a deletion removes, in its order.
pub removed_keys : ClusterSpec → String → String → List Key
removed_keys spec name namespace =
    (if is_enabled (cloudflare_of spec).enabled
      then Cloudflare.deployment_key namespace name ∷ Cloudflare.config_key namespace name ∷ []
      else [])
    ++ ((if is_enabled (bi_of spec).enabled then metabase_removed namespace name else [])
        ++ (odoo_removed namespace name
            ++ (job_key namespace name
                ∷ ((if is_enabled (valkey_of spec).enabled
                      then Valkey.set_key namespace name ∷ Valkey.service_key namespace name ∷ []
                      else [])
                    ++ (backup_key namespace name ∷ db_key namespace name ∷ [])))))

module _ (S : Server) (L : IsLawful S) (spec : ClusterSpec) (name namespace : String) where
  pub Clears-on_delete :
      Clears S L (removed_keys spec name namespace) (on_delete spec name namespace)
  unfolding on_delete removed_keys
  Clears-on_delete =
      Clears-bind S L (Clears-when S L _ (Clears-delete_cloudflare_tunnel namespace name S L)) λ _.
        Clears-bind S L (Clears-when S L _ (Clears-delete_metabase namespace name S L)) λ _.
          Clears-bind S L (Clears-delete_odoo namespace name S L) λ _.
            Clears-bind S L (Clears-delete_db_init_job namespace name S L) λ _.
              Clears-bind S L (Clears-when S L _ (Clears-delete_valkey namespace name S L))
                λ _. Clears-delete_database namespace name S L

  Succeeds-on_delete : IsHealthy S → Succeeds S (on_delete spec name namespace)
  unfolding on_delete
  Succeeds-on_delete H =
      Succeeds-bind (Succeeds-when _ (Succeeds-delete_cloudflare_tunnel namespace name S L H)) λ _.
        Succeeds-bind (Succeeds-when _ (Succeeds-delete_metabase namespace name S L H)) λ _.
          Succeeds-bind (Succeeds-delete_odoo namespace name S L H) λ _.
            Succeeds-bind (Succeeds-delete_db_init_job namespace name S L H) λ _.
              Succeeds-bind (Succeeds-when _ (Succeeds-delete_valkey namespace name S L H))
                λ _. Succeeds-delete_database namespace name S L H

-- A deletion that returns has removed every object of the cluster that it names, or has marked it
-- for deletion, on any lawful server.
pub on_delete-removed :
    (S : Server) (spec : ClusterSpec) (name namespace : String) (s : S.State)
    → IsLawful S
    → (run S (on_delete spec name namespace) s).result ≡ ok tt
    → All
        (λ k. IsGone (S.find (run S (on_delete spec name namespace) s).state k))
        (removed_keys spec name namespace)
on_delete-removed S spec name namespace s L h = (Clears-on_delete S L spec name namespace).done s h

-- On a lawful server with no fault of its own a deletion returns, from every state of the cluster,
-- and has removed every object that it names or marked it for deletion.
pub on_delete-total :
    (S : Server) (spec : ClusterSpec) (name namespace : String) (s : S.State)
    → IsLawful S
    → IsHealthy S
    → ((run S (on_delete spec name namespace) s).result ≡ ok tt)
      × All
          (λ k. IsGone (S.find (run S (on_delete spec name namespace) s).state k))
          (removed_keys spec name namespace)
on_delete-total S spec name namespace s L H =
    let e =
      ((Succeeds-on_delete S L spec name namespace H).at s (
        Accepts-Only (NoCreate-IsAccepted S) (Clears-on_delete S L spec name namespace).only
          s)).1 in
    (e, on_delete-removed S spec name namespace s L e)
