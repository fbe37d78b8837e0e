-- ===== src/Main/Creation/Rules.antt =====
-- What each step of the creation leaves stored.
use odoo_operator.Base.{
  true, false, ◌&&◌, PyInt, String, refl, Bool, Option, none, some, List, [], ◌∷◌, ◌++◌,
  if◌then◌else◌, truthy_opt, get_or,
}
use odoo_operator.Prog.{Key, now, Request, Prog, when}
use odoo_operator.Prog.Only.{
  Only, Only-bind, Only-ret, Only-raise, Only-when, Only-request, Only-as_text, Only-set_status,
  Only-set_endpoint,
}
use odoo_operator.Server.{Server, IsLawful}
use odoo_operator.Kube.Effects.{Builds, Builds-bind, Builds-Only, Builds-when, Builds-then}
use odoo_operator.Python.{Python}
use odoo_operator.Spec.{no_s3}
use odoo_operator.Spec.Parts.{valkey_of, bi_of, cloudflare_of, backup_of, if_enabled, is_enabled}
use odoo_operator.Database.Rules.{database_keys, Builds-create_database, Only-create_database}
use odoo_operator.Valkey.Rules.{valkey_keys, Builds-create_valkey, Only-create_valkey}
use odoo_operator.Metabase.Rules.{metabase_keys, Builds-create_metabase, Only-create_metabase}
use odoo_operator.Odoo.Rules.{odoo_keys, Builds-create_odoo, Only-create_odoo}
use odoo_operator.DbInit.Rules.{job_keys, Builds-create_db_init_job, Only-create_db_init_job}
use odoo_operator.Cloudflare.Rules.{
  tunnel_keys, Builds-create_cloudflare_tunnel, Only-create_cloudflare_tunnel,
}
use odoo_operator.FilestoreBackup.Rules.{
  Builds-create_filestore_backup_job, Only-create_filestore_backup_job,
}
use odoo_operator.FilestoreBackup.{cron_key, create_filestore_backup_job}
use odoo_operator.Odoo.{create_odoo}
use odoo_operator.Metabase.{create_metabase}
use odoo_operator.DbInit.{create_db_init_job}
use odoo_operator.Cloudflare.{create_cloudflare_tunnel}
use odoo_operator.Scope.{Provisions}
use odoo_operator.Main.Creation.{
  Cluster, touch, database_step, valkey_step, metabase_step, init_step, odoo_step, tunnel_step,
  tunnel_status, backup_step, finish_step, create_all, metabase_args, job_args, odoo_args,
  tunnel_args, wants_backup, days_of, retention_days, backup_args,
}

-- The objects of a cluster, in the order of their creation.
unfoldable pub cluster_keys : Cluster → List Key
cluster_keys c =
    database_keys c.namespace c.name (if_enabled (backup_of c.spec).enabled (backup_of c.spec))
    ++ ((if is_enabled (valkey_of c.spec).enabled then valkey_keys c.namespace c.name else [])
        ++ ((if is_enabled (bi_of c.spec).enabled then metabase_keys (metabase_args c) else [])
            ++ (job_keys (job_args c)
                ++ (odoo_keys (odoo_args c)
                    ++ ((if is_enabled (cloudflare_of c.spec).enabled
                          then tunnel_keys c.namespace c.name
                          else [])
                        ++ (if wants_backup c.spec
                            then cron_key c.namespace c.name ∷ []
                            else []))))))

module _ {P : Request → Type 0} where
  pub Only-touch : P now → Only P touch
  unfolding touch
  Only-touch p =
      Only-bind (Only-request _ p) λ v. Only-bind (Only-as_text v) λ t. Only-set_status _ _

  Only-tunnel_status : (c : Cluster) → Only P (tunnel_status c)
  unfolding tunnel_status
  Only-tunnel_status c =
      Only-bind (Only-when _ (Only-set_endpoint _ _))
        λ _. Only-bind (Only-when _ (Only-set_endpoint _ _)) λ _. Only-set_status _ _

  Only-days_of : (py : Python) (literal : String) (n : Option PyInt) → Only P (days_of py literal n)
  unfolding days_of
  Only-days_of py literal (some n) = Only-ret _
  Only-days_of py literal none = Only-raise _

  Only-finish_step : P now → Only P finish_step
  unfolding finish_step
  Only-finish_step p =
      Only-bind (Only-set_status _ _) λ _. Only-bind (Only-set_status _ _) λ _. Only-touch p

module _ (S : Server) (L : IsLawful S) (c : Cluster) where
  Builds-database_step :
      Builds S L
        (database_keys c.namespace c.name
          (if_enabled (backup_of c.spec).enabled (backup_of c.spec)))
        (database_step c)
  unfolding database_step
  Builds-database_step =
      Builds-then S L (Builds-create_database _ _ _ _ _ _ _ _ S L) λ _. Only-set_status _ _

  Builds-valkey_step :
      Builds S L
        (if is_enabled (valkey_of c.spec).enabled then valkey_keys c.namespace c.name else [])
        (valkey_step c)
  unfolding valkey_step
  Builds-valkey_step = Builds-when S L _ (Builds-create_valkey _ _ _ _ _ S L)

  Builds-both :
      (wanted useful : Bool) (ks : List Key) {m : Prog Unit}
      → Builds S L (if useful then ks else []) m
      → Builds S L (if wanted && useful then ks else []) (when (wanted && useful) m)
  Builds-both true true ks d = d
  Builds-both true false ks d = Builds-Only S L (Only-ret tt)
  Builds-both false useful ks d = Builds-Only S L (Only-ret tt)

  Builds-backup_step :
      (py : Python)
      → Builds S L
          (if wants_backup c.spec then cron_key c.namespace c.name ∷ [] else [])
          (backup_step py c)
  unfolding backup_step retention_days backup_args
  Builds-backup_step py =
      let b = backup_of c.spec in
      Builds-both (is_enabled b.enabled) (truthy_opt (get_or b.s3 no_s3).bucket)
        (cron_key c.namespace c.name ∷ [])
        (Builds-bind S L {ks = []} (Builds-Only S L (Only-days_of py _ _)) λ days.
          Builds-then S L (Builds-create_filestore_backup_job _ S L) λ _. Only-set_status _ _)

  module _ (py : Python) where
    Builds-metabase_step :
        Builds S L
          (if is_enabled (bi_of c.spec).enabled then metabase_keys (metabase_args c) else [])
          (metabase_step py c)
    unfolding metabase_step
    Builds-metabase_step =
        Builds-when S L _ (
          Builds-then S L (Builds-create_metabase py S L _)
            λ _. Only-when _ (Only-set_endpoint _ _))

    Builds-init_step : Builds S L (job_keys (job_args c)) (init_step py c)
    unfolding init_step
    Builds-init_step = Builds-then S L (Builds-create_db_init_job py S L _) λ _. Only-set_status _ _

    Builds-odoo_step : Builds S L (odoo_keys (odoo_args c)) (odoo_step py c)
    unfolding odoo_step
    Builds-odoo_step =
        Builds-then S L (Builds-create_odoo py S L _) λ _. Only-when _ (Only-set_endpoint _ _)

    Builds-tunnel_step :
        Builds S L
          (if is_enabled (cloudflare_of c.spec).enabled then tunnel_keys c.namespace c.name else [])
          (tunnel_step py c)
    unfolding tunnel_step tunnel_args
    Builds-tunnel_step =
        Builds-when S L _
          (Builds-then S L (Builds-create_cloudflare_tunnel py S L _) λ _. Only-tunnel_status c)

    pub Builds-create_all : Builds S L (cluster_keys c) (create_all py c)
    unfolding create_all cluster_keys
    Builds-create_all = Builds-bind S L Builds-database_step λ _.
        Builds-bind S L Builds-valkey_step λ _. Builds-bind S L Builds-metabase_step λ _.
          Builds-bind S L Builds-init_step λ _. Builds-bind S L Builds-odoo_step λ _.
            Builds-bind S L Builds-tunnel_step
              λ _. Builds-then S L (Builds-backup_step py) λ _. Only-finish_step tt

-- Every step stays within the cluster's own objects.
module _ (c : Cluster) where
  Only-backup_part :
      (days : String)
      → Only (Provisions c.namespace c.name) (create_filestore_backup_job (backup_args c days))
  unfolding backup_args
  Only-backup_part days = Only-create_filestore_backup_job (backup_args c days)

  Only-backup_step : (py : Python) → Only (Provisions c.namespace c.name) (backup_step py c)
  unfolding backup_step retention_days
  Only-backup_step py = Only-when _ (
      Only-bind (Only-days_of py _ _)
        λ days. Only-bind (Only-backup_part days) λ _. Only-set_status _ _)

  Only-init_part :
      (py : Python) → Only (Provisions c.namespace c.name) (create_db_init_job py (job_args c))
  unfolding job_args
  Only-init_part py = Only-create_db_init_job py (job_args c) refl

  Only-odoo_part :
      (py : Python) → Only (Provisions c.namespace c.name) (create_odoo py (odoo_args c))
  unfolding odoo_args
  Only-odoo_part py = Only-create_odoo py (odoo_args c)

  Only-metabase_part :
      (py : Python) → Only (Provisions c.namespace c.name) (create_metabase py (metabase_args c))
  unfolding metabase_args
  Only-metabase_part py = Only-create_metabase py (metabase_args c)

  Only-tunnel_part :
      (py : Python)
      → Only (Provisions c.namespace c.name) (create_cloudflare_tunnel py (tunnel_args c))
  unfolding tunnel_args
  Only-tunnel_part py = Only-create_cloudflare_tunnel py (tunnel_args c)

  pub Only-create_all : (py : Python) → Only (Provisions c.namespace c.name) (create_all py c)
  unfolding create_all database_step valkey_step metabase_step init_step odoo_step tunnel_step
  Only-create_all py =
      Only-bind
        (Only-bind (Only-create_database c.namespace c.name _ _ _ _ _ _) λ _. Only-set_status _ _)
        λ _. Only-bind (Only-when _ (Only-create_valkey c.namespace c.name _ _ _)) λ _.
          Only-bind
            (Only-when _
              (Only-bind (Only-metabase_part py) λ _. Only-when _ (Only-set_endpoint _ _)))
            λ _. Only-bind (Only-bind (Only-init_part py) λ _. Only-set_status _ _) λ _.
              Only-bind (Only-bind (Only-odoo_part py) λ _. Only-when _ (Only-set_endpoint _ _))
                λ _.
                  Only-bind
                    (Only-when _ (Only-bind (Only-tunnel_part py) λ _. Only-tunnel_status c))
                    λ _. Only-bind (Only-backup_step py) λ _. Only-finish_step tt
