-- ===== src/Main/Creation/Phase.antt =====
-- The creation's last step, and that the creation returns.
use odoo_operator.Base.{
  String, ◌≡◌, refl, sym, subst, arith, Bool, false, some, text_of, int_text, PyInt, get_or,
}
use odoo_operator.Value.{str}
use odoo_operator.Prog.{Prog, when, now, ok, ◌>>=◌, request, as_text, set_status}
use odoo_operator.Server.{Server, IsLawful, IsHealthy, HasClock}
use odoo_operator.Server.Run.{run}
use odoo_operator.Server.Rules.{
  IsTotal, Succeeds-total, Succeeds, Succeeds-bind, Succeeds-ret, Succeeds-when,
  Succeeds-set_status, Succeeds-set_endpoint,
}
use odoo_operator.Server.Writes.{
  Silent, Leaves, LeavesOk, LeavesOk-bind, Silent-bind, Silent-request, Silent-as_text,
  Silent-set_status, Leaves-set_status,
}
use odoo_operator.Python.{Python}
use odoo_operator.Spec.{ClusterSpec}
use odoo_operator.Spec.Parts.{cloudflare_of, backup_of, is_enabled}
use odoo_operator.Database.Rules.{Succeeds-create_database}
use odoo_operator.Valkey.Rules.{Succeeds-create_valkey}
use odoo_operator.Metabase.Rules.{Succeeds-create_metabase}
use odoo_operator.Odoo.Rules.{Succeeds-create_odoo}
use odoo_operator.DbInit.Rules.{Succeeds-create_db_init_job}
use odoo_operator.FilestoreBackup.Rules.{Succeeds-create_filestore_backup_job}
use odoo_operator.Main.Creation.{
  metabase_args, job_args, odoo_args, backup_args, retention_days, days_of, days_number,
  number_part, Cluster, touch, database_step, valkey_step, metabase_step, init_step, odoo_step,
  tunnel_step, backup_step, finish_step, create_all,
}

module _ (S : Server) where
  pub Silent-touch : Silent S touch
  unfolding touch
  Silent-touch =
      Silent-bind (Silent-request now)
        λ v. Silent-bind (Silent-as_text v) λ t. Silent-set_status _ _ refl

  touch-ok :
      (s : S.State) {t : String} → (S.respond now s).0 ≡ ok (str t) → (run S touch s).result ≡ ok tt
  unfolding touch request as_text set_status ◌>>=◌ run
  touch-ok s e = ground arith

  pub IsTotal-touch : HasClock S → IsTotal S touch
  IsTotal-touch C = record { at = λ s. let (t, e) = C.tell_time s in (tt, touch-ok s e) }

  pub Succeeds-touch : IsHealthy S → Succeeds S touch
  Succeeds-touch H = Succeeds-total (IsTotal-touch H.clock)

  Leaves-finish_step : Leaves S (str "Initializing") finish_step
  unfolding finish_step
  Leaves-finish_step =
      Leaves-set_status (str "Initializing")
        (Silent-bind (Silent-set_status _ _ refl) λ _. Silent-touch)

  pub LeavesOk-create_all :
      (py : Python) (c : Cluster) → LeavesOk S (str "Initializing") (create_all py c)
  unfolding create_all
  LeavesOk-create_all py c =
      let v = str "Initializing" in
      LeavesOk-bind S v (database_step c) λ _. LeavesOk-bind S v (valkey_step c) λ _.
        LeavesOk-bind S v (metabase_step py c) λ _. LeavesOk-bind S v (init_step py c) λ _.
          LeavesOk-bind S v (odoo_step py c) λ _. LeavesOk-bind S v (tunnel_step py c) λ _.
            LeavesOk-bind S v (backup_step py c)
              λ _. record { last_ok = λ s h. Leaves-finish_step.last s }

module _ {S : Server} where
  Succeeds-unless : {b : Bool} (m : Prog Unit) → b ≡ false → Succeeds S (when b m)
  Succeeds-unless m e = subst (λ b. Succeeds S (when b m)) (sym e) (Succeeds-ret tt)

-- The spec asks for no tunnel, whose secret may be missing, and the retention policy is a number.
pub record IsPlain (spec : ClusterSpec) : Type 0 where
  pub no_tunnel : is_enabled (cloudflare_of spec).enabled ≡ false
  pub policy_days : PyInt
  pub policy_parses :
      days_number (get_or (backup_of spec).retention_policy "30d") ≡ some policy_days

-- The steps that return whatever the spec is.
module _ (S : Server) (L : IsLawful S) (H : IsHealthy S) (c : Cluster) where
  pub Succeeds-database_step : Succeeds S (database_step c)
  unfolding database_step
  Succeeds-database_step =
      Succeeds-bind (Succeeds-create_database c.namespace c.name _ _ _ _ _ _ S L H)
        λ _. Succeeds-set_status _ _

  pub Succeeds-valkey_step : Succeeds S (valkey_step c)
  unfolding valkey_step
  Succeeds-valkey_step = Succeeds-when _ (Succeeds-create_valkey c.namespace c.name _ _ _ S L H)

  pub Succeeds-metabase_step : (py : Python) → Succeeds S (metabase_step py c)
  unfolding metabase_step
  Succeeds-metabase_step py = Succeeds-when _ (
      Succeeds-bind (Succeeds-create_metabase py S L H (metabase_args c))
        λ _. Succeeds-when _ (Succeeds-set_endpoint _ _))

  pub Succeeds-init_step : (py : Python) → Succeeds S (init_step py c)
  unfolding init_step
  Succeeds-init_step py =
      Succeeds-bind (Succeeds-create_db_init_job py S L H (job_args c)) λ _. Succeeds-set_status _ _

  pub Succeeds-odoo_step : (py : Python) → Succeeds S (odoo_step py c)
  unfolding odoo_step
  Succeeds-odoo_step py =
      Succeeds-bind (Succeeds-create_odoo py S L H (odoo_args c))
        λ _. Succeeds-when _ (Succeeds-set_endpoint _ _)

  pub Succeeds-no_tunnel :
      (py : Python)
      → is_enabled (cloudflare_of c.spec).enabled ≡ false
      → Succeeds S (tunnel_step py c)
  unfolding tunnel_step
  Succeeds-no_tunnel py e = Succeeds-unless _ e

  Succeeds-finish_step : Succeeds S finish_step
  unfolding finish_step
  Succeeds-finish_step =
      Succeeds-bind (Succeeds-set_status _ _)
        λ _. Succeeds-bind (Succeeds-set_status _ _) λ _. Succeeds-touch S H

module _ (S : Server) (L : IsLawful S) (H : IsHealthy S) (c : Cluster) (p : IsPlain c.spec) where
  Succeeds-retention_days :
      (py : Python)
      → Succeeds S (retention_days py (get_or (backup_of c.spec).retention_policy "30d"))
  unfolding retention_days days_of
  Succeeds-retention_days py =
      subst
        (λ n.
          Succeeds S (
            days_of py (text_of (number_part (get_or (backup_of c.spec).retention_policy "30d")))
              n))
        (sym p.policy_parses) (Succeeds-ret (int_text p.policy_days))

  Succeeds-backup_step : (py : Python) → Succeeds S (backup_step py c)
  unfolding backup_step
  Succeeds-backup_step py = Succeeds-when _ (
      Succeeds-bind (Succeeds-retention_days py) λ days.
        Succeeds-bind (Succeeds-create_filestore_backup_job (backup_args c days) S L H)
          λ _. Succeeds-set_status _ _)

  pub Succeeds-create_all : (py : Python) → Succeeds S (create_all py c)
  unfolding create_all
  Succeeds-create_all py = Succeeds-bind (Succeeds-database_step S L H c) λ _.
      Succeeds-bind (Succeeds-valkey_step S L H c) λ _.
        Succeeds-bind (Succeeds-metabase_step S L H c py) λ _.
          Succeeds-bind (Succeeds-init_step S L H c py) λ _.
            Succeeds-bind (Succeeds-odoo_step S L H c py) λ _.
              Succeeds-bind (Succeeds-no_tunnel S L H c py p.no_tunnel)
                λ _. Succeeds-bind (Succeeds-backup_step py) λ _. Succeeds-finish_step S L H c
