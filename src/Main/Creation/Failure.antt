-- ===== src/Main/Creation/Failure.antt =====
-- The steps of the creation where one of them raises: a retention policy that is no number of days.
use Prim.Native.Char.{Char, code}
use odoo_operator.Base.{
  String, ◌<>◌, ◌≡◌, refl, sym, subst, ap, ◌∙◌, Bool, true, false, ◌==◌, [], ◌∷◌, get_or, text_of,
}
use odoo_operator.Base.Strip.{IsUnit}
use odoo_operator.Prog.{Exn, value_error, err, Prog, raise, ◌>>=◌, when}
use odoo_operator.Server.{Server, IsLawful, IsHealthy}
use odoo_operator.Server.Accepted.{Accepts, Accepts-first, Accepts-second}
use odoo_operator.Server.Run.{run}
use odoo_operator.Server.Rules.{Succeeds, bind_ok, bind_err}
use odoo_operator.Python.{Python}
use odoo_operator.Spec.{ClusterSpec}
use odoo_operator.Spec.Parts.{backup_of, cloudflare_of, is_enabled}
use odoo_operator.Main.Creation.{Cluster, wants_backup, retention_days, backup_step, create_all}
use odoo_operator.Main.Creation.Retention.{retention_days-refused}
use odoo_operator.Main.Creation.Phase.{
  Succeeds-database_step, Succeeds-valkey_step, Succeeds-metabase_step, Succeeds-init_step,
  Succeeds-odoo_step, Succeeds-no_tunnel,
}

-- The program raises this exception, from every state from which the server finds no body invalid.
pub record Fails (S : Server) (x : Exn) {A : Type 0} (m : Prog A) : Type 0 where
  pub at : (s : S.State) → Accepts S m s → (run S m s).result ≡ err x

module _ {S : Server} {x : Exn} where
  pub Fails-then :
      {A B : Type 0} {m : Prog A} {n : Prog B}
      → Succeeds S m
      → Fails S x n
      → Fails S x (m >>= λ _. n)
  Fails-then {m = m} {n = n} c d = record {
    at = λ s w.
        let (a, e) = c.at s (Accepts-first m (λ _. n) w) in
        ap (λ o. o.result) (bind_ok S m (λ _. n) s e)
        ∙ d.at (run S m s).state (Accepts-second m (λ _. n) w e);
  }

  Fails-bind : {A B : Type 0} {m : Prog A} (f : A → Prog B) → Fails S x m → Fails S x (m >>= f)
  Fails-bind {m = m} f d = record {
    at = λ s w. ap (λ o. o.result) (bind_err S m f s (d.at s (Accepts-first m f w)));
  }

  Fails-when : {b : Bool} {m : Prog Unit} → b ≡ true → Fails S x m → Fails S x (when b m)
  Fails-when {m = m} e d = subst (λ b. Fails S x (when b m)) (sym e) d

Fails-raise : (S : Server) (x : Exn) → Fails S x {A = String} (raise x)
unfolding run
Fails-raise S x = record { at = λ s w. refl }

-- The policy ends in a unit that is not `d`.
pub record HasOtherUnit (spec : ClusterSpec) : Type 0 where
  pub amount : String
  pub unit : Char
  pub is_unit : IsUnit unit
  pub not_days : (code unit == b'd') ≡ false
  pub policy : get_or (backup_of spec).retention_policy "30d" ≡ amount <> text_of (unit ∷ [])

-- What `int()` raises on the policy of a spec.
abbrev pub not_a_number : Python → ClusterSpec → String
not_a_number py spec = py.int_error (get_or (backup_of spec).retention_policy "30d")

module _ (S : Server) (L : IsLawful S) (H : IsHealthy S) (c : Cluster)
    (no_tunnel : is_enabled (cloudflare_of c.spec).enabled ≡ false)
    (wanted : wants_backup c.spec ≡ true) (u : HasOtherUnit c.spec) where
  Fails-retention_days :
      (py : Python)
      → Fails S
          (value_error (not_a_number py c.spec))
          (retention_days py (get_or (backup_of c.spec).retention_policy "30d"))
  Fails-retention_days py =
      subst (λ m. Fails S (value_error (not_a_number py c.spec)) m)
        (sym (
          ap (retention_days py) u.policy
          ∙ retention_days-refused py u.amount u.unit u.is_unit u.not_days
          ∙ ap (λ t. raise (value_error (py.int_error t))) (sym u.policy)))
        (Fails-raise S _)

  Fails-backup_step :
      (py : Python) → Fails S (value_error (not_a_number py c.spec)) (backup_step py c)
  unfolding backup_step
  Fails-backup_step py = Fails-when wanted (Fails-bind _ (Fails-retention_days py))

  pub Fails-create_all :
      (py : Python) → Fails S (value_error (not_a_number py c.spec)) (create_all py c)
  unfolding create_all
  Fails-create_all py = Fails-then (Succeeds-database_step S L H c) (
      Fails-then (Succeeds-valkey_step S L H c) (
        Fails-then (Succeeds-metabase_step S L H c py) (
          Fails-then (Succeeds-init_step S L H c py) (
            Fails-then (Succeeds-odoo_step S L H c py) (
              Fails-then (Succeeds-no_tunnel S L H c py no_tunnel)
                (Fails-bind _ (Fails-backup_step py)))))))
