-- ===== src/Main/Scope.antt =====
-- Which objects the handlers write, and with which bodies.
use odoo_operator.Base.{String, ◌≡◌, sym, ◌∙◌, ap, subst, Option, true}
use odoo_operator.Prog.{Key, Request, create, patch, delete, now, Exn}
use odoo_operator.Prog.Only.{
  Only, Only-bind, Only-catch, Only-raise, Only-set_status, Only-when, Only-imp,
}
use odoo_operator.Server.{Server, IsLawful, IsStored, Misses}
use odoo_operator.Server.Run.{run}
use odoo_operator.Server.Lasting.{Spares, Only-frame, Only-spared}
use odoo_operator.Python.{Python}
use odoo_operator.Spec.{ClusterSpec}
use odoo_operator.Scope.{Provisions, Removes, InScope, is_durable, is_left}
use odoo_operator.Database.Rules.{Only-delete_database}
use odoo_operator.Valkey.Rules.{Only-delete_valkey}
use odoo_operator.Metabase.Rules.{Only-delete_metabase}
use odoo_operator.Odoo.Rules.{Only-delete_odoo}
use odoo_operator.DbInit.Rules.{Only-delete_db_init_job}
use odoo_operator.Cloudflare.Rules.{Only-delete_cloudflare_tunnel}
use odoo_operator.Main.Creation.Rules.{Only-touch, Only-create_all}
use odoo_operator.Main.{fail_creation, on_create, on_update, on_delete}

module _ {P : Request → Type 0} where
  pub Only-fail_creation : P now → (e : Exn) → Only P (fail_creation e)
  unfolding fail_creation
  Only-fail_creation p e =
      Only-bind (Only-set_status _ _)
        λ _. Only-bind (Only-set_status _ _) λ _. Only-bind (Only-touch p) λ _. Only-raise _

module _ (py : Python) (spec : ClusterSpec) (name namespace : String) (uid : Option String) where
  -- Whatever the server answers, a creation creates and patches only objects of the namespace whose
  -- names begin with the cluster's name and a dash, each with a body that carries its name and
  -- namespace; it patches no account, claim, secret or job, and it deletes nothing.
  pub on_create-Provisions : Only (Provisions namespace name) (on_create py spec name namespace uid)
  unfolding on_create
  on_create-Provisions = Only-bind (Only-set_status _ _) λ _. Only-bind (Only-set_status _ _) λ _.
      Only-bind (Only-touch tt) λ _.
        Only-bind (Only-set_status _ _)
          λ _. Only-catch (Only-create_all _ py) (Only-fail_creation tt)

  -- The same of an update.
  pub on_update-Provisions : Only (Provisions namespace name) (on_update py spec name namespace uid)
  unfolding on_update
  on_update-Provisions =
      Only-bind (Only-set_status _ _) λ _.
        Only-bind (Only-set_status _ _) λ _. Only-bind (Only-touch tt) λ _. on_create-Provisions

Provisions-Spares :
    (namespace name : String) (k : Key) (r : Request)
    → is_durable k.kind ≡ true
    → Provisions namespace name r
    → Spares k r
Provisions-Spares namespace name k (create j v) e p = tt
Provisions-Spares namespace name k (patch j v) e p =
    λ q. cc (sym e ∙ ap (λ i. is_durable i.kind) q ∙ p.1)
Provisions-Spares namespace name k (delete j) e p = absurd p
Provisions-Spares namespace name k _ e p = tt

-- On a lawful server an account, a claim, a secret or a job that is stored is the same after an
-- update, whatever the new spec says and however the update ends.
pub on_update-spares :
    (S : Server) (py : Python) (spec : ClusterSpec) (name namespace : String) (uid : Option String)
    (s : S.State) (k : Key)
    → IsLawful S
    → is_durable k.kind ≡ true
    → IsStored (S.find s k)
    → S.find (run S (on_update py spec name namespace uid) s).state k ≡ S.find s k
on_update-spares S py spec name namespace uid s k L e h =
    Only-spared S L k _ s
      (Only-imp (λ r p. Provisions-Spares namespace name k r e p)
        (on_update-Provisions py spec name namespace uid))
      h

Provisions-Misses :
    (namespace name : String) (k : Key) (r : Request)
    → ¬ InScope namespace name k
    → Provisions namespace name r
    → Misses k r
Provisions-Misses namespace name k (create j v) n p =
    λ q. n (subst (InScope namespace name) (sym q) p.0)
Provisions-Misses namespace name k (patch j v) n p =
    λ q. n (subst (InScope namespace name) (sym q) p.0)
Provisions-Misses namespace name k (delete j) n p = absurd p
Provisions-Misses namespace name k _ n p = tt

-- On a lawful server an object of another namespace, or one whose name does not begin with the
-- cluster's name and a dash, is the same after an update, however the update ends.
pub on_update-frame :
    (S : Server) (py : Python) (spec : ClusterSpec) (name namespace : String) (uid : Option String)
    (s : S.State) (k : Key)
    → IsLawful S
    → ¬ InScope namespace name k
    → S.find (run S (on_update py spec name namespace uid) s).state k ≡ S.find s k
on_update-frame S py spec name namespace uid s k L n = Only-frame S L k _ s (
    Only-imp (λ r p. Provisions-Misses namespace name k r n p)
      (on_update-Provisions py spec name namespace uid))

module _ (spec : ClusterSpec) (name namespace : String) where
  -- Whatever the server answers, a deletion writes nothing but deletes objects of the namespace
  -- whose names begin with the cluster's name and a dash, and no secret and no CronJob.
  pub on_delete-Removes : Only (Removes namespace name) (on_delete spec name namespace)
  unfolding on_delete
  on_delete-Removes = Only-bind (Only-when _ (Only-delete_cloudflare_tunnel namespace name)) λ _.
      Only-bind (Only-when _ (Only-delete_metabase namespace name)) λ _.
        Only-bind (Only-delete_odoo namespace name) λ _.
          Only-bind (Only-delete_db_init_job namespace name) λ _.
            Only-bind (Only-when _ (Only-delete_valkey namespace name))
              λ _. Only-delete_database namespace name

Removes-Misses :
    (namespace name : String) (k : Key) (r : Request)
    → is_left k.kind ≡ true
    → Removes namespace name r
    → Misses k r
Removes-Misses namespace name k (create j v) e p = absurd p
Removes-Misses namespace name k (patch j v) e p = absurd p
Removes-Misses namespace name k (delete j) e p = λ q. cc (sym e ∙ ap (λ i. is_left i.kind) q ∙ p.1)
Removes-Misses namespace name k _ e p = tt

-- On a lawful server a deletion leaves every secret and every CronJob as it was, the cluster's
-- filestore backup included, however the deletion ends.
pub on_delete-leaves :
    (S : Server) (spec : ClusterSpec) (name namespace : String) (s : S.State) (k : Key)
    → IsLawful S
    → is_left k.kind ≡ true
    → S.find (run S (on_delete spec name namespace) s).state k ≡ S.find s k
on_delete-leaves S spec name namespace s k L e = Only-frame S L k _ s (
    Only-imp (λ r p. Removes-Misses namespace name k r e p) (on_delete-Removes spec name namespace))
