-- ===== src/Main/Stored.antt =====
-- The objects that `on_create` and `on_update` leave stored.
use odoo_operator.Base.{String, ◌≡◌, ◌≢◌, Option, All, []}
use odoo_operator.Prog.{Exn, ok}
use odoo_operator.Prog.Only.{Only-set_status}
use odoo_operator.Server.{Server, IsLawful, IsHealthy, IsStored}
use odoo_operator.Server.Accepted.{Accepts}
use odoo_operator.Server.Run.{run}
use odoo_operator.Server.Rules.{
  Succeeds, Succeeds-bind, Succeeds-catch, Succeeds-set_status, bind_ok_inv, raise_not_ok,
}
use odoo_operator.Kube.Effects.{Builds, Builds-bind, Builds-Only, Builds-catch}
use odoo_operator.Python.{Python}
use odoo_operator.Spec.{ClusterSpec}
use odoo_operator.Owner.{build_owner_reference}
use odoo_operator.Main.Creation.{Cluster, touch}
use odoo_operator.Main.Creation.Rules.{cluster_keys, Only-touch, Builds-create_all}
use odoo_operator.Main.Creation.Phase.{IsPlain, Succeeds-touch, Succeeds-create_all}
use odoo_operator.Main.Scope.{Only-fail_creation}
use odoo_operator.Main.{fail_creation, on_create, on_update}

-- The cluster that the handlers build from their arguments.
abbrev pub cluster_of : ClusterSpec → String → String → Option String → Cluster
cluster_of spec name namespace uid = record {
  spec = spec;
  name = name;
  namespace = namespace;
  owner = build_owner_reference name uid;
}

module _ (S : Server) where
  fail_creation-raises :
      (e : Exn) (s : S.State) (a : Unit {0}) → (run S (fail_creation e) s).result ≢ ok a
  unfolding fail_creation
  fail_creation-raises e s a h =
      let (_, _, h1, _) = bind_ok_inv S _ _ s h in
      let (_, _, h2, _) = bind_ok_inv S _ _ _ h1 in
      let (_, _, h3, _) = bind_ok_inv S touch _ _ h2 in raise_not_ok S _ _ h3

module _ (S : Server) (L : IsLawful S) (py : Python) (spec : ClusterSpec) (name namespace : String)
    (uid : Option String) where
  pub Builds-on_create :
      Builds S L
        (cluster_keys (cluster_of spec name namespace uid))
        (on_create py spec name namespace uid)
  unfolding on_create
  Builds-on_create = Builds-bind S L {ks = []} (Builds-Only S L (Only-set_status _ _)) λ _.
      Builds-bind S L {ks = []} (Builds-Only S L (Only-set_status _ _)) λ _.
        Builds-bind S L {ks = []} (Builds-Only S L (Only-touch tt)) λ _.
          Builds-bind S L {ks = []} (Builds-Only S L (Only-set_status _ _)) λ _.
            Builds-catch S L (Builds-create_all S L _ py) (Only-fail_creation tt)
              (fail_creation-raises S)

  pub Builds-on_update :
      Builds S L
        (cluster_keys (cluster_of spec name namespace uid))
        (on_update py spec name namespace uid)
  unfolding on_update
  Builds-on_update = Builds-bind S L {ks = []} (Builds-Only S L (Only-set_status _ _)) λ _.
      Builds-bind S L {ks = []} (Builds-Only S L (Only-set_status _ _))
        λ _. Builds-bind S L {ks = []} (Builds-Only S L (Only-touch tt)) λ _. Builds-on_create

module _ (S : Server) (L : IsLawful S) (H : IsHealthy S) (py : Python) (spec : ClusterSpec)
    (name namespace : String) (uid : Option String) (p : IsPlain spec) where
  pub Succeeds-on_create : Succeeds S (on_create py spec name namespace uid)
  unfolding on_create
  Succeeds-on_create = Succeeds-bind (Succeeds-set_status _ _) λ _.
      Succeeds-bind (Succeeds-set_status _ _) λ _. Succeeds-bind (Succeeds-touch S H) λ _.
        Succeeds-bind (Succeeds-set_status _ _)
          λ _. Succeeds-catch fail_creation (Succeeds-create_all S L H _ p py)

  pub Succeeds-on_update : Succeeds S (on_update py spec name namespace uid)
  unfolding on_update
  Succeeds-on_update = Succeeds-bind (Succeeds-set_status _ _) λ _.
      Succeeds-bind (Succeeds-set_status _ _)
        λ _. Succeeds-bind (Succeeds-touch S H) λ _. Succeeds-on_create

-- On a lawful server a creation that returns has left every object of the cluster stored; one that
-- was already marked for deletion counts as stored.
pub on_create-IsStored :
    (S : Server) (py : Python) (spec : ClusterSpec) (name namespace : String) (uid : Option String)
    (s : S.State)
    → IsLawful S
    → (run S (on_create py spec name namespace uid) s).result ≡ ok tt
    → All
        (λ k. IsStored (S.find (run S (on_create py spec name namespace uid) s).state k))
        (cluster_keys (cluster_of spec name namespace uid))
on_create-IsStored S py spec name namespace uid s L h =
    (Builds-on_create S L py spec name namespace uid).done s h

-- On a lawful server an update that returns has left every object of the cluster stored.
pub on_update-IsStored :
    (S : Server) (py : Python) (spec : ClusterSpec) (name namespace : String) (uid : Option String)
    (s : S.State)
    → IsLawful S
    → (run S (on_update py spec name namespace uid) s).result ≡ ok tt
    → All
        (λ k. IsStored (S.find (run S (on_update py spec name namespace uid) s).state k))
        (cluster_keys (cluster_of spec name namespace uid))
on_update-IsStored S py spec name namespace uid s L h =
    (Builds-on_update S L py spec name namespace uid).done s h

-- On a lawful server with no fault of its own, for a spec without a tunnel whose retention policy
-- is a number of days, an update none of whose creations and patches the server answers with 422,
-- as it does to an invalid body or to a change of an immutable field, returns from every state,
-- and then every object of the cluster is stored, of which those that were marked for deletion may
-- still be marked.
pub on_update-total :
    (S : Server) (py : Python) (spec : ClusterSpec) (name namespace : String) (uid : Option String)
    (s : S.State)
    → IsLawful S
    → IsHealthy S
    → IsPlain spec
    → Accepts S (on_update py spec name namespace uid) s
    → ((run S (on_update py spec name namespace uid) s).result ≡ ok tt)
      × All
          (λ k. IsStored (S.find (run S (on_update py spec name namespace uid) s).state k))
          (cluster_keys (cluster_of spec name namespace uid))
on_update-total S py spec name namespace uid s L H p w =
    let e = ((Succeeds-on_update S L H py spec name namespace uid p).at s w).1 in
    (e, on_update-IsStored S py spec name namespace uid s L e)
