-- ===== src/Main/Refinement.antt =====
-- The handlers as operations on the set of objects that are there: creation and update add the
-- cluster's objects and nothing else, deletion takes away the objects that it names and nothing else.
use mathlib.Core.Path.{fun_ext}
use odoo_operator.Base.{
  refl, All, All-imp, All_at, In, List, Bool, ◌||◌, String, ◌≡◌, Option, true, false, sym, ap, ◌∙◌,
}
use odoo_operator.Prog.{Key, ok}
use odoo_operator.Server.{Server, IsLawful, IsHealthy, IsStored}
use odoo_operator.Server.Accepted.{Accepts}
use odoo_operator.Server.Run.{run}
use odoo_operator.Server.Lasting.{NoDelete, NoCreate}
use odoo_operator.Server.View.{
  View, stored_view, alive_view, among, ensure, discard, Builds-ensure, Clears-discard,
}
use odoo_operator.Python.{Python}
use odoo_operator.Spec.{ClusterSpec}
use odoo_operator.Main.Creation.Phase.{IsPlain}
use odoo_operator.Main.Creation.Rules.{cluster_keys}
use odoo_operator.Main.Stored.{cluster_of, Builds-on_create, Builds-on_update, on_update-total}
use odoo_operator.Main.Removal.{removed_keys, Clears-on_delete, on_delete-total}
use odoo_operator.Scope.{is_left}
use odoo_operator.Main.Scope.{on_delete-leaves}
use odoo_operator.Main.Creation.References.{leftover_keys, leftover_keys-All}
use odoo_operator.Main.{on_create, on_update, on_delete}

-- On a lawful server a creation that returns adds the objects of the cluster to those that are
-- stored, and no other.
pub on_create-ensure :
    (S : Server) (py : Python) (spec : ClusterSpec) (name namespace : String) (uid : Option String)
    (s : S.State)
    → IsLawful S
    → (run S (on_create py spec name namespace uid) s).result ≡ ok tt
    → stored_view S (run S (on_create py spec name namespace uid) s).state
      ≡ ensure (cluster_keys (cluster_of spec name namespace uid)) (stored_view S s)
on_create-ensure S py spec name namespace uid s L h =
    Builds-ensure S L NoDelete _ _ (Builds-on_create S L py spec name namespace uid) s h

-- On a lawful server with no fault of its own, for a spec without a tunnel whose retention policy
-- is a number of days, an update none of whose creations and patches the server answers with 422
-- adds the objects of the cluster to those that are stored, and no other.
pub on_update-ensure :
    (S : Server) (py : Python) (spec : ClusterSpec) (name namespace : String) (uid : Option String)
    (s : S.State)
    → IsLawful S
    → IsHealthy S
    → IsPlain spec
    → Accepts S (on_update py spec name namespace uid) s
    → stored_view S (run S (on_update py spec name namespace uid) s).state
      ≡ ensure (cluster_keys (cluster_of spec name namespace uid)) (stored_view S s)
on_update-ensure S py spec name namespace uid s L H p w =
    Builds-ensure S L NoDelete _ _ (Builds-on_update S L py spec name namespace uid) s
      (on_update-total S py spec name namespace uid s L H p w).0

-- On a lawful server with no fault of its own a deletion takes the objects that it names away from
-- those that are stored and not marked for deletion, and no other.
pub on_delete-discard :
    (S : Server) (spec : ClusterSpec) (name namespace : String) (s : S.State)
    → IsLawful S
    → IsHealthy S
    → alive_view S (run S (on_delete spec name namespace) s).state
      ≡ discard (removed_keys spec name namespace) (alive_view S s)
on_delete-discard S spec name namespace s L H =
    Clears-discard S L NoCreate _ _ (Clears-on_delete S L spec name namespace) s
      (on_delete-total S spec name namespace s L H).0

-- On a lawful server with no fault of its own, for a plain spec, after an update none of whose
-- creations and patches the server answers with 422 and then the handler of a deletion, the secret
-- of Odoo's administrator and, where the spec asks for them, that of Metabase's and the CronJob of
-- the backup are still stored when the handler ends. What the cluster's garbage collector does
-- later is not part of it.
pub on_delete-on_update_leftover :
    (S : Server) (py : Python) (spec : ClusterSpec) (name namespace : String) (uid : Option String)
    (s : S.State)
    → IsLawful S
    → IsHealthy S
    → IsPlain spec
    → Accepts S (on_update py spec name namespace uid) s
    → All
        (λ k. IsStored (
          S.find
            (run S
              (on_delete spec name namespace)
              (run S (on_update py spec name namespace uid) s).state).state
            k))
        (leftover_keys (cluster_of spec name namespace uid))
on_delete-on_update_leftover S py spec name namespace uid s L H p w =
    let c = cluster_of spec name namespace uid in
    let t = (run S (on_update py spec name namespace uid) s).state in
    let u = (run S (on_delete spec name namespace) t).state in
    let there = (on_update-total S py spec name namespace uid s L H p w).1 in
    All-imp (λ k. In k (cluster_keys c) × (is_left k.kind ≡ true)) (λ k. IsStored (S.find u k))
      (leftover_keys c)
      (λ k (i, left).
        rw (on_delete-leaves S spec name namespace t k L left)
          (All_at (λ k. IsStored (S.find t k)) (cluster_keys c) there k i))
      (leftover_keys-All c)

or_again : (a b : Bool) → (a || (a || b)) ≡ (a || b)
or_again true b = refl
or_again false b = refl

-- To add the same objects again changes nothing.
ensure-ensure : (ks : List Key) (v : View) → ensure ks (ensure ks v) ≡ ensure ks v
ensure-ensure ks v = fun_ext (λ k. or_again (among k ks) (v k))

-- On a lawful server with no fault of its own, for a plain spec, a second update leaves the same
-- objects stored as the first, where the server answers none of the creations and patches of
-- either with 422.
pub on_update-idempotent :
    (S : Server) (py : Python) (spec : ClusterSpec) (name namespace : String) (uid : Option String)
    (s : S.State)
    → IsLawful S
    → IsHealthy S
    → IsPlain spec
    → Accepts S (on_update py spec name namespace uid) s
    → Accepts S
        (on_update py spec name namespace uid)
        (run S (on_update py spec name namespace uid) s).state
    → stored_view S
        (run S
          (on_update py spec name namespace uid)
          (run S (on_update py spec name namespace uid) s).state).state
      ≡ stored_view S (run S (on_update py spec name namespace uid) s).state
on_update-idempotent S py spec name namespace uid s L H p w again =
    let ks = cluster_keys (cluster_of spec name namespace uid) in
    let once = on_update-ensure S py spec name namespace uid s L H p w in
    on_update-ensure S py spec name namespace uid
      (run S (on_update py spec name namespace uid) s).state L H p again
    ∙ ap (ensure ks) once
    ∙ ensure-ensure ks (stored_view S s)
    ∙ sym once
