-- ===== src/Main/Lifecycle.antt =====
-- A cluster from its creation on: `on_create`, and then the timer at states that others change.
use odoo_operator.Base.{
  String, ◌≡◌, ◌≢◌, sym, ap, ◌∙◌, inl, inr, Option, some, List, get_or, All, In,
}
use odoo_operator.Value.{str}
use odoo_operator.Prog.{ok}
use odoo_operator.Server.{Server, IsLawful, IsHealthy}
use odoo_operator.Server.Accepted.{Accepts}
use odoo_operator.Server.Run.{run, Outcome}
use odoo_operator.Server.Writes.{last_phase}
use odoo_operator.Python.{Python}
use odoo_operator.Spec.{ClusterSpec}
use odoo_operator.Main.Creation.Phase.{IsPlain}
use odoo_operator.Main.Stored.{Succeeds-on_create}
use odoo_operator.Main.Phase.{IsConclusion, on_create-concludes}
use odoo_operator.Main.Reconcile.{Status, current_phase}
use odoo_operator.Main.Reconcile.Ticks.{IsMerged, Ticks, verdict_at, IsDone, Ticks-Ready}
use odoo_operator.Main.{on_create}

-- A conclusion that returned has the phase `Initializing`.
concluded_phase :
    {S : Server} (o : Outcome S (Unit {0}))
    → o.result ≡ ok tt
    → IsConclusion o
    → last_phase o.writes ≡ some (str "Initializing")
concluded_phase o e (inl (r, p)) = p
concluded_phase o e (inr (t, r, p)) = absurd (cc (sym e ∙ r))

-- On a lawful server with no fault of its own, for a plain spec, the phase is `Ready` after a
-- creation none of whose creations and patches the server answers with 422 and any ticks of which
-- one sees that a pod of the job has succeeded and none finds the job failed, whatever others do
-- to the cluster between the ticks.
pub on_create-Ready :
    (S : Server) (py : Python) (spec : ClusterSpec) (name namespace : String) (uid : Option String)
    (s : S.State) {ss : List S.State} {before created after : Status} {t : S.State}
    → IsLawful S
    → IsHealthy S
    → IsPlain spec
    → Accepts S (on_create py spec name namespace uid) s
    → IsMerged (run S (on_create py spec name namespace uid) s).writes before created
    → Ticks S py spec name namespace ss created after
    → All (λ u. verdict_at S py spec name namespace u ≢ some "Error") ss
    → In t ss
    → IsDone S py spec name namespace t
    → current_phase after ≡ "Ready"
on_create-Ready S py spec name namespace uid s L H p w m ticks a i d =
    let made = (Succeeds-on_create S L H py spec name namespace uid p).at s w in
    let written =
      concluded_phase (run S (on_create py spec name namespace uid) s) made.1
        (on_create-concludes S py spec name namespace uid s H.clock) in
    Ticks-Ready S py spec name namespace ticks
      (ap (λ q. get_or q "Unknown") (m.replaced "Initializing" written)) a i d
