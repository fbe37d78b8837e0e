-- ===== src/Main/Policy.antt =====
-- A creation whose retention policy is no number of days.

use odoo_operator.Base.{String, ◌≡◌, sym, ap, ◌∙◌, inl, inr, true, false, Option, some}
use odoo_operator.Value.{str}
use odoo_operator.Prog.{Exn, permanent_error, value_error, err, catch}
use odoo_operator.Server.{Server, IsLawful, IsHealthy}
use odoo_operator.Server.Accepted.{Accepts, Accepts-tried}
use odoo_operator.Server.Run.{run, Outcome}
use odoo_operator.Server.Rules.{Succeeds-set_status, catch_err}
use odoo_operator.Server.Writes.{last_phase}
use odoo_operator.Python.{Python}
use odoo_operator.Spec.{ClusterSpec}
use odoo_operator.Spec.Parts.{cloudflare_of, is_enabled}
use odoo_operator.Main.Creation.{Cluster, wants_backup, create_all}
use odoo_operator.Main.Creation.Phase.{Succeeds-touch}
use odoo_operator.Main.Phase.{IsConclusion, fail_creation-error, on_create-concludes}
use odoo_operator.Main.{fail_creation, on_create}
use odoo_operator.Main.Creation.Failure.{
  Fails, Fails-then, not_a_number, HasOtherUnit, Fails-create_all,
}

module _ (S : Server) (L : IsLawful S) (H : IsHealthy S) (c : Cluster)
    (no_tunnel : is_enabled (cloudflare_of c.spec).enabled ≡ false)
    (wanted : wants_backup c.spec ≡ true) (u : HasOtherUnit c.spec) where
  Fails-caught :
      (py : Python)
      → Fails S (permanent_error (not_a_number py c.spec)) (catch (create_all py c) fail_creation)
  Fails-caught py = record {
    at = λ s w.
        ap (λ o. o.result)
          (catch_err S (create_all py c) fail_creation s (
            (Fails-create_all S L H c no_tunnel wanted u py).at s
              (Accepts-tried (create_all py c) fail_creation w)))
        ∙ fail_creation-error S H.clock (value_error (not_a_number py c.spec))
            (run S (create_all py c) s).state;
  }

-- A conclusion that raised has the phase `Error`.
raised_phase :
    {S : Server} {x : Exn} (o : Outcome S (Unit {0}))
    → o.result ≡ err x
    → IsConclusion o
    → last_phase o.writes ≡ some (str "Error")
raised_phase o e (inl (r, p)) = absurd (cc (sym e ∙ r))
raised_phase o e (inr (t, r, p)) = p

-- On a lawful server with no fault of its own, for a spec without a tunnel that wants a backup and
-- whose retention policy ends in a character that is no decimal digit, no white space and not `d`,
-- a creation none of whose creations and patches the server answers with 422 raises a permanent
-- error with the text of the `ValueError` from every state, and leaves the phase `Error`.
pub on_create-policy_error :
    (S : Server) (py : Python) (spec : ClusterSpec) (name namespace : String) (uid : Option String)
    (s : S.State)
    → IsLawful S
    → IsHealthy S
    → is_enabled (cloudflare_of spec).enabled ≡ false
    → wants_backup spec ≡ true
    → HasOtherUnit spec
    → Accepts S (on_create py spec name namespace uid) s
    → ((run S (on_create py spec name namespace uid) s).result
        ≡ err (permanent_error (not_a_number py spec)))
      × (last_phase (run S (on_create py spec name namespace uid) s).writes ≡ some (str "Error"))
unfolding on_create
on_create-policy_error S py spec name namespace uid s L H no_tunnel wanted u w =
    let e =
      (Fails-then (Succeeds-set_status _ _) (
          Fails-then (Succeeds-set_status _ _) (
            Fails-then (Succeeds-touch S H) (
              Fails-then (Succeeds-set_status _ _)
                (Fails-caught S L H _ no_tunnel wanted u py))))).at
        s w in
    (
      e,
      raised_phase (run S (on_create py spec name namespace uid) s) e
          (on_create-concludes S py spec name namespace uid s H.clock),
    )
