-- ===== src/Tests/Sync.antt =====
-- What the sync of a cluster reports, of a pod that runs and one that has not started.
use odoo_operator.Base.{String, false, some, [], ◌∷◌}
use odoo_operator.Value.{Value, nil, cons, str, arr, dict, model, end, field}
use odoo_operator.Prog.{Request, list_pods, Result, ok}
use odoo_operator.Server.{Server}
use odoo_operator.Server.Memory.{Memory}
use odoo_operator.ModuleSync.{SyncStatus}

-- A server that lists two pods, of which the first has not started, and answers any other request
-- with the secret of the database; so what is run on a pod fails.
abbrev a_pod : String → String → Value
a_pod name phase = model "V1Pod" (
    field "status" (model "V1PodStatus" (field "phase" (str phase) end))
      (field "metadata" (model "V1ObjectMeta" (field "name" (str name) end)) end))

abbrev listing : Value
listing = model "V1PodList" (
    field "items"
      (arr (cons (a_pod "shop-odoo-1" "Pending") (cons (a_pod "shop-odoo-2" "Running") nil))) end)

abbrev answer : Request → Memory → Result Value × Memory
answer (list_pods space selector) s = (ok listing, s)
answer r s = (ok (model "V1Secret" (field "data" (dict (("password", str "") ∷ [])) end)), s)

abbrev starting : Server
starting = record { State = Memory; respond = answer; find = λ s k. s k }

-- The pod that runs has a result, and the modules are not synced.
abbrev not_synced : SyncStatus
not_synced = record {
  synced = false;
  modules = "stock" ∷ [];
  pod_results = some (record { pod = "shop-odoo-2"; installed = []; status = "failed" } ∷ []);
  message = "Module sync in progress";
}
