-- ===== src/Cluster.antt =====
-- src/handlers/cluster.py: the aggregated status of a cluster's components. Each part of the dict
-- that `get_cluster_status` fills in its `try` blocks is the result of one function.
pub mod Rules
use odoo_operator.Base.{
  ℕ, String, ◌<>◌, Bool, true, false, List, [], ◌∷◌, leb, ◌==◌, decimal, if◌then◌else◌,
}
use odoo_operator.Value.{Value, bool, str, dict}
use odoo_operator.Prog.{
  Key, deployment, stateful_set, pg_cluster, read, Exn, api_exception, Prog, ret, raise, ◌>>=◌,
  catch, request,
}
use odoo_operator.Dynamic.{get_attr, get_value, count_or}
use odoo_operator.Owner.{key}
use odoo_operator.Database.{db_key, is_text}

-- `cluster_namespace`
abbrev pub status_namespace : String → String
status_namespace name = "odoo-" <> name

abbrev pub odoo_key : String → Key
odoo_key name = key deployment (status_namespace name) (name <> "-odoo")

abbrev pub valkey_key : String → Key
valkey_key name = key stateful_set (status_namespace name) (name <> "-valkey")

abbrev pub metabase_key : String → Key
metabase_key name = key deployment (status_namespace name) (name <> "-metabase")

-- A part that is as it was before its `try` block.
abbrev pub not_ready : Value
not_ready = dict (("ready", bool false) ∷ [])

abbrev pub not_there : Value
not_there = dict (("ready", bool false) ∷ ("exists", bool false) ∷ [])

-- `except ApiException: pass`; any other exception goes on.
pub ignoring : Exn → Prog Value
ignoring (api_exception code text) = ret not_ready
ignoring e = raise e

-- `except ApiException as e: if e.status == 404: …["exists"] = False`
pub noting_absence : Exn → Prog Value
noting_absence (api_exception code text) = ret (if code == 404 then not_there else not_ready)
noting_absence e = raise e

database_status : String → Prog Value
unfolding ignoring
database_status name =
    catch
      (do
        db ← request (read (db_key (status_namespace name) name))
        status ← get_value db "status" (dict [])
        phase ← get_value status "phase" (str "")
        ret (
            dict
              (("ready", bool (is_text phase "Cluster in healthy state")) ∷ ("phase", phase) ∷ [])))
      ignoring

-- `deployment.status.ready_replicas or 0`
ready_replicas : Value → Prog ℕ
ready_replicas v = do
  status ← get_attr v "status"
  ready ← get_attr status "ready_replicas"
  count_or 0 ready

odoo_status : String → Prog Value
unfolding ignoring ready_replicas
odoo_status name =
    catch
      (do
        found ← request (read (odoo_key name))
        ready ← ready_replicas found
        spec ← get_attr found "spec"
        desired ← count_or 1 (← get_attr spec "replicas")
        ret (
            dict (
              ("ready", bool (leb desired ready))
              ∷ ("replicas", str (decimal ready <> ("/" <> decimal desired)))
              ∷ [])))
      ignoring

-- The parts that may not be there at all.
optional_status : Key → Prog Value
unfolding noting_absence ready_replicas
optional_status k =
    catch
      (do
        found ← request (read k)
        ready ← ready_replicas found
        ret (dict (("ready", bool (leb 1 ready)) ∷ ("exists", bool true) ∷ [])))
      noting_absence

-- The namespace that is passed is not used.
pub get_cluster_status : String → String → Prog Value
unfolding database_status odoo_status optional_status
get_cluster_status namespace name = do
  database ← database_status name
  odoo ← odoo_status name
  valkey ← optional_status (valkey_key name)
  metabase ← optional_status (metabase_key name)
  ret (
      dict (
        ("database", database) ∷ ("odoo", odoo) ∷ ("valkey", valkey) ∷ ("metabase", metabase) ∷ []))
