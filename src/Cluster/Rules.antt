-- ===== src/Cluster/Rules.antt =====
-- What the aggregated status reads, and what it says of objects that are not there.
use odoo_operator.Base.{String, ◌<>◌, ◌≡◌, refl}
use odoo_operator.Value.{Value}
use odoo_operator.Prog.{Key, Request, read, Exn, api_exception}
use odoo_operator.Prog.Only.{Only, Only-bind, Only-catch, Only-ret, Only-raise, Only-request}
use odoo_operator.Dynamic.Rules.{Only-get_attr, Only-get_value, Only-count_or}
use odoo_operator.Cluster.{
  status_namespace, valkey_key, metabase_key, ignoring, noting_absence, database_status,
  ready_replicas, odoo_status, optional_status, get_cluster_status,
}

-- The request reads an object of this namespace.
abbrev pub ReadsIn : String → Request → Type 0
ReadsIn space (read k) = k.space ≡ space
ReadsIn space _ = ⊥

module _ {P : Request → Type 0} where
  Only-ignoring : (e : Exn) → Only P (ignoring e)
  unfolding ignoring
  Only-ignoring (api_exception code text) = Only-ret _
  Only-ignoring e = Only-raise e

  Only-noting_absence : (e : Exn) → Only P (noting_absence e)
  unfolding noting_absence
  Only-noting_absence (api_exception code text) = Only-ret _
  Only-noting_absence e = Only-raise e

  Only-ready_replicas : (v : Value) → Only P (ready_replicas v)
  unfolding ready_replicas
  Only-ready_replicas v =
      Only-bind (Only-get_attr v _)
        λ status. Only-bind (Only-get_attr status _) λ ready. Only-count_or 0 ready

Only-optional_status : (k : Key) → Only (ReadsIn k.space) (optional_status k)
unfolding optional_status
Only-optional_status k =
    Only-catch
      (Only-bind (Only-request (read k) refl)
        λ v. Only-bind (Only-ready_replicas v) λ ready. Only-ret _)
      Only-noting_absence

Only-database_status :
    (name : String) → Only (ReadsIn (status_namespace name)) (database_status name)
unfolding database_status
Only-database_status name =
    Only-catch
      (Only-bind (Only-request _ refl) λ db.
        Only-bind (Only-get_value db _ _)
          λ status. Only-bind (Only-get_value status _ _) λ phase. Only-ret _)
      Only-ignoring

Only-odoo_status : (name : String) → Only (ReadsIn (status_namespace name)) (odoo_status name)
unfolding odoo_status
Only-odoo_status name =
    Only-catch
      (Only-bind (Only-request _ refl) λ found. Only-bind (Only-ready_replicas found) λ ready.
        Only-bind (Only-get_attr found _) λ spec.
          Only-bind (Only-get_attr spec _)
            λ replicas. Only-bind (Only-count_or 1 replicas) λ desired. Only-ret _)
      Only-ignoring

-- The status is made from reads of objects in the namespace `odoo-<name>` alone, whatever namespace
-- is passed and whatever the server answers.
pub get_cluster_status-ReadsIn :
    (namespace name : String) → Only (ReadsIn ("odoo-" <> name)) (get_cluster_status namespace name)
unfolding get_cluster_status
get_cluster_status-ReadsIn namespace name = Only-bind (Only-database_status name) λ database.
    Only-bind (Only-odoo_status name) λ odoo.
      Only-bind (Only-optional_status (valkey_key name))
        λ valkey. Only-bind (Only-optional_status (metabase_key name)) λ metabase. Only-ret _
