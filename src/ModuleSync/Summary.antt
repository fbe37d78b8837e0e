-- ===== src/ModuleSync/Summary.antt =====
-- What the status of a sync says of the pods.
use odoo_operator.Base.{String, ◌≡◌, ◌↔◌, Bool, true, Option, none, some, List, [], All}
use odoo_operator.Value.{Value, Items}
use odoo_operator.Pod.{entry, items_of}
use odoo_operator.Server.{Server}
use odoo_operator.Python.{Python}
use odoo_operator.ModuleSync.{PodResult, SyncStatus}
use odoo_operator.ModuleSync.Yields.{Yields}
use odoo_operator.ModuleSync.Loop.{IsSynced, running_names, reported_names}

-- Without results `synced` says that no module is wanted. With results there is one for each running
-- pod, in their order, and `synced` says that all of them are `synced`.
abbrev pub Summarises : Items → Bool → List String → Option (List PodResult) → Type 0
Summarises pods synced modules none = (synced ≡ true) ↔ (modules ≡ [])
Summarises pods synced modules (some rs) =
    (reported_names rs ≡ running_names pods) × ((synced ≡ true) ↔ All IsSynced rs)

-- The status is a summary of the pods of a listing.
abbrev pub IsSummary : Value → SyncStatus → Type 0
IsSummary listing st =
    Summarises (items_of (entry "items" listing)) st.synced st.modules st.pod_results
