-- ===== src/Scope.antt =====
-- The requests by which the handlers build a cluster: objects of its namespace that are named after
-- it, with bodies that carry their key's name, and no deletion.
use text.Mathlib.TextLemmas.{append_assoc}
use odoo_operator.Base.{String, ◌<>◌, ◌≡◌, refl, ap, ◌∙◌, Bool, true, false}
use odoo_operator.Value.{Value, null, str, obj, model}
use odoo_operator.Prog.{
  Kind, Key, service_account, pvc, secret, job, cron_job, namespace_kind, Request, create, patch,
  delete,
}
use odoo_operator.Dynamic.{get_in}

-- The metadata of a body: a key of a dict, or an argument of an object of the client library.
unfoldable pub metadata_of : Value → Value
metadata_of (obj fs) = get_in fs "metadata" null
metadata_of (model c fs) = get_in fs "metadata" null
metadata_of v = null

abbrev entry_of : String → Value → Value
entry_of k (obj fs) = get_in fs k null
entry_of k (model c fs) = get_in fs k null
entry_of k v = null

-- The body carries the name and the namespace of its key.
abbrev pub IsAddressed : Key → Value → Type 0
IsAddressed k v =
    (entry_of "name" (metadata_of v) ≡ str k.name)
    × (entry_of "namespace" (metadata_of v) ≡ str k.space)

-- The object stands in the namespace, and its name begins with the cluster's name and a dash.
abbrev pub InScope : String → String → Key → Type 0
InScope namespace name k =
    (k.space ≡ namespace) × ((rest : String) × (k.name ≡ name <> ("-" <> rest)))

-- The kinds of which an object is never changed once it is there.
abbrev pub is_durable : Kind → Bool
is_durable service_account = true
is_durable pvc = true
is_durable secret = true
is_durable job = true
is_durable namespace_kind = true
is_durable _ = false

abbrev pub Provisions : String → String → Request → Type 0
Provisions namespace name (create k v) = InScope namespace name k × IsAddressed k v
Provisions namespace name (patch k v) =
    InScope namespace name k × (is_durable k.kind ≡ false) × IsAddressed k v
Provisions namespace name (delete k) = ⊥
Provisions namespace name _ = Unit

-- A body's name in two parts, its key's with one suffix.
pub suffix : (name a b : String) → Path Value (str ((name <> a) <> b)) (str (name <> (a <> b)))
suffix name a b = ap str (append_assoc name a b)

-- Two suffixes, the second behind the first.
pub InScope-twice :
    (namespace name a b : String) (kind : Kind)
    → InScope namespace name
        (record { kind = kind; space = namespace; name = (name <> ("-" <> a)) <> b })
InScope-twice namespace name a b kind =
    (refl, (a <> b, append_assoc name ("-" <> a) b ∙ rw (append_assoc "-" a b) refl))

-- The kinds of the objects that a deletion leaves: administrators' secrets, the backup's CronJob.
abbrev pub is_left : Kind → Bool
is_left secret = true
is_left cron_job = true
is_left _ = false

-- The requests by which the handlers remove a cluster.
abbrev pub Removes : String → String → Request → Type 0
Removes namespace name (create k v) = ⊥
Removes namespace name (patch k v) = ⊥
Removes namespace name (delete k) = InScope namespace name k × (is_left k.kind ≡ false)
Removes namespace name _ = Unit
