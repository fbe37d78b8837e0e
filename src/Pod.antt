-- ===== src/Pod.antt =====
-- Pods as the API reads them from a body: what the containers mount, the volumes there are, and the
-- objects that the volumes refer to.
pub mod Rules
use odoo_operator.Base.{String, List, [], ◌∷◌, ◌++◌, All, In, if◌then◌else◌}
use odoo_operator.Value.{Value, null, str, arr, obj, model, Items, nil, cons}
use odoo_operator.Prog.{Key, pvc, config_map}
use odoo_operator.Dynamic.{get_in}
use odoo_operator.Owner.{key}
use odoo_operator.Database.{is_text}

-- What stands under a key.
unfoldable pub entry : String → Value → Value
entry k (obj fs) = get_in fs k null
entry k (model c fs) = get_in fs k null
entry k v = null

abbrev pub items_of : Value → Items
items_of (arr vs) = vs
items_of v = nil

-- The names of mounts, volumes or containers.
unfoldable pub names : Items → List Value
unfolding entry
names nil = []
names (cons v vs) = entry "name" v ∷ names vs

-- The mounts of a container, whose key the client library spells in its own way in its models.
abbrev pub mounts_key : Value → String
mounts_key (model c fs) = "volume_mounts"
mounts_key v = "volumeMounts"

-- The volumes that containers mount, by name.
unfoldable pub mounts : Items → List Value
unfolding names entry
mounts nil = []
mounts (cons c cs) = names (items_of (entry (mounts_key c) c)) ++ mounts cs

abbrev pub volumes_of : Value → Items
volumes_of pod = items_of (entry "volumes" pod)

-- The pod of a deployment.
abbrev pub pod_of : Value → Value
pod_of v = entry "spec" (entry "template" (entry "spec" v))

-- Every volume that a container or an init container of the pod mounts is one of the pod's volumes.
pub record IsMounted (pod : Value) : Type 0 where
  pub init :
      All (λ n. In n (names (volumes_of pod))) (mounts (items_of (entry "initContainers" pod)))
  pub main : All (λ n. In n (names (volumes_of pod))) (mounts (items_of (entry "containers" pod)))

-- The names of a stateful set's claim templates: its pods get a volume of that name for each.
unfoldable pub template_names : Items → List Value
unfolding entry
template_names nil = []
template_names (cons v vs) = entry "name" (entry "metadata" v) ∷ template_names vs

-- Every volume that a container of a stateful set's pod mounts is one of the pod's volumes or has a
-- claim template in the set.
abbrev pub IsSetMounted : Value → Type 0
IsSetMounted v =
    All
      (λ n. In n (
        names (volumes_of (pod_of v))
        ++ template_names (items_of (entry "volume_claim_templates" (entry "spec" v)))))
      (mounts (items_of (entry "containers" (pod_of v))))

abbrev claim_ref : String → Value → List Key
claim_ref namespace (str name) = key pvc namespace name ∷ []
claim_ref namespace v = []

abbrev config_ref : String → Value → List Key
config_ref namespace (str name) = key config_map namespace name ∷ []
config_ref namespace v = []

-- The claims and config maps that the volumes refer to, in the pod's namespace.
unfoldable pub refs : String → Items → List Key
unfolding entry
refs namespace nil = []
refs namespace (cons v vs) =
    claim_ref namespace (entry "claimName" (entry "persistentVolumeClaim" v))
    ++ (config_ref namespace (entry "name" (entry "configMap" v)) ++ refs namespace vs)

-- The claims that the volumes of this name are.
unfoldable pub claims_named : String → Items → List Value
unfolding entry
claims_named name nil = []
claims_named name (cons v vs) =
    let rest = claims_named name vs in
    if is_text (entry "name" v) name
    then entry "claimName" (entry "persistentVolumeClaim" v) ∷ rest
    else rest

-- Where mounts of this name are found in a container.
unfoldable pub paths_in : String → Items → List Value
unfolding entry
paths_in name nil = []
paths_in name (cons m ms) =
    let rest = paths_in name ms in
    if is_text (entry "name" m) name then entry "mountPath" m ∷ rest else rest

-- Where containers mount the volume of this name.
unfoldable pub paths : String → Items → List Value
unfolding paths_in entry
paths name nil = []
paths name (cons c cs) = paths_in name (items_of (entry "volumeMounts" c)) ++ paths name cs
