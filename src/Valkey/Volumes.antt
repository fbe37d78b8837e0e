-- ===== src/Valkey/Volumes.antt =====
-- The volumes of Valkey's pod: what it mounts.
use odoo_operator.Base.{String, refl, Option, inl}
use odoo_operator.Dynamic.{get_in}
use odoo_operator.Spec.{Resources}
use odoo_operator.Owner.{OwnerRef}
use odoo_operator.Pod.{entry, names, mounts, template_names, IsSetMounted}
use odoo_operator.Valkey.{set_body, valkey_set}

-- The volume that Valkey's container mounts has a claim template in the stateful set.
pub valkey_set-IsSetMounted :
    (namespace name storage : String) (resources : Option Resources) (owner_ref : Option OwnerRef)
    → IsSetMounted (valkey_set namespace name storage resources owner_ref)
unfolding names mounts template_names entry get_in valkey_set set_body
valkey_set-IsSetMounted namespace name storage resources owner_ref = (inl refl, tt)
