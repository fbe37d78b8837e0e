-- ===== src/Namespace.antt =====
-- src/handlers/namespace.py: the creation and deletion of a namespace, an object in no namespace.
use odoo_operator.Base.{String, [], ◌∷◌}
use odoo_operator.Value.{Value, str, dict, new}
use odoo_operator.Prog.{Key, namespace_kind, Prog}
use odoo_operator.Kube.{create_or_skip_wrapped, delete_if_present}
use odoo_operator.Owner.{key}

abbrev pub namespace_key : String → Key
namespace_key namespace = key namespace_kind "" namespace

namespace_body : String → String → Value
namespace_body namespace cluster_name = new "V1Namespace" (
    (
      "metadata",
      new "V1ObjectMeta" (
          ("name", str namespace)
          ∷ (
            "labels",
            dict (
                ("app.kubernetes.io/managed-by", str "odoo.simstech.cloud-operator")
                ∷ ("odoo.simstech.cloud/cluster", str cluster_name)
                ∷ []),
          )
          ∷ []),
    )
    ∷ [])

pub create_namespace : String → String → Prog Unit
unfolding namespace_body
create_namespace namespace cluster_name =
    create_or_skip_wrapped "Failed to create namespace: " (namespace_key namespace)
      (namespace_body namespace cluster_name)

pub delete_namespace : String → Prog Unit
delete_namespace namespace = delete_if_present (namespace_key namespace)
