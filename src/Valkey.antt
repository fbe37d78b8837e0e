-- ===== src/Valkey.antt =====
-- src/handlers/valkey.py: the Valkey service and stateful set.
pub mod Rules
pub mod Volumes
use odoo_operator.Base.{String, ◌<>◌, Option, List, [], ◌∷◌, get_or}
use odoo_operator.Value.{Value, num, str, dict, list, new}
use odoo_operator.Prog.{Key, service, stateful_set, Prog, ◌>>=◌, ◌>>◌}
use odoo_operator.Kube.{create_or_patch, create_or_patch_wrapped, delete_if_present}
use odoo_operator.Spec.{Amounts, Resources, no_amounts, no_resources, ensure_str}
use odoo_operator.Owner.{OwnerRef, build_owner_references, labels, selector, key}

abbrev pub service_key : String → String → Key
service_key namespace name = key service namespace (name <> "-valkey")

abbrev pub set_key : String → String → Key
set_key namespace name = key stateful_set namespace (name <> "-valkey")

service_body : String → String → Option OwnerRef → Value
service_body namespace name owner_ref =
    let resource_name = name <> "-valkey" in
    new "V1Service" (
      (
        "metadata",
        new "V1ObjectMeta" (
            ("name", str resource_name)
            ∷ ("namespace", str namespace)
            ∷ ("labels", labels name "valkey")
            ∷ ("owner_references", build_owner_references owner_ref)
            ∷ []),
      )
      ∷ (
        "spec",
        new "V1ServiceSpec" (
            ("type", str "ClusterIP")
            ∷ ("selector", selector name "valkey")
            ∷ (
              "ports",
              list (
                  (new "V1ServicePort"
                    (("name", str "redis") ∷ ("port", num 6379) ∷ ("target_port", num 6379) ∷ []))
                  ∷ []),
            )
            ∷ []),
      )
      ∷ [])

set_body : String → String → String → Amounts → Amounts → Option OwnerRef → Value
set_body namespace name storage req lim owner_ref =
    let resource_name = name <> "-valkey" in
    new "V1StatefulSet" (
      (
        "metadata",
        new "V1ObjectMeta" (
            ("name", str resource_name)
            ∷ ("namespace", str namespace)
            ∷ ("labels", labels name "valkey")
            ∷ ("owner_references", build_owner_references owner_ref)
            ∷ []),
      )
      ∷ (
        "spec",
        new "V1StatefulSetSpec" (
            ("service_name", str resource_name)
            ∷ ("replicas", num 1)
            ∷ ("selector", new "V1LabelSelector" (("match_labels", selector name "valkey") ∷ []))
            ∷ (
              "template",
              new "V1PodTemplateSpec" (
                  ("metadata", new "V1ObjectMeta" (("labels", selector name "valkey") ∷ []))
                  ∷ (
                    "spec",
                    new "V1PodSpec" (
                        (
                          "containers",
                          list (
                              (new "V1Container" (
                                ("name", str "valkey")
                                ∷ ("image", str "valkey/valkey:8-alpine")
                                ∷ (
                                  "ports",
                                  list (
                                      (new "V1ContainerPort"
                                        (("container_port", num 6379) ∷ ("name", str "redis") ∷ []))
                                      ∷ []),
                                )
                                ∷ (
                                  "args",
                                  list (
                                      (str "valkey-server")
                                      ∷ (str "--appendonly")
                                      ∷ (str "yes")
                                      ∷ (str "--maxmemory")
                                      ∷ (str "256mb")
                                      ∷ (str "--maxmemory-policy")
                                      ∷ (str "allkeys-lru")
                                      ∷ []),
                                )
                                ∷ (
                                  "volume_mounts",
                                  list (
                                      (new "V1VolumeMount"
                                        (("name", str "data") ∷ ("mount_path", str "/data") ∷ []))
                                      ∷ []),
                                )
                                ∷ (
                                  "resources",
                                  new "V1ResourceRequirements" (
                                      (
                                        "requests",
                                        dict (
                                            ("cpu", str (ensure_str req.cpu "100m"))
                                            ∷ ("memory", str (ensure_str req.memory "128Mi"))
                                            ∷ []),
                                      )
                                      ∷ (
                                        "limits",
                                        dict (
                                            ("cpu", str (ensure_str lim.cpu "500m"))
                                            ∷ ("memory", str (ensure_str lim.memory "512Mi"))
                                            ∷ []),
                                      )
                                      ∷ []),
                                )
                                ∷ (
                                  "liveness_probe",
                                  new "V1Probe" (
                                      (
                                        "tcp_socket",
                                        new "V1TCPSocketAction" (("port", num 6379) ∷ []),
                                      )
                                      ∷ ("initial_delay_seconds", num 30)
                                      ∷ ("period_seconds", num 10)
                                      ∷ []),
                                )
                                ∷ (
                                  "readiness_probe",
                                  new "V1Probe" (
                                      (
                                        "tcp_socket",
                                        new "V1TCPSocketAction" (("port", num 6379) ∷ []),
                                      )
                                      ∷ ("initial_delay_seconds", num 5)
                                      ∷ ("period_seconds", num 5)
                                      ∷ []),
                                )
                                ∷ []))
                              ∷ []),
                        )
                        ∷ []),
                  )
                  ∷ []),
            )
            ∷ (
              "volume_claim_templates",
              list (
                  (new "V1PersistentVolumeClaim" (
                    (
                      "metadata",
                      new "V1ObjectMeta"
                          (("name", str "data") ∷ ("labels", selector name "valkey") ∷ []),
                    )
                    ∷ (
                      "spec",
                      new "V1PersistentVolumeClaimSpec" (
                          ("access_modes", list ((str "ReadWriteOnce") ∷ []))
                          ∷ (
                            "resources",
                            new "V1VolumeResourceRequirements"
                                (("requests", dict (("storage", str storage) ∷ [])) ∷ []),
                          )
                          ∷ []),
                    )
                    ∷ []))
                  ∷ []),
            )
            ∷ []),
      )
      ∷ [])

-- The stateful set that `create_valkey` stores.
pub valkey_set : String → String → String → Option Resources → Option OwnerRef → Value
unfolding set_body
valkey_set namespace name storage resources owner_ref =
    let res = get_or resources no_resources in
    set_body namespace name storage (get_or res.requests no_amounts) (get_or res.limits no_amounts)
      owner_ref

pub create_valkey : String → String → String → Option Resources → Option OwnerRef → Prog Unit
unfolding service_body valkey_set
create_valkey namespace name storage resources owner_ref = do
  create_or_patch (service_key namespace name) (service_body namespace name owner_ref)
  create_or_patch_wrapped "Failed to create Valkey: " (set_key namespace name)
      (valkey_set namespace name storage resources owner_ref)

pub delete_valkey : String → String → Prog Unit
delete_valkey namespace name = do
  delete_if_present (set_key namespace name)
  delete_if_present (service_key namespace name)
