-- ===== src/ModuleSync/Loop.antt =====
-- What the loop of the sync accumulates: a result for each running pod, and the flag.
use odoo_operator.Base.{
  String, ◌≡◌, refl, sym, subst, ap, map, ◌∙◌, ◌↔◌, Bool, true, false, List, [], ◌∷◌, ◌++◌, All,
  All-append, str_eq, if◌then◌else◌,
}
use odoo_operator.Value.{Value, str, Items, nil, cons}
use odoo_operator.Pod.{entry}
use odoo_operator.Database.{is_text}
use mathlib.Core.List.{append-nil, append_assoc}
use odoo_operator.Prog.{◌>>=◌}
use odoo_operator.Server.{Server}
use odoo_operator.ModuleSync.{
  Pod, read_pod, is_running, Target, PodResult, Progress, sync_pod, sync_pods,
}
use odoo_operator.ModuleSync.Reports.{extended, sync_pod-IsReport}
use odoo_operator.ModuleSync.Yields.{
  Yields-ret, Yields-bind, Yields-imp, Yields-get_attr, Yields-as_text, Yields,
}

abbrev pub IsSynced : PodResult → Type 0
IsSynced r = str_eq r.status "synced" ≡ true

-- The flag of the loop is what the results say.
abbrev pub IsConsistent : Progress → Type 0
IsConsistent p = (p.all_synced ≡ true) ↔ All IsSynced p.results

-- The names of the pods whose phase is `Running`.
unfoldable pub running_names : Items → List Value
unfolding entry
running_names nil = []
running_names (cons v vs) =
    let rest = running_names vs in
    if is_text (entry "phase" (entry "status" v)) "Running"
    then entry "name" (entry "metadata" v) ∷ rest
    else rest

abbrev pub reported_names : List PodResult → List Value
reported_names rs = map (λ r. str r.pod) rs

before_last :
    (xs : List PodResult) (r : PodResult) → All IsSynced (xs ++ (r ∷ [])) → All IsSynced xs
before_last [] r h = tt
before_last (x ∷ xs) r h = (h.0, before_last xs r h.1)

at_last : (xs : List PodResult) (r : PodResult) → All IsSynced (xs ++ (r ∷ [])) → IsSynced r
at_last [] r h = h.0
at_last (x ∷ xs) r h = at_last xs r h.1

extended_by :
    (p : Progress) (r : PodResult) (b : Bool)
    → str_eq r.status "synced" ≡ b
    → IsConsistent p
    → ((if b then p.all_synced else false) ≡ true) ↔ All IsSynced (p.results ++ (r ∷ []))
extended_by p r true e (to, from) = (
  λ h. All-append IsSynced p.results (r ∷ []) (to h) (e, tt),
  λ h. from (before_last p.results r h),
)
extended_by p r false e c = (λ h. absurd (cc h), λ h. absurd (cc (sym e ∙ at_last p.results r h)))

extended-IsConsistent :
    (p : Progress) (r : PodResult) → IsConsistent p → IsConsistent (extended p r)
extended-IsConsistent p r c = extended_by p r (str_eq r.status "synced") refl c

-- What is read of a pod.
abbrev IsPod : Value → Pod → Type 0
IsPod v pod =
    (pod.phase ≡ entry "phase" (entry "status" v))
    × (str pod.name ≡ entry "name" (entry "metadata" v))

is_running-is_text : (phase : Value) → is_running phase ≡ is_text phase "Running"
unfolding is_running
is_running-is_text (str t) = refl
is_running-is_text _ = refl

running_phase :
    (v : Value) (pod : Pod) {b : Bool}
    → pod.phase ≡ entry "phase" (entry "status" v)
    → is_running pod.phase ≡ b
    → is_text (entry "phase" (entry "status" v)) "Running" ≡ b
running_phase v pod e r =
    ap (λ x. is_text x "Running") (sym e) ∙ sym (is_running-is_text pod.phase) ∙ r

reported-append :
    (xs : List PodResult) (r : PodResult)
    → reported_names (xs ++ (r ∷ [])) ≡ reported_names xs ++ (str r.pod ∷ [])
reported-append [] r = refl
reported-append (x ∷ xs) r = ap (λ ns. str x.pod ∷ ns) (reported-append xs r)

-- The loop goes on from here: the flag is what the results say, and each running pod has a result.
abbrev pub Continues : Items → Progress → Progress → Type 0
Continues pods so_far p =
    IsConsistent p
    × (reported_names p.results ≡ reported_names so_far.results ++ running_names pods)

module _ {S : Server} where
  Yields-read_pod : (v : Value) → Yields S (IsPod v) (read_pod v)
  unfolding read_pod
  Yields-read_pod v = Yields-bind (Yields-get_attr v "status") λ status e.
      Yields-bind (Yields-get_attr status "phase") λ phase e'.
        Yields-bind (Yields-get_attr v "metadata") λ metadata q.
          Yields-bind (Yields-get_attr metadata "name") λ n q'.
            Yields-bind (Yields-as_text n) λ name r.
              Yields-ret (IsPod v) _ (e' ∙ ap (entry "phase") e, r ∙ q' ∙ ap (entry "name") q)

  Yields-sync_pod :
      (t : Target) (modules : List String) (so_far : Progress) (pod_name : String)
      → IsConsistent so_far
      → Yields S
          (λ p.
            IsConsistent p
            × (reported_names p.results ≡ reported_names so_far.results ++ (str pod_name ∷ [])))
          (sync_pod t modules so_far pod_name)
  Yields-sync_pod t modules so_far pod_name c = record {
    at = λ s h.
        let (installed, look, r, e, report) = sync_pod-IsReport S t modules so_far pod_name s in
        subst
          (λ p.
            IsConsistent p
            × (reported_names p.results ≡ reported_names so_far.results ++ (str pod_name ∷ [])))
          (cc (sym e ∙ h))
          (
            extended-IsConsistent so_far r c,
            reported-append so_far.results r
                ∙ ap (λ n. reported_names so_far.results ++ (str n ∷ [])) report.0,
          );
  }

  pub Yields-sync_pods :
      (t : Target) (modules : List String) (pods : Items) (so_far : Progress)
      → IsConsistent so_far
      → Yields S (Continues pods so_far) (sync_pods t modules pods so_far)
  unfolding sync_pods running_names is_running
  Yields-sync_pods t modules nil so_far c =
      Yields-ret (Continues nil so_far) so_far (c, sym (append-nil (reported_names so_far.results)))
  Yields-sync_pods t modules (cons v pods) so_far c =
      Yields-bind (Yields-read_pod v)
        λ pod (e, q). branch pod e q (Yields-sync_pods t modules pods) (is_running pod.phase) refl
    where
      branch :
          (pod : Pod)
          → pod.phase ≡ entry "phase" (entry "status" v)
          → str pod.name ≡ entry "name" (entry "metadata" v)
          → ((p : Progress)
              → IsConsistent p
              → Yields S (Continues pods p) (sync_pods t modules pods p))
          → (b : Bool) → is_running pod.phase ≡ b
          → Yields S (Continues (cons v pods) so_far) (elim b [
            | true ↦ (sync_pod t modules so_far pod.name >>= λ next. sync_pods t modules pods next)
            | false ↦ sync_pods t modules pods so_far
          ])
      branch pod e q onward true r =
          Yields-bind (Yields-sync_pod t modules so_far pod.name c) λ next (d, n).
            Yields-imp
              (λ p (f, k). (
                f,
                k
                    ∙ ap (λ ns. ns ++ running_names pods) n
                    ∙ append_assoc (reported_names so_far.results) (str pod.name ∷ [])
                        (running_names pods)
                    ∙ ap (λ ns. reported_names so_far.results ++ ns)
                        (ap (λ n. n ∷ running_names pods) q
                          ∙ sym (
                              ap
                                (λ b.
                                  if b
                                  then entry "name" (entry "metadata" v) ∷ running_names pods
                                  else running_names pods)
                                (running_phase v pod e r))),
              ))
              (onward next d)
      branch pod e q onward false r =
          Yields-imp
            (λ p (f, k). (
              f,
              k
                  ∙ ap (λ ns. reported_names so_far.results ++ ns)
                      (sym (
                        ap
                          (λ b.
                            if b
                            then entry "name" (entry "metadata" v) ∷ running_names pods
                            else running_names pods)
                          (running_phase v pod e r))),
            ))
            (onward so_far c)
