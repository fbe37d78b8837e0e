-- ===== src/Lib.antt =====
-- A Kubernetes operator that runs Odoo clusters: for every custom resource OdooCluster it creates a
-- PostgreSQL cluster, Odoo, an initialization job and, where the spec asks for them, Valkey,
-- Metabase, Tailscale sidecars, a Cloudflare tunnel and a backup of the filestore.
--
-- The parts, each with the file of the repository that it models:
--   Main (src/main.py): on_create, on_update and on_delete; Main.Creation has a function for each
--     step of the creation, Main.Reconcile the timer's handler reconcile_status.
--   Odoo, Metabase, DbInit, Database, Valkey, Tailscale, Cloudflare, FilestoreBackup, Namespace,
--     ModuleSync, Cluster (src/handlers, the file of that name in its spelling): the functions that
--     create, delete and check the objects of a part. Children named Bodies, Body, Pod, Conf, Clone,
--     Script, Restore and Init have the bodies of the objects and the scripts that run in them;
--     ModuleSync.Exec has the commands that are run on a pod.
--   Password: generate_password, which three handlers have in the same text.
--   Owner: owner references and labels (src/main.py, src/handlers/cluster.py and the handlers).
--   Pod: what a pod's body mounts and refers to, as the API reads it. It models no code.
--   Kube: the try/except around each call of the API, which the source writes out at every object.
--   Spec: the custom resource's spec as records, with what a missing key gives.
--
-- A handler is a Prog: a sequence of requests to the outside, writes to the status patch, and
-- exceptions. A request is a call of the Kubernetes API, a command run on a pod, a choice by the
-- secrets module or a look at the clock. A Server answers them and is a parameter throughout:
-- IsLawful states what the API documents of its verbs, and that nothing else writes while a handler
-- runs; IsRandom what secrets.choice gives; HasClock that the clock answers; IsHealthy that a server
-- refuses nothing but what the verbs' contracts refuse. These let it answer a creation or a patch
-- with 422, for a body that is invalid or that changes an immutable field, such as the claim
-- templates of a stateful set: Accepts says of one run that no write of it is answered so.
-- Server.Memory is such a server. Python is what the handlers use of the standard library beyond
-- texts, lists and dicts; int() reads the decimal digits of Unicode 15, which Python 3.12 has.
-- Bodies are values with the keys of the source; a model stands for an object of the client
-- library. Loops are recursion on the list that they go through, so no fuel is needed; the rounds
-- of a stream are the list that the server answers.
--
-- Rules modules have the rules for a part: Only- what it requests, Builds- and Clears- what it
-- leaves stored or gone, Succeeds- that it returns, Reader- that it writes nothing; those of the
-- calls of the API are in Kube.Requests, Kube.Effects and Kube.Returns. Scope has the requests that
-- belong to a cluster. Server.View is the abstract cluster, the set of objects that are there, with
-- the operations that the handlers implement. The theorems on the handlers of events are in
-- Main.Stored, Main.Scope, Main.Phase, Main.Removal, Main.Refinement, Main.Policy and Main.Mounted,
-- those on the timer in Main.Reconcile: Rules and Phase on one call, Ticks on a sequence of calls, at
-- states of the cluster that others change in any way; Main.Lifecycle joins the two. A volume's
-- theorems are beside the body of its pod, in modules named Volumes and References.
--
-- Not modelled: the interpreter's limit of 4300 digits in int(), logging, the settings of kopf, the
-- charts and the scripts. What the scripts do when a pod runs them is not modelled either; their
-- text is. How kopf merges a patch into a status is the hypothesis IsMerged, of the phase alone.
pub mod Base
pub mod Value
pub mod Prog
pub mod Server
pub mod Kube
pub mod Dynamic
pub mod Python
pub mod Spec
pub mod Owner
pub mod Scope
pub mod Password
pub mod Database
pub mod Valkey
pub mod Tailscale
pub mod Odoo
pub mod Metabase
pub mod DbInit
pub mod Cloudflare
pub mod FilestoreBackup
pub mod Namespace
pub mod ModuleSync
pub mod Cluster
pub mod Pod
pub mod Main
pub mod Tests
