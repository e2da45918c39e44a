-- ===== src/Lib.antt =====
-- The shard controller (internal/controller, pkg/sharding): it watches the clusters of a
-- management cluster, reads the shard of each from an annotation, and runs the five Sveltos
-- deployments of every shard that has clusters.
--
-- The parts and the files that model them:
-- - Tracker (internal/controller/utils.go): the variables clusterMap and shardMap are the record
--   Maps; trackCluster and stopTrackingCluster are track_cluster and stop_tracking_cluster, functions
--   from a State to an optional error and a State. The mutex makes each of them one step. Below it:
--   Views (reading the maps), Outcomes (the cases of a call), Consistency (agreement of the maps),
--   Calls, Sizes, Sync (the maps against the deployments), Retry and Attempts (repeated calls),
--   Failures (errors that are lost), Runs and Healthy (histories), Bounds (lengths of the sets), Available
--   (calls that are not refused), Serving (calls that fail to deploy), Restart (a new process), Overtaken
--   (a removal that fails while another cluster comes).
-- - Process: processCluster with the reference that it derives, and the Reconcile methods of
--   cluster_controller.go and sveltoscluster_controller.go. Requests states it by the request, Resync,
--   Answers, Convergence and Settled have many requests in turn (reconcile_all, up to the first error),
--   Kinds InitScheme and the scheme that it makes.
-- - Redeploy: redeployAllShards. Race has the listing and each deployment as steps between which the
--   other reconcilers run, Serving these steps with deployments that fail. ConfigMaps: the predicate
--   and the Reconcile of configmap_controller.go, which calls it; Watched has the cache beside them,
--   Events what an event comes to after main.
-- - Package: the variables of management_cluster.go and utils.go that are set at startup, as a record.
-- - Manifest: the edits of a Deployment by setOptions and appendArgsToContainer. Documents: the same on
--   the texts of the deployments, with addDriftDetectionConfig and addClassifierConfigs; Reading has
--   what a reader finds in a text that was edited.
-- - Patches: getPatchesFromConfigMap, getShardComponentsPatches, applyShardPatches.
-- - Sharding (pkg/sharding): the five manifests, as they are. Template: instantiateTemplate, with
--   html/template for the templates without `<` whose one action is {{.SHARD}}, as the manifests
--   are; Names has the names of the deployments, Pieces a template by the text between its actions,
--   Manifests the five manifests so.
-- - Generator (generator.go, which writes the files of pkg/sharding): its template by text/template, a
--   disk as a record, and the raw string of a Go file.
-- - Shards: the interface between the tracking and deployControllers and undeployControllers.
-- - Deploy: these two, with deployDeployment and undeployDeployment. Objects and Effects have one
--   component's call, Whole all five and the value of the interface, Reachable the tracking and the
--   reconcilers on it, Failures the calls that return an error, Options the manifests with the
--   options of the process in them, Patched the answers on the ConfigMap, Names the names of what is
--   deleted, Edits what a document goes through, Applied the calls of Apply, Serving the
--   interleavings with failing deployments, Interleaved the loops over the components with others'
--   calls in between.
-- - Startup (cmd/main.go): capiWatchers with isCAPIInstalled, and capiCRDHandler. Main: initFlags, the
--   options for controller-runtime and main, as the list of what it does by what the calls in it return;
--   Order has theorems on that list. Controllers: the SetupWithManager methods and the settings that
--   Reconcile passes on; Configured has the controllers that main sets up.
-- - Reference: the keys of the maps, and the interface of the set type of libsveltos.
-- - Errors, Prelude: Go's errors, maps, slices and strings. Tests: concrete values.
--
-- Parameters: the set type of libsveltos (RefSet), the runtime scheme and the client (Process), the
-- YAML decoder and the patcher (Patches), the decoders and encoders of deployments (Documents), and
-- the API server (Deploy), each with the laws that are used as fields or hypotheses: IsServer says
-- what Apply and Delete do, Naming that documents keep the names of their components, also with the
-- options and patches in them, and that no two shards share one. What html/template does with a
-- template that has `<` or another action than {{.SHARD}} is a parameter as well, where a panic of
-- template.Must is an error: it leaves the calls as an error does. No definition needs fuel: every
-- loop is over a list or a text. Maps are association lists; where the source ranges over a map, the
-- order is an argument; that of the arguments of the classifier (Order) may change with the state of
-- the API server.
--
-- For requests in turn, IsAvailable says that no call for a shard is refused, Answers that the API
-- server's answers on clusters stay the same and that the two kinds of clusters have different
-- names; ReadsBack says that the decoders read what the encoder writes, ReadsNames that they find
-- the name in the metadata, Registers what an AddToScheme registers, and Cache what a cache holds
-- under a field selector. Removes says that every removal of controllers returns nil,
-- IsRemovable that the API server refuses none of a deployment that it has.
--
-- Not modelled: what pflag reads on the command line (main takes the flags as they are after it),
-- the loggers and the signal handler, and the builder of controller-runtime that SetupWithManager
-- calls, which are other modules' code; log output; hack/tools, which has no code; the tests. Get,
-- Apply and Delete are whole calls: nothing runs in the middle of one. A call of deployControllers
-- or undeployControllers for a shard is one step as well, also beside redeployAllShards, which
-- deploys without the lock, except in Deploy/Interleaved, where the single calls of Apply and Delete
-- are the steps.
pub mod Prelude
pub mod Errors
pub mod Reference
pub mod Shards
pub mod Tracker
pub mod Process
pub mod Redeploy
pub mod Sharding
pub mod Template
pub mod Patches
pub mod Manifest
pub mod Documents
pub mod Deploy
pub mod Package
pub mod ConfigMaps
pub mod Controllers
pub mod Startup
pub mod Generator
mod Tests
