-- ===== src/Lib.antt =====
-- Kubeocean joins the nodes of physical clusters to a virtual cluster: each physical node that a
-- leasing policy covers gets a virtual node, pods that are scheduled there are run in the physical
-- cluster, and their state is written back. This library models the logic of its controllers and
-- proves what makes it correct.
--
-- Policy models api/v1beta1/resourceleasingpolicy_types.go and validateTimeWindows of
-- pkg/syncer/bottomup/rlp/resourceleasingpolicy_controller.go: TimeOfDay has the clock texts
-- (isValidTimeFormat, isTimeInRange), Windows has IsWithinTimeWindows, and Validation the check of a
-- policy. A text is the list of its bytes there, since the code compares and indexes bytes.
--
-- Ports, Resources and Node model pkg/syncer/bottomup/node/physical_node_controller.go. Ports/Probe
-- has hashString and the probing of allocateProxierPort, Ports/Cache the cache with
-- allocateProxierPort and releaseProxierPort, and Ports/Init InitAllocatedPortsCache; the loop of the
-- probing has its rounds as fuel, as many as the code makes. Resources/Quantity is the interface to
-- the quantities of apimachinery, Resources/Usage has calculateNodeResourceUsage, Resources/Limits
-- applyResourceLimits down to calculatePercentageLimit with its int64 arithmetic (its modules Capped
-- and Exact hold proofs), and
-- Resources/Available calculateAvailableResources. Node/Merge and Node/Expected have the merge of a
-- virtual node's labels, annotations and taints with the user's, Node/Taints has transformTaints,
-- Node/Selection has getApplicablePolicies with pkg/utils/node_selector.go and the choice of one
-- policy, Node/Evict the eviction of pods, Node/Windows handleOutOfTimeWindows, and Node/Deletion
-- handleNodeDeletion. Names has the names of
-- virtual nodes (pkg/utils/node.go) and of physical resources (pkg/syncer/topdown/common/common.go).
--
-- PhysicalPod models pkg/syncer/bottomup/pod/physical_pod_controller.go: Defs has the pods and the
-- checks of their metadata, Sync has buildSyncPod, Secrets the deletion of token secrets, and
-- Controller has Reconcile.
--
-- VirtualPod models pkg/syncer/topdown/pod/virtual_pod_controller.go, with is_system_pod and
-- is_daemon_set_pod of pkg/utils/pod.go and pkg/utils/clusterbinding.go: Spec has the names that the
-- spec of a pod refers to and their replacement (CollectConfigMapRefs, CollectSecretRefs,
-- replaceVolumeResourceNames and the others of buildPhysicalPodSpec), Metadata has syncMetadata and
-- what syncVirtualPodMetadataAndSpecToPhysicalPod decides, Tokens the secrets of service-account
-- tokens, Resources syncResource with the loops that call it, Dependents syncDependentResources with its
-- poll (which has as many rounds as the time allows), PodSpec buildPhysicalPodSpec, Build
-- createPhysicalPod with the labels and annotations, Checks what is tested before anything is done,
-- Remove the deletions, Create the mapping and the creation, and Controller Reconcile. Build takes the
-- synchronisation and the spec as an interface, Builder, which Whole fills. Allowed says when each
-- call is allowed, with the reasons of the writes to synchronised resources and secrets in Reasons. The
-- modules named Safe, Enough, Suffices, Mapped, Total and Renamed hold the proofs.
--
-- TokenManager models pkg/syncer/topdown/token/token_manager.go: the cache of tokens as a fold over its
-- operations, each one step under the lock, with the times, the jitter and the answers of the API server.
--
-- Synced models pkg/syncer/topdown/common/common.go: Marks has the labels, annotations and finalizer
-- that mark a virtual resource as synchronised to a cluster and their removal, and Physical what is
-- built, looked up and deleted in the physical cluster.
--
-- A handler is a program over the calls that it makes (Effect): the API servers are a record of
-- functions from the calls so far to the next answer, so that a theorem holds whatever they answer,
-- and in whatever order other writers come between. A Go map is an association list (Dict); the order
-- in which Go visits a map is left open by the theorems, which speak of lookups. Library code (time,
-- JSON, MD5, reflect.DeepEqual, strings.ToLower, resource.Quantity) is a parameter.
--
-- Not modelled: the set-up of the controllers with their event handlers; that the addresses of the API
-- server and of the DNS are kept between reconciliations; the other controllers of
-- pkg/syncer/topdown, the controllers of ClusterBindings, the proxier, metrics, start-up and wiring, and generated code. Logs
-- and events are left out of the handlers that are modelled.
pub mod Prelude
pub mod Dict
pub mod Policy
pub mod Ports
pub mod Resources
pub mod Kube
pub mod Effect
pub mod PhysicalPod
pub mod Node
pub mod Synced
pub mod TokenManager
pub mod VirtualPod
pub mod Names
pub mod Tests
