-- ===== src/Lib.antt =====
-- Verification of the module SDK: how a node's messages are sent, retried, recorded and re-driven, how
-- its status updates reach the cluster, how a flow's graph is validated and rebuilt from an export, and
-- how credentials are hidden in payloads.
--
-- Parts, with the code each is about (paths from the repository's root):
--   Prelude    helpers: Boolean tests, byte strings, lists and integers over the native numbers
--   Dict       Go maps with string keys, as association lists
--   Errors     module/errors.go, pkg/errors/errors.go: the retryability contract of errors
--   Names      pkg/utils/port.go, pkg/utils/naming.go, module/naming_match.go
--   Run        module/run.go, module/ledger.go, internal/scheduler/runner/msg.go: durable runs
--   Node       api/v1alpha1/tinynode_types.go, consts.go: the fields that the runtime reads
--   Runner     internal/scheduler/runner/runner.go and debouncer.go:
--     Backoff    backoffDelay
--     Send       sendToEdgeWithRetry (send_to_edge; its loop is attempts)
--     Fanout     outputHandler (output_handler; the sends are send_all)
--     Cancels    edgeCancels: begin_send, end_send, cancelRemovedEdges
--     Debouncer  ReconcileDebouncer
--     Updates    DataHandler at the ports _control and _reconcile
--     Messages   MsgHandler (prepare, what comes before the component's call, and deliver), with
--                dispatchCapability, getPortConfig and writeStepRecord
--     Emits      DataHandler (data_handler): what an emit at any port does
--     Status     ReadStatus and redactPortConfiguration
--   Scheduler  internal/scheduler/scheduler.go: Install, Uninstall, Destroy, Update and the shutdown, with
--              SetNode and Stop of the runner
--     Routing    Handle (handle; without the depth of its outputs, route) and sendMsg (send_msg)
--     Rpc        internal/scheduler/rpc.go: a component called as a tool (handle_rpc)
--     Router     the message router that cli/run.go gives to the scheduler, and ParseFullName of
--                module/info.go
--   Ledger     internal/scheduler/reconciler.go: reconcileRuns and what it calls
--   State      pkg/state/metadata.go: a component's state in its node's metadata (Get, Set, Delete, List,
--              guardSize)
--   Json       decoded JSON values, which the code walks as interface{}
--   Redact     pkg/redact/redact.go, pkg/redact/authored.go and pkg/utils/secret_placeholder.go: Secrets
--              (secrets), ByName (by_name), AuthoredSecretNames, placeholderForAbsentSecrets (placeholders)
--   Graph      a flow's graph outside the cluster:
--     Edits      pkg/utils/edge.go and pkg/utils/edges.go
--     Requests   the updates of a node's edges and port configurations from the editor's request in
--                pkg/utils/elements.go: UpdateEdgesFromRequest, UpdatePortConfigsFromRequest (Requests.Configs)
--                and its variant with defaults, parseEdgeRetryPolicyFromRequest
--     Ids        the identifiers of edges and elements in pkg/utils/elements.go
--     Elements   IsNode, IsEdge and GetStr there, and the export format of pkg/utils/project_export.go
--     Problems   the messages of pkg/utils/import_validation.go, each a constructor
--     Validation ValidateProjectImport and what it calls
--     Rebuild    NodesFromGraphElements of pkg/utils/graph_import.go
--   Tests      runs on concrete inputs, and the theorems applied to them
--
-- How they interact. The scheduler (Scheduler) keeps an instance for each node; an update sets the node on
-- its runner, sends it its settings as a message, publishes its status (Status), and rolls back where
-- that fails. A message reaches the scheduler (Routing), which waits for
-- the node's instance and its port, and counts the hops; the outputs go through the router (Router) to the
-- scheduler again or to another module. A message (Messages) is skipped if the ledger has its step, is given its run and its data,
-- and goes to the component, whose emits and record follow. An emit (Emits, Fanout) goes out over the node's edges; each send (Send) asks the error
-- contract (Errors) whether a failure is attempted again, waits (Backoff), and on a durable run
-- stamps the hop with a step key and records it (Run). The step's record is written to the
-- execution bucket; the reconciler (Ledger) reads the records back, finds the hops with no record of
-- their own, and publishes them again, a bounded number of times. Emits at the system ports become
-- debounced patches of the node (Updates over Debouncer); a component's state (State) is written with
-- updaters of that kind and read through the cache, under an overlay of its recent writes. An exported
-- project is validated (Graph.Validation) and then rebuilt into nodes (Graph.Rebuild), whose edges and
-- port configurations the edits (Graph.Edits) replace.
--
-- Conventions. Numbers are natural numbers of arbitrary size, except where the code's 64 bits show:
-- FNV-1a is computed modulo 2 ^ 64, strconv.Atoi and durations are checked or wrapped at 63 bits.
-- Texts are lists of bytes. Times are unix milliseconds. Code that is not in the repository (the
-- broker, the key-value bucket, the clock) and the codecs (JSON, base64, float64) are a record of operations over a world W that is
-- passed along (Send.Transport, Ledger.Cluster, Backoff.Floats, State.Codec); so are json.Marshal and the
-- conversion of a JSON number (Rebuild.Numbers), the title-casing of golang.org/x/text and the hash prefix of
-- a flow; the backoff library's retry loop (Routing.Retrying),
-- the order of port configurations by a structure's hash; the component with its capabilities, the evaluator, the state backend as a step ledger
-- (Messages.Component, Values, StepLedger) and the clock; what a theorem relies on is a
-- record of laws (IsLawful, IsCount, IsLog, IsJson), and Tests has an instance of each. The retry loop recurs on the
-- number of attempts that are left, the source's own bound; decimal printing takes one more step than
-- the number's value, and a number has no more digits than that; checkExpressionSyntax takes at least four
-- bytes in a round, and has one round more than the value has bytes. A decoded JSON object is a list of
-- fields in which the first of a name counts, and a loop over a Go map goes through it in that order. Each operation that holds
-- a lock is one step; the handing over of an updater and the request to the debouncer, two
-- critical sections in DataHandler, are one step of the model; the draining of the updaters and the call
-- of PatchNode after it are two. A run is shared through a pointer in the context: what a component's
-- call returns for it is what MsgHandler's own context then holds.
--
-- Not modelled: logging, tracing and metrics; the Kubernetes controllers, gRPC servers, transports and
-- command line, which are I/O; charts and configuration; the emitter with which a component's own goroutines
-- send; and the JetStream state backend, the building of the request's elements, which renames them in
-- place, the other helpers of pkg/utils (nodes.go, the rest of elements.go and of project_export.go,
-- sanitize.go, portinspect.go), schemas and expressions. The deadlines and the concurrent updates of a
-- node while one of its messages is handled are those of the world's operations.
pub mod Prelude
pub mod Dict
pub mod Errors
pub mod Names
pub mod Run
pub mod Node
pub mod Runner
pub mod Ledger
pub mod State
pub mod Json
pub mod Redact
pub mod Graph
pub mod Scheduler
pub mod Tests
