-- ===== src/Lib.antt =====
-- A verification development for unstructured-runtime, a library for Kubernetes controllers that
-- work on unstructured objects.
--
-- The informer's handlers (pkg/controller/controller.go) turn what happens to resources into events
-- and add them to a priority queue (pkg/controller/priorityqueue); workers (pkg/controller/worker.go)
-- take events from it, read the resource from the cluster, call the external client that the user of
-- the library writes, record what was done in annotations (pkg/meta) and conditions
-- (pkg/tools/unstructured/condition), and add the event again when an error came back.
--
-- - PriorityQueue: pkg/controller/priorityqueue/priorityqueue.go. `Item` is the item and its order
--   `less`, `State` the struct, `Add` is AddWithOpts, `Spin` has spin, GetWithPriority, Done,
--   ShutDown, Forget, NumRequeues and Len, and `Calls` the calls that are made of these. The B-tree
--   (github.com/google/btree), with documented laws, and the rate limiter (k8s.io/client-go) are
--   interfaces. The channels and goroutines are explicit: a pass of spin takes a `Moment` for each item,
--   with the clock, the calls of Get that arrive and whether the hand-off is given up. The metrics
--   calls are a list, the newest first (pkg/controller/priorityqueue/metrics.go).
-- - Meta: pkg/meta/meta.go, an object as its metadata; `Finalizers`, `Tracking` and `Policy` are its
--   parts. Instants are nanoseconds, zero is the zero time, and the layout RFC 3339 is the parameter
--   `TimeFormat`.
-- - Errors: pkg/errors/errors.go. Condition: pkg/tools/unstructured/condition/condition.go.
-- - Event: pkg/controller/event and pkg/controller/objectref; `Actions` is actionsevent.go and
--   `Annotations` is annotationevents.go.
-- - Unstructured: pkg/tools/unstructured/unstructured.go over a data type of decoded values. `Nested`
--   has the nested writes and removals, `Conditions` the conditions in the status, `Availability`
--   IsAvailable, `FailedRef` the failed object reference, and `Native` the values that the deep copy
--   of k8s.io/apimachinery accepts. Other packages' readers and encoding/json are interfaces.
-- - StatusProjection: pkg/tools/statusprojection/statusprojection.go; `Normalize` is normalize and
--   `Project` the rest. jq and the deep copy are an interface.
-- - Workqueue: pkg/workqueue/workqueue.go, the rate limiter. Instrumentation:
--   pkg/controller/queue_instrumentation.go over the interface of the queue; `Depth` and `Tracking`
--   take the holdings of its lock in any order, `Calls` takes whole calls.
-- - PriorityQueue.Metrics: pkg/controller/priorityqueue/metrics.go, which reads the calls of `State`.
-- - Controller: the resource and the priorities; `Intake` has AddFunc, UpdateFunc and DeleteFunc of
--   controller.go over the set of digests and the calls of AddWithOpts. The hash of a digest is a
--   parameter.
-- - Controller.Worker: worker.go and pkg/tools/tools.go. A handler is a program, a tree of the calls
--   it makes with what it does of each answer (`Prog`); `run` runs it against a `World` that answers.
--   `Handlers` has handleObserve, handleCreate, handleUpdate and handleDelete, `Process` has
--   processItem, and `Retry` has handleErr with the queue that it adds to. SetConditions is that of
--   pkg/tools/unstructured/unstructured.go. Controller.Loop is the loop of runWorker with its metrics,
--   as a list of calls; Controller.Drain is Run of controller.go with its graceful shutdown, as a step
--   relation of the workers. Controller.System puts the handlers and the workers together, by the set
--   of digests and the queue that they share, with a step for each access of these.
-- - Builder: pkg/controller/builder, the options and how Build ends, with the validation of
--   controller.go.
-- - Telemetry: pkg/telemetry. `Instruments` has the methods of Metrics in metrics.go, as the calls
--   that they make of the instruments, `Methods` calls them one after another, `Creation` is
--   newMetrics, `Setup` has Setup, SetupTracing and SetupOTLPLogs, and `Tracing` the spans and the
--   annotations of tracing.go. `Effects` and `Reconciles` put the calls of a worker's turns in, and
--   `Absent` the nil handle. OpenTelemetry is an interface; durations stay in nanoseconds.
-- - Context: pkg/context/context.go; `Worker` is the context that runWorker keeps. Logging:
--   pkg/logging, the handlers and the calls that the loggers pass on. Listwatcher:
--   pkg/listwatcher/listwatcher.go. Pluralizer: pkg/pluralizer/pluralizer.go.
-- - Tests: examples of the theorems.
--
-- Numbers: a priority is an integer without overflow, the counter of the queue wraps at 2 ^ 64 and
-- the theorems about adding ask for room below it. Durations and instants do not overflow, but for the
-- rate limiter, where twice the largest delay wraps at 2 ^ 64 and differences of times saturate. No
-- definition runs on fuel: loops are over lists, and a program is a finite tree.
--
-- Not modelled: locks (each critical section is one step), what is logged, the Prometheus glue, the
-- servers, the certificate watcher, and the construction of clients, since these are calls of other
-- libraries or copies of theirs; a panic in a worker.
pub mod Prelude
pub mod PriorityQueue
pub mod Meta
pub mod Errors
pub mod Condition
pub mod Event
pub mod Controller
pub mod Unstructured
pub mod StatusProjection
pub mod Workqueue
pub mod Instrumentation
pub mod Builder
pub mod Telemetry
pub mod Context
pub mod Logging
pub mod Listwatcher
pub mod Pluralizer
pub mod Tests
