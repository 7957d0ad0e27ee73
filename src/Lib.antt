-- ===== src/Lib.antt =====
-- garam-agent-operator keeps the definitions of agents: an organization publishes execution profiles
-- and templates, creates agents from them, configures them, stops them and recovers them; the
-- controller that an agent is assigned to reads what it has to run, registers where it runs it, and
-- activates it. The part that decides all this is the package internal/definition, a service over a
-- store. Three servers stand before it: internal/console answers the console, internal/execution the
-- agents' runtimes, and internal/distribution the controllers. A controller's side of the last is
-- internal/desired; every process presents garam a token that internal/machinetoken holds. On its cluster
-- the controller runs an agent in a Pod, and internal/controller/agent_fence.go decides when a Pod that is
-- deleted is let go.
-- This library models these parts, and the service's store in process.
--
-- The parts and their files:
--
--   Prelude, Map, Exec        lists, tests, equality; a Go map as an association list; a method that
--                             changes an object and may fail
--   Definition                internal/definition/definition.go: the records (Types), the errors
--                             (Errors), Go's == on the records (Equalities), ParseRevision and
--                             Revision.String (Revision), DecidePlacement (Placement)
--   SecretRef                 internal/secretref/secretref.go
--   Repository                internal/definition/repository/memory.go, memory_lifecycle.go and
--                             memory_operators.go: `Memory` as a record with the fields of the Go
--                             struct, and one function for each method: profiles, templates and publish
--                             requests (Publishing), revisions, configure requests and the feed
--                             (Revisions), Creations, Placements, Activations, Statuses, Recoveries,
--                             Stops, Operators
--   Repository/Calls          the methods that change the store, as data, and runs of them
--   Service                   internal/definition/*.go: each method of `service` as a chain of calls on
--                             the store: Publish, Create, Configure, Activation, Recovery, Stop, Read,
--                             Status (with operator.go), and the checks of definition.go (Checks)
--   Service/Operations        the operations of the service, as data, and runs of them
--   History                   what holds after any calls (Publishing, Creations, Requests, Revisions,
--                             Placements, Activations, Statuses, Recoveries, Stops, Operators,
--                             Executions), and which stores the service's operations reach (Reach,
--                             Operations)
--   Handler, Text             a handler of requests, which answers, fails or panics; the texts that Go's
--                             packages read
--   Execution                 internal/execution: the patterns and bodies (Formats), the refusals
--                             (Refusals), the two routes (Activate, Report), server.go and respond.go
--                             (Respond); what a request carries (Carried) and what the steps ask for
--                             (Admission), and what holds of them
--                             (Activations, Retries, Reports, Contracts)
--   Distribution              internal/distribution: who asks and what is proved (Session), the reports
--                             (Requests), the desired feed and its wait (Feed), respond.go (Respond);
--                             what holds (Proofs, Registrations, Releases)
--   MachineToken              internal/machinetoken: source.go and health.go, with `send` (Exchange) and
--                             transport.go (Transport); what holds (Bounds, Waits, Health, Trips)
--   Desired                   internal/desired: Registrar, Puller, Recoverer and Images, each with what
--                             holds of it below it
--   Console                   internal/console: the authority of a request and the routes that configure,
--                             create, stop and start an agent (Routes), what they are served only
--                             under (Authority), and what is configured (Configured)
--   Controller                internal/controller/agent_fence.go: the objects that it reads (Cluster), the
--                             fence of a deleting Pod (Fence) and its release (Fence/Release); what the
--                             evidence rests on and what a Pod is released on (Fence/Verified,
--                             Fence/Released)
--   Tests                     runs on concrete inputs
--
-- How they interact. The service keeps no state: a method of it reads and writes the store by the store's
-- methods. Every method of `Memory` holds the mutex from its first line to its return, so it is one step,
-- and the steps of concurrent requests are one list, in the order in which they took the mutex. What is
-- stated of runs of `Call` therefore holds whatever the requests and however they interleave. What is
-- stated of an operation of the service on a store has no other request between its calls.
-- `History.Reach` has the stores that calls reach where what each call needs holds when it is made;
-- profiles and templates are only ever added, so a check made before other requests' calls still stands
-- after them.
--
-- A request of Console, Execution or Distribution is one chain of calls on the store, with no other request
-- between them, except that the feed's wait is given the stores that its wakes find. What is stated of
-- a request that is answered is read off its own calls; `Execution.Retries` puts any calls of the store
-- between two requests. A loop of Desired and a source of MachineToken are run over the list of what
-- they meet: a reply for each call, a reading of the clock, a call by someone else.
--
-- Conventions. A method returns its result and the store after it; what was written before an error
-- stays. An error is the sentinel that `errors.Is` finds; the text round it is left out. `panic` is an
-- index out of range or a nil pointer. A `Revision`, a `Version` and a `Position` are natural numbers,
-- with 0 for every value below 1; `int64_succ` wraps past the greatest int64. A slice is a list, its
-- indices are written out as the code has them (`version_at` is `versions[version-1]`). A clone is the
-- value. The order of an association list stands for the order in which Go ranges over the map.
-- `slices.SortFunc` is insertion sort: the keys it compares by are distinct. A time is a number of
-- nanoseconds, or in a report a number, with 0 for Go's zero time. A duration below 0 reads as 0 where
-- the code only compares it; a product of seconds and nanoseconds wraps as an int64 does
-- (`to_duration`).
--
-- Bounds and fuel. `revision_string` divides by ten once a round and has n + 1 rounds for n, which is
-- enough because each round at least halves what is above nine. `parse_int` refuses what an int64 cannot hold. Every other
-- function is a structural recursion.
--
-- Parameters, for code outside the repository or of another package: `Validation` (the name and key
-- validation of k8s.io/apimachinery), `Quantities` (its resource quantities), `Registrar` (what garam
-- answers a registration), `quote` (encoding/json's text of a string), `same` and `check` (the
-- comparison and the check of execution settings, which the store keeps and never looks into), `Codec` and
-- `Setting` (SHA-256 and the JSON decoder), `Execution.Garam` and `prove` (what garam answers in one request),
-- `Reply` and `Sent` (what the control service and an exchange bring), `Turn` (which calls of a store or
-- of the API server fail, what one finds that another did not, and what the encoders and the random source bring), the clock.
--
-- Not modelled: the store in PostgreSQL (SQL); the console's routes that publish, read or recover, and its
-- mapping of errors (internal/console); the clients of
-- garam and of the control service (internal/garam, internal/garammachine, the packages below
-- internal/execution, internal/distribution and internal/definition/registrar, and
-- internal/desired/client.go), whose answers are parameters; the assertion that a token is exchanged for
-- and `Keep` (internal/machinetoken); the rest of the reconciliation of Agents (internal/controller);
-- internal/certificate, internal/agentname, the wiring in cmd. The functions that `WithActivationLock` and
-- `WithAgentLock` run are given by other packages.
pub mod Prelude
pub mod Map
pub mod Exec
pub mod Definition
pub mod Repository
pub mod Handler
pub mod Text
pub mod Execution
pub mod MachineToken
pub mod Desired
pub mod Distribution
pub mod Controller
pub mod Console
pub mod SecretRef
pub mod Service
pub mod History
pub mod Tests
