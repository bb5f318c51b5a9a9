-- ===== src/Lib.antt =====
-- Mywork-Automate: a verification library for the core logic of the flow automation platform.
--
-- A flow is a graph of nodes and edges. The API (apps/automate-api) stores definitions, validates
-- them, moves them through their lifecycle and guards who may do what; the worker
-- (apps/automate-worker) runs a published definition as a Temporal workflow that walks the graph.
-- Packages that both use stand under pkg/ and internal/.
--
-- The parts and their files:
--   Prelude: strings with Go's order, `sort.Strings`, maps as association lists, integers, the
--     lemmas on lists that the parts share.
--   Value: Go's `any`, as far as the code tells its contents apart.
--   Flow: the structs of internal/flowspec/flow.go.
--   Interpreter: apps/automate-worker/internal/interpreter. Interpreter/Graph is graph.go
--     (findTrigger, outEdges, nodeByID), Interpreter/Workflow is workflow.go (FlowWorkflow,
--     activityOptionsFor, predecessorItems); a `Walk` holds the variables of the loop, `round` is
--     one turn of it and `walk` the loop. Options is about the retry options. Steps says what a round
--     does, as a relation; Runs, Trigger, Start, Paths, Led, Reached, Failures and OrderFree prove what a
--     run does.
--   FlowValidate: apps/automate-api/internal/flowvalidate/flowvalidate.go, one function per loop of
--     Validate and per turn of it, with the issues in the order of the code.
--   Authz: pkg/authz/authz.go, the RBAC table and its readers.
--   Access: apps/automate-api/internal/httpapi/rbac.go, the role of a caller and the gates.
--   Lifecycle: Machine is apps/automate-api/internal/lifecycle/lifecycle.go, Handlers the pause, resume
--     and stop handlers of apps/automate-api/internal/httpapi/handlers_lifecycle.go.
--   Scheduler: apps/automate-api/internal/scheduler, spec.go and mapping.go.
--   SqlBuilder: pkg/sqlbuilder/sqlbuilder.go, with the text of the query that it prints.
--   Masking: pkg/masking/masking.go, with the cache of decisions passed along.
--   Lockout: apps/automate-api/internal/auth/lockout.go; Login: service.go and store.go beside it.
--   Config: internal/config/config.go.
--   Expression: pkg/expression. Values is Go's `any` over the floats and times of a `Runtime`; Lexer,
--     Parser, Coerce, Pipes and Eval are the files of those names, a function of the parser per
--     function of the code, on the list of tokens that are left. Parser/Grammar says what the parser
--     accepts, as relations between trees and tokens.
--   TemplateRender: pkg/templaterender/templaterender.go, with the offsets of its errors.
--   FileStore: pkg/filestore/filestore.go. Keys is `resolve` with the `path.Clean` it rests on, Local
--     the operations of LocalFileStore over a disk, Confined, Slashes and Stored are about them.
--   Publish: publishFlow of apps/automate-api/internal/httpapi/handlers_write.go with its helpers,
--     updateFlowDraft, and listVersions and rollbackFlow of handlers_lifecycle.go. History is about
--     the version row of a published flow, Rollback about the answers and about what a rollback
--     restores.
--   Execution: runs. Steps is buildSteps of apps/automate-api/internal/httpapi/handlers_write.go and
--     what apps/automate-api/internal/runner/runner.go hands to it, Loading is loadRunnable and
--     resolveConnections, Handlers is runFlow and startRun with its onDone, and retryExecution and
--     cancelExecution of handlers_execops.go. Recorded is about the steps of a run of the worker,
--     Reported about what the store holds after it, Started about runs that are started or not,
--     Cancelled about runs that are cancelled.
--   Connections: the handlers of connections in handlers_write.go and the DSN of
--     apps/automate-api/internal/store/store.go; Sealed is about what depends on a password.
-- How they meet: the workflow runs what the validator accepts (Interpreter/Failures), the lifecycle
-- handlers ask the state machine, the gates ask the matrix, and a login drives the lockout tracker.
-- Publishing compiles the schedule of the definition, templates evaluate expressions, and what the
-- workflow gives is recorded by the API. The JSON that carries definitions and results between the two
-- programs is taken to hand them over as they are.
--
-- Bounds. The walk has fuel for one round per edge and two more: each visited node uses up its
-- out-edges, so no more rounds can be made. The lexer and the renderer have fuel for one turn per
-- character and one more, the loops of the parser for one turn per token; each turn takes one at
-- least. The budget of evaluation steps is the program's own. Numbers are printed with fuel for 19
-- digits, or 20 without a sign, as many as a 64-bit integer has. Conversions to int32 and products of
-- nanoseconds wrap as the machine does.
--
-- Outside the model. The activity of the workflow (Temporal and the executors) is a parameter that
-- is told how many nodes have run; the store, the scheduler and the audit trail of the lifecycle are a
-- record of operations over any world, with laws for what the store promises. Parameters too are
-- `strings.ToLower`, the password check and the token issuer of the login, the verifiers of tokens at
-- the gates, the decoder of JSON configs for the scheduler, and the regular expressions, the printing
-- of floats and SHA-256 for masking. Expressions have their floats, times, zones and the case of
-- letters in a `Runtime`, the printing of `%v` as an argument, and the deadline as an oracle that may
-- expire at any step; their errors carry names and numbers but no positions. The file store has a disk,
-- with laws, in place of the package os. A nil slice or map is the empty one, and strings are valid UTF-8.
-- An operation that holds a mutex is one step. Left out: the other HTTP handlers and the stores, the
-- executors, generated files, mail, secrets and observability, which are input and output, and the
-- web application.
pub mod Prelude
pub mod Value
pub mod Flow
pub mod Interpreter
pub mod FlowValidate
pub mod Authz
pub mod Lifecycle
pub mod Lockout
pub mod Login
pub mod Scheduler
pub mod SqlBuilder
pub mod Masking
pub mod Access
pub mod Config
pub mod Expression
pub mod TemplateRender
pub mod FileStore
pub mod Publish
pub mod Execution
pub mod Connections
