-- ===== src/Lib.antt =====
-- Dockplane keeps the containers and stacks of many hosts from one control server. Each host runs
-- an agent that opens a connection to the server; the server asks it for operations, writes down
-- in a database what it is about to do, and reads the host afterwards to find out what was done.
-- The development models the core of the server (api/src), which is TypeScript:
--
-- - Stacks (api/src/stacks): what a reading of a host says about an operation on a stack.
--   Lifecycle is `classifyStackLifecycle` of stack-lifecycle.ts, Apply is `classifyStackApply` of
--   stack-deployment.ts, Delete is `classifyStackDelete` of stack-delete.ts. Operation is
--   `StackLifecycleService` of stack-lifecycle.service.ts, which starts, stops and restarts a
--   stack, and Removal is `StackDeleteService` of stack-delete.service.ts with `isArchived` and
--   `assertNotArchived` of api/src/inventory/host-archive.ts: each writes down what it is about to
--   do, asks the agent, reads the host and lets the classifier decide. World holds the rows, the
--   lock and the record of requests, events and audit entries that both change. Plan is
--   stack-plan.ts, the plan that the agent is asked to deploy.
-- - Compiler: `ComposeCompilerService` of api/src/stacks/compose-compiler.service.ts, which runs
--   the Compose compiler and reads its answer, as a machine over what the compiler's process does.
-- - Environment: how environments are resolved, kept encrypted, sent and shown
--   (api/src/containers/desired-config.ts, api/src/stacks/stack-environment.ts); Environment/Box
--   is `SecretBox` of api/src/common/crypto.ts.
-- - Version: the reading and ordering of versions (api/src/version/semver.ts), the summary of the
--   agents' versions (api/src/version/agent-versions.ts), and which agents may run a stack
--   (api/src/stacks/stack-attribution.ts).
-- - Containers (api/src/containers): the same for one container. Recovery is `classifyRecovery` of
--   recovery.ts; Finalizer is `RecoveryFinalizer` of recovery-finalizer.ts, which writes the
--   decision down; Guard is `PendingMutationGuard` of pending-guard.ts, which refuses an operation
--   while something is unresolved; Reconciliation is `ReconciliationService` of
--   reconciliation.service.ts, which puts the decision and the writing together; Store holds the
--   tables (api/src/database/schema.ts) they share.
-- - Auth (api/src/auth, api/src/rbac): Sessions is `SessionService` of session.service.ts, Roles
--   is `RbacService` of rbac.service.ts, Access the three guards that api/src/app.module.ts
--   installs: session.guard.ts, csrf.guard.ts and permissions.guard.ts.
-- - Operations (api/src/operations): Registry is `MutationRegistry` of mutation-registry.ts, the
--   lock that every operation on a container or a stack takes.
-- - Agents (api/src/agents): Capabilities is capabilities.ts, Connections is
--   `AgentConnectionManager` of connection-manager.service.ts, Dispatch (with Dispatch/Streams) is
--   `AgentDispatchService` of agent-dispatch.service.ts: the server's requests to an agent, and
--   the replies, timeouts and lost connections that answer them. Dispatch/Runs puts these in any
--   order.
-- - Base: lists, finite maps, results and texts that these share; Base/Errors is `AppError` of
--   api/src/common/errors.ts.
--
-- How the code is read. A table is a list of rows with the columns that the code uses, a query is
-- a search of the list, and a statement is a function of the database; a transaction is a function
-- that returns the database or says that it was rolled back. What a call writes and returns is its
-- result; a thrown AppError is the `err` of a result. Times are milliseconds and are arguments, as
-- are random values. Sockets and payloads are numbers that stand for the objects, and a function
-- that a call returns is a number that stands for it. `null` and `undefined` are `none`, and where
-- the code tests a text for truth the empty text counts as absent (`is_blank`). Every loop is
-- structural recursion on a list; the only fuel is that of `decimal`, which writes a number `n` in
-- at most `n` steps of division by ten, and that of `scale`, which rounds a number of a version:
-- 971 is the largest exponent of a JavaScript number, and what needs a larger one is `Infinity`.
--
-- What is not the program's is a parameter: `Date.parse` as the comparison `started_after`,
-- SHA-256 as `hash`, the cutting of a text as `clip`, the reading of an origin from a URL as
-- `safe_origin`, and the lower case of a text as `lower`; `localeCompare` as `locale_compare`, the
-- decoding of a chunk of the compiler's output as `decode`, Node's random bytes, cipher and
-- base64url as `iv`, `seal` and `unseal` of Environment/Box, `JSON.parse` as `parse` and the field
-- types of a schema as `read`. An operation on a stack takes with it what the outside answers: the
-- ids of its new rows, the agent's reply, and `sync`, what reading the host makes of the
-- containers, which depends on the requests sent before it. Where an environment is resolved or
-- shown, the envelopes are those of any function `encrypt`. The theorems hold for any of them;
-- where two digests have to differ, or a text has to come back from its encryption, that is a
-- hypothesis.
--
-- An operation on a stack runs from its start to its end without another service's statements in
-- between; the lock it takes is modelled, with other holders in it. Every statement on the
-- database succeeds: the code does not guard its audit entries and events, and what happens when
-- such an insert throws is not modelled. The numbers of a version round above 2^53 and become
-- `Infinity` as JavaScript's do; the milliseconds and counts of a plan are natural numbers. A
-- removed row takes with it the rows that refer to it, as the foreign keys of the schema say.
--
-- Not modelled: logging, the controllers and the request schemas, which are the framework's; the
-- services that deploy, recover, list and edit stacks (stack-deployment.service.ts,
-- stack-recovery.service.ts, stack.service.ts), that manage containers
-- (container-management.service.ts, operations/lifecycle.service.ts), that discover what runs on a
-- host (api/src/discovery), that sign users in and check their second factor, that enroll agents,
-- and that stream logs, which are not covered yet; certificates, which are a library's; the agent
-- and the compose compiler, in Go; the user interface.
mod Base
pub mod Stacks
pub mod Containers
pub mod Auth
pub mod Operations
pub mod Environment
pub mod Version
pub mod Compiler
pub mod Agents
