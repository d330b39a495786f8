-- ===== src/Lib.antt =====
-- InfraInventory: an inventory of machines, networks and assets with discovery, monitoring and
-- automation. The program has a backend (backend/, Fastify and Prisma over PostgreSQL), a discovery
-- service (discovery/), a monitoring worker (monitoring-worker/) and a web frontend (frontend/).
-- Modelled here are the automation of the backend, the access control that stands before its routes,
-- the accounts, the tickets, the requests for changes, the arithmetic of IPv4 ranges, the monitoring
-- engine, and the discovery's choice of targets, its scan and its classification of devices.
--
-- The automation (backend/src/modules/automation/). A client asks the service to execute a workflow;
-- the gate refuses it, or holds it back with an approval request, or starts the worker; the worker
-- asks the circuit breaker and the target lock, runs the steps, and reports to the breaker. Agents
-- send heartbeats, and the assistant proposes actions that a user decides on.
--   Automation/Locks      automation.locks.ts, TargetLockManager: one definition per method, on the
--                         map of locks; each `Date.now()` is an argument.
--   Automation/Breaker    automation.circuit-breaker.ts, CircuitBreakerManager, in the same way; the
--                         source mutates the object in the map, the model writes it back.
--   Automation/Risk       automation.actions-registry.ts: risk levels and the catalogue.
--   Automation/Worker     automation.worker.ts, executeWorkflowRun, cut into the blocks that its
--                         comments number. Worker/Effects has the state (locks, breakers, writes,
--                         log, executed actions) and a monad of state and exceptions; the clock, the
--                         failing database calls and the results of actions are an environment that
--                         answers the n-th question. Worker/Steps has the loops: over the list of
--                         steps, and over the attempts that are left of `retryCount + 1`, so that
--                         every loop ends.
--   Automation/Gate       automation.service.ts, executeWorkflow, calling the worker's definition.
--   Automation/Approvals  createApprovalRequest and decideApproval of the same file.
--   Automation/Agents     registerAgent, processAgentHeartbeat and revokeAgent.
--   Automation/Proposals  createAIProposal and decideAIProposal.
--
-- Access control. A route calls requirePermission, which authenticates the request and looks the
-- permission up in the table of the user's role.
--   Access/Permissions    backend/src/utils/permissions.ts.
--   Access/Auth           backend/src/middleware/auth.ts.
--
-- Accounts. Three services share the table of users: the administration of users, the login with
-- the own profile, and the installation, which makes the first administrator.
--   Accounts              the state: the tables of users and settings, and the change log.
--   Accounts/Users        backend/src/modules/users/users.service.ts.
--   Accounts/Session      backend/src/modules/auth/auth.service.ts.
--   Accounts/Setup        backend/src/modules/setup/setup.service.ts; what the database refuses to
--                         getSetupStatus, which catches it, is an argument of each call.
--   Accounts/Calls        the calls of the three in one type, and histories of them.
--   Accounts/Moves        the moves that the table of users may make, as an abstract specification;
--                         its children take each service to it.
--
-- Tickets. Tickets are numbered by prefix, dated by the SLA of their priority, commented and closed.
--   Tickets               backend/src/modules/tickets/ticket.service.ts, columns and deadlines.
--   Tickets/Service       its operations, over the tables of tickets and SLAs.
--   Tickets/Moves         histories of calls, and what each does to the table.
--
-- Monitoring. A worker samples the machines that the backend lists, and posts what it measured.
--   Monitoring            monitoring-worker/src/collector/engine.ts, with the probes as a parameter.
--
-- Locations. A table of locations, each below another one or at the top, that is shown as a tree.
--   Locations             backend/src/modules/locations/locations.service.ts: getTree, with the shared
--                         nodes of its map by their ids, and create, update and delete.
--   Locations/Tree, Shown what getTree builds, and what can be reached from its roots.
--   Locations/References  histories of the operations, under the foreign key of the database.
--
-- Changes. Requests for changes of the infrastructure are numbered, approved and carried out.
--   Changes               backend/src/modules/changes/infra-change.service.ts.
--
-- Addresses. The subnet calculator serves the address management of the backend; the discovery
-- service turns a range and its exclusions into the list of addresses to scan.
--   Ipv4/Address          backend/src/utils/subnetCalculator.ts, intToIp and ipToInt.
--   Ipv4/Subnet           the rest of that file for IPv4: texts are split, trimmed and parsed by the
--                         definitions of Prelude/Decimal, bits are masked by those of the native
--                         numbers; Ipv4/Bits has the laws of masks.
--   Networks              backend/src/modules/networks/networks.service.ts, createNetwork,
--                         updateNetwork and deleteNetwork; Networks/Blocks has their histories.
--   Ipam                  backend/src/modules/networks/networks.service.ts, createIP, updateIP and
--                         deleteIP, over the tables of addresses and machines.
--   Ipam/Conflicts        detectConflicts of the same file; Groups has the map that it builds.
--   Ipam/Interfaces       createInterface, which calls createIP, updateInterface, deleteInterface.
--   Validators            backend/src/utils/validators.ts.
--   Discovery/Cidr        discovery/src/scanner/cidr.ts; its children say which addresses a scan
--                         visits (Spared) and which it must visit (Complete).
--   Discovery/Classifier  discovery/src/scanner/classifier.ts: one Boolean definition per signature,
--                         and the ladder over them. `toLowerCase` is that of ASCII.
--   Discovery/Engine      discovery/src/scanner/engine.ts: the workers of a scan as steps between
--                         their awaits, in any order, with the cancellation in between.
-- A 32-bit number is a natural number below 2 ^ 32, and `<<`, `+` and `>>> 0` have their `% 2 ^ 32`
-- written out; `parseInt` gives an integer or nothing, exact where a double would be rounded. The
-- average of the monitoring and the progress of a scan are rounded as doubles are.
--
-- Shared: Prelude (tests, lists, text, Prelude/Decimal, Prelude/Dict for JavaScript's Map,
-- Prelude/Double for quotients of doubles), Store (the interface to a table of the database: what
-- find and put promise each other; Store/Queries for a table that is searched and counted by
-- conditions, whose writes may be refused).
--
-- Parameters: the tables of the database, the JWT library, the SHA-256 hash, the ids and tokens that
-- are drawn, the readings of the clock, and what an action does. Times are milliseconds in the
-- natural numbers: a difference that the source would get negative, from a clock set back, is 0
-- here. Texts of messages are left out where no code reads them.
--
-- Not modelled: the built-in actions and the command filter, which are sockets and regular
-- expressions; IPv6; VLANs; the other services of the backend, routes, schemas and the frontend; the probes
-- of the discovery service and of the monitoring worker.
pub mod Access
pub mod Accounts
pub mod Automation
pub mod Changes
pub mod Discovery
pub mod Ipam
pub mod Ipv4
pub mod Locations
pub mod Monitoring
pub mod Networks
pub mod Prelude
pub mod Store
pub mod Tickets
pub mod Validators
