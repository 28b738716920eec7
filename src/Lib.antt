-- ===== src/Lib.antt =====
-- TACTIX: the access rules and the incident services, with what makes them correct.
--
-- The program is a set of services behind a gateway. A caller is known by a signed token
-- (packages/authz), whose groups are mapped to roles; within an operation the incident service
-- computes the caller's roles from groups and grants (services/incident-svc/src/rbac), and
-- services/rbac is a stub of the same computation for other services. services/incident keeps
-- incidents as logs of events that every request replays. services/auth-service issues the tokens,
-- gateway passes requests and sockets on, and services/realtime-svc sends the notifications of the
-- database to the sockets.
--
-- - Common: array and string methods of JavaScript over native numbers and texts.
-- - Json: values of request bodies, truthiness and the string schemas of zod.
-- - Rbac: services/incident-svc/src/rbac/effective.ts; a Set of roles is the list of its members
--   in insertion order. Rbac/Level: docs/RBAC.md as one level per user. Rbac/Stub:
--   services/rbac/src/index.ts, its agreement with Rbac, its assignment store.
-- - Authz: packages/authz/src/index.ts (requireAuth, requireRole, resolveRoles, wsAuth).
-- - Incident: services/incident/src (domain, api, event stores). Incident/Store has the interface
--   EventStore with its promise; the handlers take any store that keeps it. Incident/Postgres is
--   PgEventStore.
-- - Action: asynchronous handlers as state passing, with queries that may be rejected and
--   notifications whose errors are dropped; Action/Rules and Action/Yields reason about them.
-- - Schedule: the shifts of services/incident-svc (types/schedule.ts, lib/time.ts). Schedule/Repo:
--   repo/schedule.repo.ts; Schedule/Service: services/schedule.service.ts, createShift,
--   updateShift, deleteShift and the queries; Schedule/Routes: routes/schedule.routes.ts.
-- - Feed: what is written down on an incident of services/incident-svc. Feed/Messages:
--   incidents/messages.ts, warlog.ts and routes/incidents/messages.ts; Feed/Chat, Feed/Tasks,
--   Feed/Activity: the files of routes/incidents. Feed/Order is the sort of the lists. The handlers
--   are taken by themselves, not behind the calls of requireAuth in index.ts (see Permissions).
-- - Registry: the variables of services/incident-svc/src/index.ts and the requests on them, with
--   commitEvent. Registry/Handlers has one function per request, Registry/Replay the incident
--   that a list of events tells, Registry/Runs the sequences of requests.
-- - ZeroTrust: the switch of packages/feature-flags, packages/settings and apps/api: the cached
--   flag (resolveZeroTrust), the admin routes and zeroTrustGate.
-- - Discovery: services/discovery-svc/src/index.ts, its Map of servers (prune, announce) and its
--   invites (createInvite, verify-invite).
-- - Realtime: services/realtime-svc/index.js, the state of one client (flush, enqueue, the handlers).
--   Realtime/Server: the map of clients, the notifications and the upgrade; Realtime/Alone: what
--   a client gets among the others. Realtime/Queue,
--   Realtime/Order and Realtime/Drain: the bound, the order and the delivery of the events.
--   Realtime/Channel: the notifications that the services write and who gets them.
-- - Permissions: the requests of services/incident-svc/src/index.ts on the permissions,
--   assignments, roles and units of an operation; Permissions/Refused and Permissions/Checked: what
--   comes of them and of their callbacks, before and behind the check of the caller.
-- - Dispatch: the tests of createServer in services/incident-svc/src/index.ts, one rule each.
-- - Gateway: gateway/src/index.ts, its guard and proxy, and its sockets on their way to Realtime.
-- - Auth: packages/auth/src/index.ts. Auth/Service: services/auth-service/index.js, login over a
--   directory and refresh. Auth/Login: who gets tokens, and what a refresh token is good for.
-- - Mcp: src/mcp/mcp_agent.ts with src/mcp/dispatcher.ts and src/handlers/sitrep.ts, over a disk.
-- - Playbook: services/playbook-svc/src/routes.ts and rbac.ts, the handlers behind the guard.
-- - Eng: services/eng-svc/src/index.ts, messages, retention and sockets.
-- - Notify: ui/src/lib/notify.ts. Bootstrap: services/bootstrap-svc/src/index.ts, configuration and
--   score. Warlog: services/warlog-svc/index.js.
-- - TakIngest: services/tak-ingest-svc/messageLoader.js and index.js.
--
-- Parameters: jwt.verify, signatures, regular expressions, JSON.parse and URL parsing, toLowerCase,
-- randomUUID, `new Date(text)`, `Number(text)`, the text of a JSON value in a column, the clock, the
-- path matching of express, the LDAP directory and jwt.sign.
-- All loops are structural; no fuel is used.
--
-- Not modelled: transport (sockets, express, promises that never settle), logging, the user
-- interface, and the parts that the manifest lists as not modelled.
pub mod Common
pub mod Json
pub mod Action
pub mod Rbac
pub mod Authz
pub mod Incident
pub mod Schedule
pub mod Feed
pub mod Registry
pub mod ZeroTrust
pub mod Discovery
pub mod Realtime
pub mod Permissions
pub mod Gateway
pub mod Auth
pub mod Mcp
pub mod Playbook
pub mod Eng
pub mod Notify
pub mod Bootstrap
pub mod Warlog
pub mod Dispatch
pub mod TakIngest
