-- ===== src/Lib.antt =====
-- A model of otel-magnify, a server that manages OpenTelemetry collectors over OpAMP: agents
-- connect as instances of workloads, receive configurations, and are watched by alert rules, while
-- operators use an HTTP interface guarded by permissions.
--
-- The parts modelled, how they interact, and where they stand. Paths are from the repository's root.
--
--   Version: internal/version/version.go. `parse`, `compare_semver` and `compare` are parse, the
--     body of Compare and Compare. Texts are lists of code points (Version.Strings has the functions
--     of Go's strings package, Version.Number parseNumber with the bound of a 64-bit int,
--     Version.Identifiers comparePrerelease and sign). The alert engine calls `compare`.
--   Registry: internal/opamp/registry.go. The two maps of InstanceRegistry are dictionaries;
--     `bind_instance`, `update_instance`, `unbind_instance`, `lookup_workload`, `count`,
--     `aggregated_status` and `previous_version` are its methods. A method holds the mutex to its
--     end and so is one step; the clock readings are arguments. The OpAMP server calls these
--     methods on every message.
--   Grace: internal/opamp/grace.go, the timers that delay the handling of a lost connection. The
--     pointers to timers are addresses in a heap, and `schedule`, `cancel`, `enter` (the callback's
--     critical section), `return_from` (the end of the callback) and `begin_stop` are steps. An
--     event list is any interleaving of them. Timer numbers wrap at 2 ^ 64 as the source's do. The
--     delay's length plays no part: a timer may expire at any moment while it is armed.
--   RateLimit: internal/api/login_ratelimit.go. `allow`, `record_failure` and `reset` are the
--     methods, over a dictionary of windows. The split of an address into host and port is left out.
--   TokenConnections: internal/opamp/token_connections.go, the sessions of each token, the leases that
--     operations hold on them, and the waits of a disabled token and of a stop for both. Pointers
--     to sessions and to remove states are addresses. `track`, `acquire`, `fork`, `release`,
--     `remove`, `disable`, `expire_token` and `begin_stop` are the critical sections;
--     `drain_remove`, `finish_remove`, `advance_disable` and `advance_stop` are what the goroutines
--     finishRemove, completeDisable and completeStop do next, and do nothing while they wait. An
--     event list is any interleaving. The callback of a timer may come at any moment and with any
--     generation. Left out: waitRemoveDrain, which only waits, and the write deadlines of the
--     connections (holdHTTPResponse, finishHTTPResponse, clearWriteDeadline).
--   OpampAuth: internal/opampauth/token.go, the texts of managed tokens. `generate` and
--     `parse_and_hash` are Generate and ParseAndHash; OpampAuth.Base64 is the encoding of Go's
--     library, on bytes. uuid.Parse is the parameter `uuid_text`, sha256.Sum256 the parameter `sum`.
--   OpampTokens: internal/store/opamp_tokens.go over its table of
--     internal/store/migrations/00027_create_opamp_tokens.sql, beside the outbox. `create_opamp_token`,
--     `revoke_opamp_token`, `mark_opamp_token_used` and `validate_opamp_token` are the methods; a
--     `Transaction` says whether one is carried out, refused, or carried out with its answer lost.
--     OpampTokens.AuditEvents is validateTokenAuditEvent of internal/store/audit_outbox.go. Its
--     events include the statements of Outbox, which the dispatcher runs on the same table. A
--     digest is the list of its bytes; the times of a row are cut to microseconds, while the checks
--     made in Go use the whole reading of the clock. ListOpAMPTokens, a query, is left out.
--   Approvals: internal/store/config_approvals.go, the requests to push a configuration.
--     `create_or_update_config_approval_request`, `approve_config_approval_request` and
--     `mark_config_approval_request_pushed` are the methods; of the first,
--     `create_or_update_found` is what follows the lookup of a pending request, which may have found
--     what is no longer so. New identifiers are arguments. Its times, like those of the
--     table of alerts, are only kept and never compared with a reading of the clock, and are not
--     cut to microseconds.
--   Perm: internal/perm/perm.go and internal/perm/matrix.go, the permissions and `has`.
--   Outbox: internal/store/audit_outbox.go over its table of
--     internal/store/migrations/00028_create_audit_outbox.sql, and Outbox.Dispatcher:
--     internal/audit/outbox_dispatcher.go. A statement of the database is a step on the rows by
--     their key; it may be carried out, refused, or carried out with its answer lost (`Fault`). An
--     error is a value of `OutboxError` in place of its text. `dispatch_once` is one turn of the
--     dispatcher, which claims an event, calls the sink and settles the claim; what the turn meets
--     (clock readings, the fresh token, failures, and what other transactions do between the claim
--     and its settlement) is a `Turn`. uuid.Parse is the parameter `uuid_text`, which gives the
--     canonical text of an identifier or none, and the order of text of the database is the
--     parameter `id_before`; nothing is assumed of either. A time that reaches a statement, and one
--     that comes back from it, is cut to microseconds (`to_micros`), as the driver and TIMESTAMPTZ do.
--     Attempt counts are numbers without bound, where the column is an INTEGER.
--   Alerts: internal/alerts/engine.go over the table of internal/store/alerts.go. The three
--     `evaluate_...` functions are the rules; a `Visit` is what a pass reads and meets at a workload,
--     failures of the store included, and a panic is `none`. An alert's text is kept as the values it
--     is printed from, and `prefix` cuts an identifier that is given as its bytes. A call of the store
--     that fails changes nothing: a CreateAlert that is carried out and reported as failed is not
--     modelled. `sent` collects what goes to the hub and the notifiers. Alerts.Pages is
--     evaluatePages with ListWorkloadsPage of internal/store/workloads.go, on workloads that do not
--     change during the pass; the order of text of the database is the parameter `id_before`.
--   PushStatus: pkg/models/push_status.go. `hydrate_push_status` is HydratePushStatus as far as the
--     statuses, the counts and the timeout, and PushStatus.Errors is the redaction of error texts,
--     `sanitize_remote_config_error_message`. Go's unicode.ToLower is the parameter `lower`, of
--     which nothing is assumed.
--
-- Prelude has what they share: Boolean tests, lists measured by native numbers, an interface for
-- equality tests, Go's maps as association lists with their laws, and times as nanoseconds since
-- Go's zero time, where a difference is cut at the largest duration. Each part has its examples and
-- tests in a module Examples.
--
-- All loops but one are structural recursions: over the characters, the rows, the workloads, the
-- timers of the map, or, in the backoff of the dispatcher, over the iterations that are left. The
-- loop of evaluatePages runs on fuel, a unit for a page; a fuel above the number of workloads is
-- enough.
--
-- Not modelled: the OpAMP server's handlers, the timeline and the error groups of a push, the
-- workload configurations and canaries, which are separate logic of the program; the
-- semantic diff, the policy and the validator, which work on decoded YAML or run another program;
-- the HTTP handlers, authentication, reports, and the assembly of the server, which are input and
-- output around these parts; the web client, the charts and the scripts.
pub mod Prelude
pub mod Registry
pub mod Grace
pub mod Alerts
pub mod OpampAuth
pub mod OpampTokens
pub mod Outbox
pub mod PushStatus
pub mod RateLimit
pub mod TokenConnections
pub mod Approvals
pub mod Perm
pub mod Version
