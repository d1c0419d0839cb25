-- ===== src/Lib.antt =====
-- Models of aimgr, the tool that coordinates AI account credentials across a fleet of hosts, with
-- the theorems that make its coordination correct.
--
-- The program keeps credentials in one Redis server that every host reaches directly. These parts
-- of it are modelled, bottom up.
--
-- Core: the normalizers of src/core/labels.js (`normalize_label`, `normalize_agent_id`,
--   `normalize_hermes_home_id`) and of src/core/providers.js (`normalize_provider_id`). Every key and
--   every record is named by what they return. A text is a list of UTF-16 code units; `toLowerCase`
--   is a parameter (`LowerCase`) of which only the effect on ASCII is assumed.
--
-- Coordination: `Redis` is the server's interface, with the documented laws of GET, SET PX, SET NX
--   PX, PEXPIRE, DEL and of passing time; `Redis/Memory` is a server that meets them. `Keys` builds
--   the keys (src/coordination/records.js, redis-store.js, redis-credential-lease.js).
--   `Lease/Scripts` has the four Lua scripts of src/coordination/redis-credential-lease.js, each one
--   atomic step of the server, and `Lease/Handle` the handle: a record of what the closures share,
--   and one function for each operation, which returns the server, the handle and the answer. A
--   call is delivered, or its request is lost, or only its reply (`Delivery`); the last two throw.
--   `Lease/Calls` interleaves calls of any processes with passing time.
--   `Records` models `casPutJsonRecord` of src/coordination/redis-store.js. WATCH remembers how often
--   a key has been modified, and three functions stand for what other clients do between WATCH and
--   GET, between GET and EXEC, and between an aborted EXEC and the second GET.
--
-- Targets: `MachineLease` is src/targets/claude-machine-lease.js. The sessions of one machine share a
--   lease through a holder file; each operation is one step, since it holds a directory lock.
--   `IdleStop` is src/targets/claude-idle-stop.js: which account a scheduled job frees, and the wait
--   for its sessions to end. Its loop has fuel, a turn for each half second of the limit and one more.
--
-- Pool: `Usage` reads a usage snapshot (src/pool/usage.js, src/pool/token-usage.js,
--   src/core/numbers.js and the tests of src/pool/account-status.js). `Numbers` is a parameter: the
--   finite numbers with their order. `Cycle` is the loop over the recent labels, which src/pool/ranking.js
--   and src/pool/history.js share, and `Select` is `pickLeastUsedCodexPoolLabel`;
--   `NextBest` is `pickNextBestLocalCliPoolLabel`. A comparison is a
--   total preorder (`Preorder`), and `localeCompare` is one that stays open. `Account` is
--   `derivePoolAccountStatus`, whose reasons are constructors.
--
-- Pool/Planner is `planWeightedPoolAssignments` of src/pool/weighted-planner.js, which spreads agents
--   over accounts: `Weights` (src/state/demand.js), `Candidates`, `Demands`, `Loop` (one turn for each
--   agent, with what the loop changes as a record), `Report` and `Plan`. `Arithmetic` is a parameter:
--   the operations on finite numbers. An object is the list of its entries, and an infinite ratio is
--   `none`.
--
-- Pool/Rank is `rankPoolCandidates` of src/pool/ranking.js, with the demands that it takes from
--   src/status/metrics.js; `Forward` is about the current label, which is moved to the front.
--   Pool/Capacity is what `projectPoolCapacity` of src/pool/capacity.js says of the history.
--
-- Cli: `parseArgs` of src/cli/args.js. `Names` has the options by their spelling, `Options` the
--   command that each belongs to and the object that is returned, `Presets` the expansion of
--   `aim claude run`, and `Args` the classification of an argument and the loop.
--
-- Network, Mcp and Routines: `Egress` is src/network/claude-egress-policy.js, `Policy` is
--   src/mcp/policy.js, held in `Policy/Laws` against the words of `parseArgs` and the commands whose
--   handlers start a client, and `Schedule` is `deriveRoutineOccurrence` of src/routines/schedule.js, to
--   which the local calendar is a parameter.
--
-- All other loops run over lists and have no fuel.
--
--
-- Credentials: the logins of the Claude provider. `Bundle` and `Derive` are
--   src/credentials/claude-bundle.js; a JSON property is `none` where it is missing or has another
--   type, and `Number` and `Date.parse` are a parameter (`Dates`). `completeness` has the error of a
--   date past the calendar, and the other definitions are for instants within it.
--   `Replacement` has the identities and tokens of src/credentials/claude-native.js and
--   `Replacement/Decide` the decision whether one bundle replaces another, check by check. `Store` and
--   `Store/Write` find a login among the labels of one host and store one, and `Store/Reach` is about
--   sequences of stored logins, as a step relation.
--   `SyncBack` takes rotated tokens back from the files of the tool. `Publish` is
--   src/coordination/login-publish.js: identities and freshness, `Publish/Record` the record of
--   src/coordination/records.js, `Publish/Maintained` what is planned from a snapshot, and
--   `Publish/Sent` the compare-and-set of it, through `Coordination/Records`. `Maintenance` is
--   `applyMaintenanceEscalation` of src/credentials/claude-maintenance.js, whose streak of failures
--   passes from host to host through the server; a publication is confirmed, written with a later
--   step that throws, or not written.
--
-- Not modelled: the wait for the directory lock and its stale limit, connecting to the server and
-- its timeouts, dispatch of commands, rendering of reports, browser automation, native helpers and
-- the files of the tools that are launched. They are input and output.
pub mod Prelude
pub mod Core
pub mod Coordination
pub mod Targets
pub mod Pool
pub mod Network
pub mod Mcp
pub mod Routines
pub mod Cli
pub mod Credentials
mod Tests
