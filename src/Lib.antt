-- ===== src/Lib.antt =====
-- A verification library of Windsurf_To_API_Go, a server that offers Windsurf's models through an
-- OpenAI-compatible API, and of its dashboard.
--
-- The parts and their files:
-- * Auth (internal/auth/pool.go) is the pool of upstream accounts. Auth/Account has its state, a list of
--   accounts and what was last saved; Auth/Limits the rate-limit windows and the budget per minute;
--   Auth/Select the calls Acquire, AcquireByKey and IsAllRateLimited; Auth/Signals the reports of the
--   chat path (MarkRateLimited, ReportError, ReportSuccess, ReportInternalError, UpdateCapability);
--   Auth/Drought the counts and the drought mode; Auth/Admin loading, saving and the operator's edits;
--   Auth/Views what the dashboard shows of the windows. Auth/Eligibility, Preference, Acquire, Budget,
--   Quarantine, AllLimited, Breaker, Registry, Drought/Threshold and Views/Agreement are the proofs. The
--   pool reads the catalog and the tier table of Models (internal/models/catalog.go), and writes
--   rate-limit events to BanHistory (internal/banhistory/banhistory.go).
-- * ConvPool (internal/convpool/pool.go) is the pool of reusable upstream conversations, found by a hash
--   of their messages (ConvPool/Fingerprint).
-- * ModelAccess (internal/modelaccess/modelaccess.go) is the global allow and block list, and the
--   background writer of its file.
-- * Pbenc (internal/pbenc/pbenc.go) is the protobuf codec of the messages to the language server.
-- * Cache (internal/cache/cache.go) is the LRU cache of responses on disk, with Cache/Rows,
--   Cache/Consistency, Cache/Interleaving and Cache/Replay on its bookkeeping.
-- * Stats (internal/stats/stats.go) counts requests by model, account, status and hour; Stats/Snapshot is
--   its view, Stats/Totals, Stats/Consistency and Stats/Percentiles are on its sums and percentiles.
-- * ProxyCfg (internal/proxycfg/proxycfg.go) has the proxies of the server and of its accounts;
--   Web/Views/Proxy/Server the routes and the JSON between it and the proxy page.
-- * Netguard (internal/netguard/netguard.go) tells private addresses and hosts from public ones, with the
--   tests of Go's net package on bytes; Netguard/Public and Netguard/Ranges are on what it lets through.
-- * Models/Fallback (internal/models/catalog.go) is the chain of models to fall back to;
--   Models/Fallback/Ladder says where it leads.
-- * Models/DisplayName (internal/models/scoring.go) prints the labels of models, as does
--   Web/ModelName (web/src/utils/modelName.ts) in the dashboard.
-- * Web/Request (web/src/api/request.ts), Web/Session (web/src/stores/auth.ts, web/src/router/index.ts,
--   web/src/views/Login.vue, web/src/layouts/BasicLayout.vue) and Web/I18n
--   (web/src/composables/useI18n.ts) are the dashboard's requests, session and texts.
-- * Web/Api (web/src/api) has the types of the dashboard's API, one file of Types for each group of
--   pages, each function as the call that it makes (Calls), and the stream of logs (LogStream).
-- * Web/Views (web/src/views) has the pages. Page has what a handler does to the outside; Accounts, Bans,
--   Logs, LoginTake, Models, Experimental, Overview, Proxy and Stats have the state and the handlers of a
--   page, their children what the page shows and the proofs; HostPort is the split of an address that
--   two of them share. Models/Endpoints is the server's side of the access list
--   (internal/dashapi/dashapi.go), which the page edits.
-- * Web/Layout (web/src/layouts/BasicLayout.vue), Web/Marquee (web/src/components/MarqueeText.vue) and
--   Web/FirebaseOAuth (web/src/composables/useFirebaseOAuth.ts) are the frame of the pages, the sliding
--   text and the sign-in with a popup.
-- * Prelude has the shared types, tests and lemmas, Tests the runs on concrete data.
--
-- Conventions: an operation under a lock is a function from the old state to the new one and the answer;
-- the clock, the disk's refusal of a write and fresh ids are arguments. A Go map is an association list;
-- where the code ranges over it, the list's order stands for Go's random one. Names are the source's in
-- snake case. Time is in milliseconds. Percentages, floats in the code, are whole numbers of
-- ten-thousandths in the pool, and fractions on the pages. A handler of a page is a function of the answers
-- that its calls get, run from its start to its end; it gives the page's new state and the steps it took
-- (calls, messages, dialogs) in order.
--
-- Bounds and fuel: `AppendVarint` recurs on the number itself; the loop of `Parse` has the length of the
-- bytes as fuel, enough since each round takes a byte; the loop of `displayModelName` has the count of
-- the parts, enough since each round goes one or two parts on; the cache's eviction has the count
-- of its records. Counters that Go wraps at 2 ^ 64 wrap here.
--
-- Parameters: SHA-256 and the JSON encoding in the fingerprints and the cache, the router's reading
-- of an address, the SDK of Firebase, and the browser's `encodeURIComponent`, `Number` and dates.
-- Not modelled: HTTP and gRPC, child processes, logging, the templates of the pages, and the packages
-- runtimecfg, sanitize, toolemu, server, windsurf, client, grpcx, cloud, firebase, config, logx, sysinfo,
-- i18n, imagex, atomicfile and version under internal/, and langserver but for its Proxy type.
mod Prelude
pub mod Models
pub mod BanHistory
pub mod Auth
pub mod ConvPool
pub mod ModelAccess
pub mod Pbenc
pub mod Cache
pub mod Web
pub mod Stats
pub mod ProxyCfg
pub mod Netguard
mod Tests
