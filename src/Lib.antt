-- ===== src/Lib.antt =====
-- The core of gghstats, which keeps GitHub's traffic beyond its fourteen days: the sync engine
-- (internal/sync) with its client of GitHub (internal/github), the tables that it writes
-- (internal/store), the alert rules that run after each sync (internal/alert), and the parts of the
-- web server that decide (internal/server, internal/i18n): who may do what, how often, and what the
-- pages say of the data.
--
-- How the parts interact. A caller asks the coordinator for a run (`Coordinator.Run`, `Start`,
-- `StartRepo`). A run chooses the repositories with the filter expression, and a pool of workers
-- syncs each of them: its row, its traffic, its star history. When the run has finished, the
-- callback of the coordinator looks at the fleet for stuck traffic and evaluates the alert rules,
-- which read the tables and deliver payloads under debounce keys, to sinks that the environment
-- configures. The web server reads the same tables. A request passes the limiter and the whitelist,
-- both of which ask for the address that it comes from; the settings page needs more than that; and
-- what a chart shows depends on the coverage that the sync has stored.
--
-- The files and the code:
--   Github/Types          internal/github/types.go
--   Github/Retry          internal/github/retry.go: doGetWithRetry and shouldRetry
--   Github/Pages          internal/github/client.go: the loops over pages, StargazersRecent and
--                         nextPagePath
--   Sync/Catalog          internal/sync/catalog.go: resolveTracked, with resolveRepos
--   Sync/Repo             internal/sync/sync.go: ensureRepoMetadata, upsertRepoRecord and
--                         syncRepoTraffic
--   Sync/Filter           internal/sync/sync.go: parseFilterRules, applyFilter and their helpers;
--                         Filter/Meaning has the relation that a pattern means
--   Sync/Stars            internal/sync/sync.go: storeStarHistory to syncRepoStars
--   Sync/Coordinator      internal/sync/coordinator.go; Coordinator/Steps interleaves the callers
--   Sync/Stats            internal/sync/stats.go
--   Sync/Workers          internal/sync/worker.go, and the end of `Run` in internal/sync/sync.go
--   Store, Store/Table    the tables as lists of rows, and the statements on them
--   Store/Stars, Repos, Traffic, Debounce
--                         the methods of internal/store/store.go of these names
--   Store/Visibility      internal/store/report_visibility.go
--   Store/Stale           internal/store/upstream_stale.go
--   Alert, Alert/Rules    internal/alert/rules.go
--   Alert/Delivery        FanOut of internal/alert/sender.go, shouldFire and markFired of
--                         internal/alert/evaluate.go
--   Alert/Traffic, Milestones, Ops, Run
--                         internal/alert/evaluate.go, evaluate_milestones.go and evaluate_ops.go
--   Alert/AfterSync       cmd/gghstats/serve.go: the callback of configureSyncAlerts
--   Alert/Config          internal/alert/config.go, and splitRecipients of smtp.go
--   Alert/Http            internal/alert/http.go
--   Alert/Body            internal/alert/payload.go, buildSMTPMessage and buildLabels
--   I18n, I18n/Number     internal/i18n/i18n.go (the choice of a locale) and number.go
--   Server/Freshness      internal/server/traffic_freshness.go
--   Server/Proxies        internal/server/trusted.go, clientIP and peerIP of ratelimit.go
--   Server/Access         internal/server/middleware_skip.go, token.go and whitelist.go
--   Server/RateLimit      internal/server/ratelimit.go; RateLimit/Isolation has the limiter of one
--                         address on its own
--   Server/Settings       internal/server/settings.go: the manager and its file; Settings/Session
--                         has the sessions and the access
--   Server/Cors           internal/server/cors.go
--   Server/Index          internal/server/index_rank.go
--   Server/ReverseProxy   internal/server/reverseproxy.go: the path and the headers of a request
--   Examples              the theorems at concrete inputs
--   Base                  texts, lists, sorting, results, decimals, hexadecimals
--
-- How the code is rendered. A Go function is a function of the same name in the spelling of this
-- library; a method on the store takes the database and returns the new one. A date is its day
-- number and an instant its number of seconds, both from the zero time, so that comparing the texts
-- is comparing the numbers; counts are natural numbers, and no count reaches the machine's bound. A
-- text is the list of its code points. Statements on the database succeed, but for the three reads
-- and writes of the star cursor, whose failures are a parameter. What GitHub returns, what a
-- destination does with a payload, and the operations on floats are parameters; so are, for the
-- server, the package net, the token bucket of golang.org/x/time/rate, HMAC, the environment, JSON,
-- and which key of a map a `range` gives first. Goroutines are steps of a relation, one for each
-- section that a mutex or a channel makes atomic; requests to the server come one after the other,
-- in any order. Nearly every loop is a recursion on a list. The digits of a number use fuel, one more
-- than the number, which is enough since each digit divides by ten; the loops over the pages of
-- GitHub use fuel too, and their theorems say what they return with fuel for every page.
--
-- Not modelled: the HTTP transport and its waits, migrations, the SQL of the other lists and of the
-- deltas, referrers and popular paths, the featured entries, the pages and their templates, badges,
-- the responses of the reverse proxy, the H2H scores, the command line, metrics, reports and the
-- loading of translations.
pub mod Base
pub mod Store
pub mod Github
pub mod Sync
pub mod Alert
pub mod I18n
pub mod Server
pub mod Examples
