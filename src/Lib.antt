-- ===== src/Lib.antt =====
-- The monitoring core of WatchTower, the backend that checks the URLs of its users, tells an outage
-- from a single failure, and opens and closes incidents; with the accounts of its users, and the public
-- status pages on which they show their monitors.
--
-- The parts and how they interact. Every instance of the backend runs the loop of
-- Backend/src/jobs/scheduler.js. A tick renews the lease of Backend/src/services/lock.service.js; the
-- instance that holds it asks the database for the monitors that are due, leaves out those that their
-- circuit breaker (Backend/src/services/circuitBreaker.js) refuses, and runs the check of each on the
-- worker pool of Backend/src/utils/pool.js. A check probes the URL with retries
-- (Backend/src/services/monitor.service.js), counts failures and successes in a row, writes the
-- monitor and a log row, and has Backend/src/services/incident.service.js open or close an incident
-- where the counts reach a threshold, which Backend/src/notifications/notifier.js then tells the owner.
-- The HTTP API reaches the database through Backend/src/dao/scopedDao.js, which confines every query to
-- the caller's own documents.
--
-- The files:
--   Prelude             names of the libraries, Boolean tests and list functions on native numbers
--   Config              Backend/src/config/scheduler.config.js: `num`, `bool`, the configuration
--   Monitor             Backend/src/models/monitor.model.js: the monitor's fields
--   Breaker             circuitBreaker.js, one function for each of the source
--   Probe               monitor.service.js: `backoffDelay`, `checkMonitor` (as `ladder`, its loop)
--   Probe/Attempt       monitor.service.js: the options, variables and events of `probeOnce`
--   Probe/Exchange      monitor.service.js: `probeOnce`, its closures as functions of its variables
--   Store               what the code relies on of MongoDB: replies, one upsert, one update
--   Lock                lock.service.js: `acquire`, `release`; Lock/Leadership composes instances
--   Incident            incident.service.js and the hook of Backend/src/models/incidents.model.js
--   Check               scheduler.js: `runCheck`, its decision as `assess`, its effects as calls
--   Pool                pool.js: `runPool` as a step relation
--   Scheduler           scheduler.js: the constructor, `start`, `tick`, `findDueMonitors`, `stop`
--   Dao                 Backend/src/dao/scopedDao.js, dao/index.js: `ScopedDao`, an operation as data
--   Notifier            Backend/src/notifications/notifier.js: `NotifierRegistry`
--   MonitorApi          Backend/src/controllers/monitor.controller.js, a function for each handler
--   Http                Backend/src/middlewares/error.middleware.js, utils/ApiError.js, ApiResponse.js,
--                       asyncHandler.js: failures and their replies
--   Uptime              Backend/src/services/uptime.service.js: `getUptimeWindows`
--   StatusPage          Backend/src/controllers/statusPage.controller.js: the ids and the slug of a page;
--                       /Slug is `slugify` of models/statusPage.model.js, /Manage the owner's handlers,
--                       /Public what a visitor gets
--   Crypto              Backend/src/utils/crypto.js: the envelope of a monitor's request headers
--   User                Backend/src/models/user.model.js, services/user.service.js; /Session,
--                       /Verification and /Recovery are controllers/user.controller.js, /Google is
--                       controllers/googleAuth.controller.js, and `verifyJWT` of
--                       middlewares/auth.middleware.js stands in /Session
--   Tests               sample values, evaluations, the theorems at concrete inputs
-- Any other child module holds proofs and is named for what they are about.
--
-- Conventions. A number of the source is a natural number: times are milliseconds, ids and owners are
-- numbers. Where the source subtracts times, the order of the two is a clock's, or `Math.max(0, ...)`
-- stands there; the incident's duration, which can be negative, is an integer. Negative or fractional
-- settings of a monitor are not modelled. A handler that awaits the outside takes the answers as an
-- argument and returns the calls that it makes, in order, with its result; an answer is a value or an
-- error. A document field that may be missing is an `Option`. Log lines and Prometheus counters are
-- left out.
--
-- The handlers of status pages and accounts work on lists, on which a call of the model succeeds
-- unless a validator or a unique index refuses it. A creation or an edit of a page takes the database
-- that its checks saw and the collection that it writes to; a handler of accounts runs undisturbed. A
-- text that is cut or searched is a list of code units, any other text a `String`.
--
-- Outside code. MongoDB is the relations of Store, which are hypotheses of the theorems that need
-- them: one document is changed atomically, a unique index turns a second insertion into the
-- duplicate-key error, and an acknowledgement can be lost. The instances of Lock/Leadership read one
-- clock, their replies are handled one by one, and the time that a request carries is no later than
-- the clock. `URL` and the printing of a number are the record `Platform`; `Math.random` is a
-- function.
--
-- Bounds. `checkMonitor`'s loop recurs on the attempts that are left, so no fuel is needed; `runPool`
-- is a relation, and the length of its runs is bounded in Pool/Completion. `findDueMonitors` is its
-- filter: the order and the limit of 500 are the database's, and the batch is an argument of the tick.
-- The checks of a tick are run one after the other in the order in which they end, which is an
-- argument; the source interleaves them at their awaits.
--
-- The Unicode tables of `slugify`, bcrypt, SHA-256, the signature of tokens, the verification by Google,
-- the cipher with its encodings, and the ids of mongoose are records of functions; what a theorem
-- relies on of them is a hypothesis. The percentages of Uptime are those of JavaScript's doubles, which
-- Prelude/Doubles computes in natural numbers: 53 doublings normalise a count below 2 ^ 53. The calls of
-- a tick are those of its checks: the renewal of the lease and the query come before them, and their
-- answers are arguments.
--
-- Not modelled: the handlers of metrics, channels, incidents, logs and health, the notifiers
-- themselves, sockets, and the frontend.
pub mod Prelude
pub mod Config
pub mod Monitor
pub mod Breaker
pub mod Probe
pub mod Http
pub mod Uptime
pub mod Crypto
pub mod User
pub mod StatusPage
pub mod Store
pub mod Lock
pub mod Incident
pub mod Check
pub mod Pool
pub mod Scheduler
pub mod Dao
pub mod Notifier
pub mod MonitorApi
pub mod Tests
