-- ===== src/Lib.antt =====
-- chuchu manages rental properties for a landlord's agent, and keeps track of who follows its LINE
-- account. It is an HTTP service in Go over Postgres. This library models its domain logic and the
-- code between that and the database and the clients.
--
-- Parts, and the files that model them:
--   Apperr          internal/apperr: the application error, `Is`/`Unwrap` along a chain, HTTP statuses.
--     Apperr/Chain    `errors.Is` and `errors.AsType` against membership in the chain.
--     Apperr/Sharing  `clone`, `WithError`, `WithMessage`, `WithDetails` on a heap: the package-level
--                     sentinels are shared by all requests.
--   Effect          Go's `(T, error)`, alone and over a state that is passed on explicitly.
--   Outside         the types and functions of uuid, time and decimal, and the rounding of the
--                   columns, as parameters.
--   Property        internal/property/property.go and status.go.
--     Property/Input       the inputs and `Validate` (create.go, update.go), the filter (query.go).
--     Property/Service     `Create`, `Update`, `ChangeStatus`, `Get`, `List`. Contract states the
--                          interface `Repository` as laws on the rows, and Promises the results of its
--                          calls (the duplicate, the missing property, the page and the total); Keeps, Runs and History follow the stored
--                          properties through any run; Refusals has the error branches; Lost has two
--                          requests that overlap, Overlap any number of them: each runs to its next call
--                          of the repository, in the order of a schedule (Turns, Schedules).
--     Property/Pgrepo      internal/property/pgrepo, over the calls of bun; Refines and Promises hold it
--                          against the interface, Indexes has the unique index on the address.
--   Line            internal/line: `Event`, `User`, `Service.Handle`.
--     Line/Readings, Latest, Handling   what a batch of events says of each user, and the database after
--                          it, for orders of arrival and batches that are sent again.
--     Line/Pgrepo          internal/line/pgrepo: the one `INSERT … ON CONFLICT`.
--     Line/Webhook         internal/line/webhookhttp: what a delivery of LINE does.
--   Httpx           internal/httpx: `WriteJSON`, `WriteError`; Httpx/Guard is `EnsureJSONError`,
--                   Httpx/Recoverer is `Recoverer`, Httpx/RequestId is `RequestID` and the ids.
--     Httpx/Failures       the statuses that an error is answered by, as sets; the modules Failures and
--                          Statuses of Property follow them through the calls.
--   Property/Httpapi  internal/property/httpapi: the five operations of the API; the types of requests
--                   and answers are those of api/api.gen.go. Httpapi/Changes, Httpapi/Creates and
--                   Httpapi/Updates are about what a status change, a creation and an update store.
--   Api             api/api.gen.go: the response objects and their `Visit` methods; Api/Strict is
--                   `strictHandler`, Api/Wrapper is `ServerInterfaceWrapper` and the routes,
--                   Api/Statuses the statuses of the response objects, Api/Enums its enumerations against
--                   those of the domain and the constraints of the tables in db.
--   Apihttp         internal/apihttp: the error hooks of the generated server; Apihttp/Mount is `Mount`.
--   Server          internal/server: the middleware of `NewRouter` and the access log (Server/Chain has
--                   the proofs); Server/Run is `Run` and its goroutine (Server/Run/Ends).
--   App             internal/app: `apiServer` and `NewHandler`, which put all this together.
--                   App/Contract, App/Creates, App/Updates, App/Moves, App/Readiness and App/Deliveries
--                   follow whole requests, by App/Sent, App/Responses and App/Success; App/Succeeds
--                   those that the database carries out; App/Duplicates
--                   and App/Refused those that fail, by App/Problems; App/RoundTrip a creation that is
--                   read again, and App/History any sequence of them, by App/Calls.
--   Clients         internal/platform/postgres and internal/platform/redisclient: `Open` and `Ping`.
--   Logging         internal/platform/logging: the level.
--   Service         cmd/api: `run` (Service/Exits has the proofs).
--   Health          internal/health: the checkers, and the report from their results in the order of
--                   arrival. Health/Check is `Service.Check` with its goroutines, the WaitGroup and the
--                   channel, as turns in any order (Ends for its end, Outcome for its report).
--   Config          internal/config: `Load`.
--   Dbmigrate       cmd/dbmigrate: the command line, the subcommands, the lock (Dbmigrate/Locks for the
--                   subcommands, Dbmigrate/Runs for the program) and the exit codes.
--   Migrations      db/migrate.go: the migrator, over the calls of bun.
--   Tests           the theorems at concrete inputs, on a small world.
--
-- How the parts meet: the services take their repository as a record of operations over a state `S`,
-- which stands for the database. The laws of that record are what the theorems on the service assume,
-- and what the theorems on the two Postgres repositories show of them, from laws on the database. An
-- operation that fails may have written or not. The handlers turn errors into responses by
-- `write_error`.
--
-- What the model leaves open: a decimal, an instant and an id are what their packages say they are
-- (Outside); `int` is ℤ, with the wrap-around of 64 bits written out at the one product of the code,
-- the offset of a page. What the columns `NUMERIC(…, 2)` and `TIMESTAMPTZ` keep of a decimal and of an
-- instant are two functions of Outside: a row holds a property as its columns keep it, which the answer
-- to the request that wrote it need not be. `time.Now()` and `uuid.New()` are arguments. All loops are
-- over lists, and are structural recursions; only the decimal digits of the clock, in a request id, take
-- fuel, one round more than the number, and more rounds change nothing.
--
-- Concurrency: in `Run` of internal/server the two goroutines are a relation on states, of which each
-- constructor is a step that one of them, or the world, may take; in `Check` of internal/health, and for
-- requests that overlap, a schedule says who runs next. A call of the database is one step.
--
-- Not modelled: what chi, oapi-codegen's runtime and encoding/json make of the bytes of a request and
-- of a response (they are arguments), the embedded text of api; the text of the log lines but for the
-- access log; the embedded files of db; internal/testsupport.
pub mod Prelude
pub mod Apperr
pub mod Effect
pub mod Logging
pub mod Outside
pub mod Property
pub mod Httpx
pub mod Apihttp
pub mod Health
pub mod Clients
pub mod Config
pub mod Api
pub mod App
pub mod Server
pub mod Service
pub mod Migrations
pub mod Dbmigrate
pub mod Line
mod Tests
