-- ===== src/Lib.antt =====
-- OpenAura is a service that keeps, for each app, its users, tenants, roles, resources and
-- actions, the assignments of roles to users in tenants and the permissions of roles, and that
-- answers whether a user may do an action on a resource.
--
-- A request passes a middleware of internal/auth, which turns an API key into the app of the
-- request (or lets an admin in), and then a handler of the package of its entity, which reads the
-- body and the path, calls the repository of the same package and writes the reply. The
-- repositories validate, normalise and send one SQL statement or a few; internal/userauth runs
-- two inserts in a transaction; Sign in with Apple looks the email up on the pool, after Begin
-- and outside of the transaction. The constraints and triggers of migrations/*.sql are part of
-- what the repositories rely on.
--
-- Files:
-- - Prelude: names of the libraries, Boolean tests, lists, Go's int. Text, Json, Atoi: what is
--   used of Go's strings, encoding/json and strconv.
-- - Schema (Schema/Constraints, Schema/Writes): the tables, their keys, unique indexes, foreign
--   keys and triggers of migrations/*.sql, and each statement that writes. Sql: SELECT, UPDATE
--   and the tests of unique indexes over the list of a table's rows.
-- - Store: internal/store/errors.go. Effect: the monad of the code that talks to the database,
--   below, with its rules (Effect/Keeps, Effect/Yields, Effect/Atomic, Effect/Quiet,
--   Effect/Laws). Httpx: internal/httpx/httpx.go. Auth: internal/auth.
-- - App, Tenant, User, Role, Resource, Action, RoleAssignments, Permission, ApiKey, AdminApiKey,
--   Access: the package of that name under internal; X/Repository is its repository.go, X/Handler
--   its handler.go, with the functions' names in snake case (GetByID is get_by_id, SoftDelete is
--   soft_delete).
-- - UserIdentity, UserAuth (UserAuth/Password, UserAuth/Token, UserAuth/Apple, UserAuth/Handler):
--   internal/useridentity and internal/userauth. Jwks and UserAuth/AppleKeys:
--   internal/userauth/apple_jwks.go, the decoding of Apple's keys and the verifier with its cache
--   (cachedKey is look_up, keyForKid is key_for_kid).
-- - Server: internal/httpserver/server.go. Server/Mux is what the routes need of net/http's
--   ServeMux, Server/Routes has the routes of New in their order, Server/Gate the middlewares,
--   the version header, the log and New. Config: internal/config. Start: internal/db and
--   cmd/server/main.go, from the settings to the requests that are served.
-- - Access/Decision, Access/Revocation, ApiKey/Resolve, ApiKey/Gate, AdminApiKey/Gate,
--   AdminApiKey/Bootstrap, User/Directory, User/Promise, User/Rows, User/Inputs, User/Steps,
--   User/Refinement, User/Lifecycle, User/Creation, User/Listing, UserAuth/Registration,
--   UserAuth/Credential, UserAuth/Login, UserAuth/Token/Issued, UserAuth/AppleKeys/Trust with
--   Current, Served, Audience and Kept beside it, Jwks/Keys, Httpx/Paging, Config/Csv,
--   Config/Loaded: properties of one or two packages.
-- - System: the writes of the API as data and what each runs (System/Requests), the interface
--   between the statements and the repositories (System/Statements, System/Writes), and the
--   invariants (System/Consistency, System/UniqueKeys with System/UniqueKeys/Indexes,
--   System/Isolation).
-- - Server/Handlers, Server/KeptEntities, Server/Kept, Server/Served, Server/Requests: what the
--   handlers, the routes and a request keep of the database, from what the statements keep.
--   Server/Version, Server/Routing: properties of the version header and of the routes.
--   Start/Kept, Start/Invariants, Start/Isolation, Start/Bootstrap: the same for the running
--   server.
-- - Examples, Tests: a small database, and the code and the theorems on it.
--
-- An action takes an environment and a state, which is the database, the cache of Apple's keys
-- and a tick. Each call that leaves the program takes a tick; the environment says for each tick
-- what the clock and the random source give, whether the statement is answered, refused, or
-- executed with its reply lost, and what other requests have done to the database just before it.
-- So every fault, and every interleaving of the statements that are sent outside of transactions,
-- is an environment, and a theorem for all environments is about all of them. Other requests come
-- before a transaction and after it, never between two of its statements, and a failure puts the
-- database back: interleavings with an open transaction are not covered, and READ COMMITTED would
-- let a statement inside of it see what others commit meanwhile. Identifiers are numbers, times
-- are numbers, and metadata is a JSON object that the code only passes on; of a role's metadata
-- the unique index reads the name. No loop of the program needs fuel: the lists are walked by
-- structural recursion. The binary exponent of a number of seconds is looked for in 64 steps,
-- enough for an int64.
--
-- Parameters, as fields of the environment or arguments: the parser and printer of google/uuid,
-- SHA-256, bcrypt, lower case beyond ASCII, the text that Postgres gives a JSON value, the JWT
-- library, net/http and encoding/json where the keys of Apple are fetched, the JSON decoder of
-- the bodies, os.Getenv and time.ParseDuration, pgxpool.New and Ping, the page of http-swagger,
-- and the status of the multiplexer's redirects. A request is given with its path split at the
-- slashes, as it is after net/http has cleaned it. The requests of the running server come one
-- after the other; those that run beside them are in the environment.
--
-- Not modelled: the listener, the signals and the shutdown of cmd/server/main.go, the lines that
-- it logs, the text of errors that no client sees, the generated docs/docs.go, the scripts of
-- tools and the support for tests. Migration V2 adds a column that V3 moves to user_identities
-- and drops.
pub mod Prelude
pub mod Text
pub mod Json
pub mod Jwks
pub mod Config
pub mod Start
pub mod Schema
pub mod Sql
pub mod Store
pub mod Effect
pub mod Atoi
pub mod Httpx
pub mod Auth
pub mod App
pub mod Tenant
pub mod Role
pub mod User
pub mod Action
pub mod Resource
pub mod ApiKey
pub mod AdminApiKey
pub mod RoleAssignments
pub mod Permission
pub mod Access
pub mod Server
pub mod System
pub mod UserIdentity
pub mod UserAuth
pub mod Examples
pub mod Tests
