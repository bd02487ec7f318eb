-- ===== src/Lib.antt =====
-- velm, a low-code platform whose apps declare tables, forms, roles, rules and tasks: a model of the
-- parts that decide who may see and write what, of what apps declare, of list filters, of the checks of
-- requests, forms, logins and outgoing calls, of migrations, of the task engine, and of the realtime hub.
--
-- The parts and the code that they model:
--   Base, Runtime      lists, texts, results, sorting; what is taken from Go's strconv and time
--   Expression         internal/db/ExpressionEval.go: `scanExpressionTokens` (Scanner), the parser's
--                      methods (Parser, with a printer of trees in Printing), the nodes' `eval`
--                      (Evaluator), coercions and `compareExpressionValues` (Values)
--   Schema             internal/db/MetadataGuards.go and Types.go: columns and their data types
--                      (DataTypes); internal/db/Identifiers.go, RecordID.go, `quoteSQLLiteral` of
--                      AutoNumber.go and internal/utils/IsValidUUID.go (Identifiers);
--                      internal/db/Validation.go: `ValidateFormWrite` (Validation); Go's integers
--                      (Numbers)
--   Gateway            the layers around a handler and the two chains of cmd/server/routes.go (Layers):
--                      internal/auth/RequireAuth.go (also Redirects), CSRF.go, agent_middleware.go,
--                      agent_token.go (Tokens), internal/authz/Permissions.go,
--                      internal/security/AppScope.go, cmd/server/sessionVersionMiddleware.go
--   Provider           internal/security/ProviderDestination.go: `isBlockedProviderIP` (Addresses),
--                      `validateProviderURL` and the dialer (Destinations);
--                      internal/security/ProviderClient.go: `ListModelsContext` (Client)
--   Query              cmd/server/table_query.go: the filters of a list, `tokenizeTableQuery`
--                      (Scanner), the parser's methods (Parser), `buildStructuredQuerySQL` and what it
--                      calls (Statement), `buildTableWhereClause` (Filter)
--   App                internal/db/AppDefinition.go, AppRuntime.go, OOTBApp.go and ScriptScope.go:
--                      what an app declares (Definition), the apps by name and their dependencies (Registry),
--                      ids of tables (Identifiers), `resolveDefinitionColumnsWithApps` and with
--                      AppPublish.go and AutoNumber.go what it calls (Inheritance), endpoints and who may
--                      use them (EntryPoints), service methods (Methods), triggers (Triggers);
--                      internal/db/TableInheritance.go (Descendants)
--   Login              internal/db/MFA.go: second factors and recovery codes, as tables with the unique
--                      indexes of internal/db/migrations/039_user_mfa.sql
--   Migrations         internal/db/Migrations.go: `RunMigrations`, its checksums and its loop
--   Security           internal/db/SecurityRules.go: `TableSecurityEvaluator`, its rules and role gate
--                      (Model, Roles), `rulesFor` and `scopeDecision` (Decision), `AllowsRecord`,
--                      `AllowsField`, `AllowsFields` (Access), `loadSecurityEvaluatorForConfig`
--                      (Loading), `FilterReadableRecord`, `MergeRecordSnapshot`,
--                      `ChangedRecordFields` (Records), the save previews (Previews); from
--                      internal/db/AppDefinition.go `validateSecurityRuleShadowing` (Shadowing) and
--                      `validateAppDefinitionSecurity` (Validation); from
--                      internal/db/AppRuntime.go the names of roles; from internal/db/HandleSave.go and
--                      internal/db/MetadataGuards.go the comparable form of values
--   Hub                internal/realtime/hub.go: the state and the helpers (Model), subscriptions and
--                      broadcasts (Delivery), `snapshotFromEntries` (Snapshot), presence and its
--                      sweep (Presence), the operations as steps (Reachable)
--   Task               internal/db/TaskEngine.go: `taskTransitions` (States), the tables (Model),
--                      `SpawnTaskInstance` (Spawning), `resolveScopeRef` (Scope), `StartTask` and
--                      `CompleteTask` (Engine)
--   Tests              concrete inputs
--
-- How they interact: a rule's condition is an expression over the record's fields, so
-- Security.Decision calls Expression; a save is judged over the snapshot that Security.Records
-- builds. A form is validated before it is saved: Schema.Validation reads the columns of
-- Schema.DataTypes, as Security.Records does, and calls Expression for their rules. A request goes
-- through Gateway before any handler. App reads the names of roles of Security.Roles for its entry
-- points, and Security.Validation checks with Expression and Security.Shadowing what Security.Loading
-- later runs. Hub, Task, Provider, Query, Login and Migrations stand alone: handlers call the first
-- four after a decision, and the start of the server calls the last.
--
-- Conventions. A text is the list of its bytes. White space and letter case are those of ASCII in
-- TrimSpace, ToLower and ToUpper; the count of runes is that of valid UTF-8. float64 and time.Time
-- are the fields of the record GoRuntime, of which nothing is assumed. A decision reads the clock
-- once. The order of a rule is its int shifted by 2^63. sort.Slice and sort.SliceStable are an
-- insertion sort. A map is a list of pairs, gone through in the order of the list. A table of
-- PostgreSQL is a list of rows, and a transaction is a function on the tables whose error leaves them,
-- and the model's counters of ids, as they were. The script engine and the ids that the database makes are parameters. Regular
-- expressions of the source are written out as matchers; those that users write, the grammars of
-- addresses and URLs, SHA-256 and query escapes are parameters. Queries fail where the model says so,
-- not for a lost connection. Header names are canonical, and RequestLog and Audit pass a request on.
-- A lookup of a host may answer otherwise each time, and a call of a provider opens a connection of
-- its own. A migration's script leaves the table of migrations alone; it runs in a transaction, and
-- the passes at the end do not. What an operation of the hub does under its lock is one
-- step, and each broadcast after it is another, between which others may come; a broadcast's reading
-- of the subscriptions and its sends are one step. Where the order of a Go map decides, as between
-- two dependencies of an app that have a method of one name, only the order of insertion is covered.
--
-- Fuel. The scanner of expressions has as much as its input has bytes, and each round consumes one.
-- The scanner of filters has one more; on an exclamation mark alone it does not advance, so that no
-- fuel is enough. The parser of filters has four units for each token and four more. The parser of
-- expressions has eight units for each token and eight more: eight bounds the calls between two
-- tokens. A walk along the tables that extend each other has a step for each registered table and two
-- more, since it never visits a table twice. Spawning has a number of levels of nested containers as
-- a parameter, and running out of it is an error of the model; where containers are ranked above
-- their children, the rank of a definition is enough.
--
-- Not modelled: SQL texts other than those of list filters, HTTP handlers, templates, the JavaScript
-- engine and its bindings, the editor and the page builder, which are glue over libraries; the
-- definitions of the bundled apps, which are data; the saving and publishing of apps, notifications
-- and audit logs, which are still open.
pub mod Base
pub mod Runtime
pub mod Expression
pub mod Schema
pub mod Gateway
pub mod Login
pub mod Provider
pub mod Query
pub mod App
pub mod Migrations
pub mod Security
pub mod Hub
pub mod Task
pub mod Tests
