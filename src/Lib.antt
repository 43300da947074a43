-- ===== src/Lib.antt =====
-- VibeNet's backend: a server for end-to-end encrypted chats. HTTP handlers and a WebSocket hub
-- stand on repositories over PostgreSQL; chat PINs guard first contact. The development models
-- the parts below as functions on explicit state and proves what they promise.
--
--   Models (internal/models): the rows of the tables.
--   Pin (internal/pin/pin.go): `window`, `code_for_window`, `rotating`, `current_expiry`,
--     `current_code` and `valid` are the functions of those names; HMAC-SHA256 is a parameter.
--   Access (internal/api/middleware.go, internal/websocket/handler.go, internal/api/handler.go):
--     who a request comes from, who may open a realtime session, `Login` with a password
--     (`Access.Login`), where bcrypt and the making of tokens are parameters, and
--     `GetChatHistory` (`Access.Reading`), from the unescaped name of the room on.
--   Api (internal/api): the handlers on the state of the server, which is the database and the
--     calls that were made on the hub and the object store. `Api.Validation` has the validators,
--     `Api.Accounts` and `Api.Pins` handlers of handler.go, `Api.Groups` and `Api.Members` those
--     of groups.go, `Api.Uploads` those of upload.go and the uploads of photos, `Api.Google`
--     those of auth_google.go, `Api.Routes` the routes of RegisterRoutes. `Api.Keeping` has rules
--     for what handlers preserve; `Guards` says what the checks of membership let through;
--     `Sound`, `Sparing`, `Founding` and `Serving` apply them, and `Authority` says who may
--     change what: `Authority.Ruling` of the groups, `Authority.Own` of the accounts. `Removal`,
--     `Registering` and `Google.Earned` are about single handlers, `Provisioned` about the names
--     of Google accounts, and `Patterns` compares the matcher of e-mail addresses with a
--     description of them.
--   Main (cmd/api/main.go): the origins that CORS allows, the port and the health check.
--   Storage (internal/storage, pkg/utils/env.go): the settings of the object store, and the URLs
--     of photos.
--   Auth (internal/auth): the usernames of Google accounts, with `unicode.ToLower` as a
--     parameter; `Auth.Tokens` is the JWT manager of jwt.go, over the interface `Jwt` to the
--     library that signs and parses; `Auth.Google` has the settings of Google's sign-in and the
--     profile that it fetches.
--   Websocket (internal/websocket): `Websocket.Frames` has the frames; `Websocket.Hub` the
--     functions of hub.go on the state of the hub; `Websocket.Client` the handlers of client.go;
--     `Websocket.Steps` the runs of the hub, as sequences of steps. `Websocket.Handling` is an
--     interface: a property of what the handlers are made of is a property of the handlers;
--     `Sound`, `Honesty` and `Freshness` fill it. `Websocket.Fifo` compares a channel with a
--     bounded queue.
--   Db (internal/db): `Db.Sql` is the interface to PostgreSQL through GORM, with its laws;
--     `Db.Store` has the tables, statements and transactions; `Db.Groups`, `Db.Invites` and
--     `Db.Rosters` are the methods of groups.go, `Db.Users` those of postgres.go (with
--     ListDiscoverableDMs in `Db.Rosters` and SearchUsersByUsername in `Db.Search`),
--     `Db.Messages` those of messages.go; `Db.Lifetime` has the sequences of calls on groups;
--     `Db.ListSql` is a database that meets the laws.
--
-- A method of a repository takes the database and returns a result and the database. A statement
-- may fail at any time, for the interface leaves it open which ones do; a failed statement spoils
-- its transaction, and a spoiled transaction does not commit. Transactions run one after another,
-- so the anomalies of weaker isolation levels are outside the model.
--
-- In the hub a step is what one goroutine does without a pause, and goroutines interleave by
-- steps. A handler that is interrupted takes several steps: it asks, it sends on a connection
-- that it looked up before, whatever has become of it, and it starts goroutines; sends of HTTP
-- handlers are such steps too. A query for the members of a group and the storing of its answer
-- are one step. The hub's clock, the answers of the database and new identifiers come from a
-- `World`, event by event. JSON is left out: a payload is the frame that it encodes.
--
-- A UUID is a number, a time a number of seconds (Pin) or milliseconds (elsewhere). Requests to
-- the HTTP routes are served one after another; a handler reads its body as a value that is
-- already decoded. Recursion is structural everywhere, so nothing is bounded by fuel.
--
-- Not modelled: the landing page (internal/api), the wiring of main, connections and TLS, JSON,
-- the signatures of tokens, password hashes, the AWS SDK, the client library of Google (its
-- answers are parameters), and logging.
pub mod Access
pub mod Api
pub mod Auth
pub mod Base
pub mod Db
pub mod Main
pub mod Models
pub mod Pin
pub mod Storage
pub mod Websocket
