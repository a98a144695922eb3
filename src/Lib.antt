-- ===== src/Lib.antt =====
-- PgFox, a connection pooler and proxy for PostgreSQL. A client speaks the PostgreSQL protocol to
-- the server; the server finds a pool for its database and user, borrows a backend connection for
-- a query or a transaction, forwards messages both ways, and keeps prepared statements and
-- LISTEN subscriptions alive across backends.
--
-- The parts of the program and the files that model them:
--
--   Prelude            the shared names: Boolean tests on numbers, native list lengths, byte
--                      strings (`[]byte` and `string` are lists of numbers), errors as values.
--   Wire               the wire format.
--     Wire/Ints          big-endian integers (pkg/pgfox/protocol.go, pkg/pgfox/extended.go)
--     Wire/CString       null-terminated strings (the loops of pkg/pgfox/extended.go, `cString`)
--     Wire/Frame         `WriteMessage` and `ReadMessage` (pkg/pgfox/backend.go, client.go) over
--                        a byte stream, with the size limits
--     Wire/Parse, Bind, Describe   the bodies of the extended query protocol
--                        (pkg/pgfox/extended.go); Wire/Bind/Decode is the layout of a Bind body
--     Wire/Notification  NotificationResponse bodies (pkg/pgfox/protocol.go, client.go)
--     Wire/Startup       start-up parameters (pkg/pgfox/protocol.go)
--   Access             access rules: `Rule` and its matchers (pkg/pgfox/config.go), `checkAccess`
--                      (pkg/pgfox/target.go), `targetServesDatabase` (pkg/pgfox/server.go).
--   Config             the targets of a configuration (pkg/pgfox/config.go): defaults, order and
--                      `validate`; Config/Load is about `LoadConfig`
--   Server             `getPool` and `Reload` (pkg/pgfox/server.go) on the list of targets.
--   Listen             LISTEN, UNLISTEN and what a transaction defers (pkg/pgfox/listen_notify.go).
--     Listen/Registry    the monitors of one target, one dedicated connection each
--     Listen/Client      the listen state of a client (pkg/pgfox/client.go)
--     Listen/Handlers    the handlers, and the end of a transaction
--   Session            a client's session on a backend connection (pkg/pgfox/query.go).
--     Session/State      the fields of `Client` and `Backend` that serving changes, and their
--                        operations (pkg/pgfox/client.go, pkg/pgfox/backend.go)
--     Session/Reconcile  `reconcileConn`; Session/Reconcile/Places counts where a connection is
--     Session/Responses  the four loops that forward a backend's response
--     Session/Dispatch   `HandleClientMessage`: a query, or a pipeline up to its Sync or Flush
--     Session/Query      a simple query, forwarded or served as a prepared statement
--     Session/Statements the statement cache (pkg/pgfox/cache.go) and a client's statement names
--     Session/Pipeline   the extended protocol: inspection, forwarding and end of a pipeline
--   Target             a target's pools of connections (pkg/pgfox/target.go, pkg/pgfox/pool.go).
--     Target/State       `Target` and `Pool`; Target/Connections: lending, returning, opening and
--                        closing; Target/Growth: `growthCycle` and `healthCheck`
--     Target/Accounting  where every connection is, and how many there are
--     Target/Life        the loop of `run` and the clients as a step relation
--   Sql                the parameterization of queries (pkg/pgfox/parser.go).
--     Sql/Tokens         the token readers; Sql/Suffix: how far they go
--     Sql/Scan           `findNextLiteral`
--     Sql/Rewrite        `rewriteLiterals`; Sql/Decimal prints the numbers of parameters
--     Sql/Tree           the syntax tree, `containsParam` and `collectLiterals`
--     Sql/Classify       `ClassifyAndParameterize`
--   Startup            the messages of SCRAM-SHA-256 (pkg/pgfox/startup.go)
--     Startup/Scram      the exchange with a client, and what follows it; Startup/Outcome and
--                        Startup/Proof are about who is let in
--   Tests              each theorem at a concrete input.
--
-- How the state corresponds to the code. The registry is `Server.Listeners` with the counters of
-- the target that the budget check reads; a map is a list that is searched by key. A client or a
-- connection that Go holds by pointer is known by a number, or is part of the state that is passed
-- along. Mutexes are not modelled: what other goroutines do in the gaps between two critical
-- sections of an operation is a function on the state, an argument of the operation: `others` in
-- `get_or_create_listen`, where it acts between the lookup of a monitor and `addClient`, before the
-- write lock, and behind the race guard, and in `get_pool`, where it acts between the two paths.
-- Monitors and pools have a number that stands for their pointer, so that one that is replaced is
-- told from the one found before. What the network does (a connection that opens or fails, a
-- backend's answers, a write that fails) is an argument as well; a read past its deadline fails as
-- any other read, which is how `ReadMessage` reports it. Go's `net` package (networks, addresses,
-- `Contains`) is a parameter of the access rules. Machine integers are numbers with their
-- wrap-around written out; text is ASCII where the source folds case or trims space, but for
-- Sql/Classify, where these functions are arguments. Loops recurse on the list they walk, and a
-- loop that reads from a connection recurses on the list of what the connection will deliver. Two
-- functions run on fuel: `find_next_literal` on the length of the text, which is enough since every
-- round moves on by a byte at least, and the digits of `decimal` on a number above the one that is
-- printed. A position in a text is the bytes from there on. The tree of a query is what the
-- switches of the source tell apart; what the parser gives for a text is an argument of
-- Sql/Classify, and the classification is one of Session/Pipeline. In a target, a pool is known by
-- its place in `CachedPools`, and `Return` and `Release` take any connection, as in the code; that
-- a client gives back only what it has is a condition on runs, `IsDisciplined`. What a step of the
-- target's goroutine or of a client does is one step of the relation; waiting in `borrowConn` is
-- left out, since a wait that is over takes the head of a queue as the fast path does.
--
-- Not modelled: TLS and certificates; MD5, and the hash, HMAC and codec under SCRAM, which are
-- arguments (libraries); the web interface, metrics, statistics counters and logging; timers and
-- deadlines; start-up and shutdown of the goroutines; the PostgreSQL parser (a third-party
-- library); the settings of the server and its listener; cancel requests and the start-up of
-- backend connections; the deploy counts of the statement cache; the pooled scratch space of the
-- parser; and, of a pipeline, the answers to LISTEN, UNLISTEN and NOTIFY and the Parse messages
-- that are injected for a Bind.
pub mod Prelude
pub mod Wire
pub mod Access
pub mod Config
pub mod Server
pub mod Listen
pub mod Session
pub mod Target
pub mod Sql
pub mod Startup
pub mod Tests
