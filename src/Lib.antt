-- ===== src/Lib.antt =====
-- gatewaysshd is an ssh gateway. Clients log in with certificates, advertise services by forward
-- requests, and open tunnels to the services of other clients. Nodes form a mesh: a tunnel to a user
-- of another node goes over a connection to that node. The database holds users and nodes.
--
-- The parts, and the files that model them:
--   Common      texts, lists and maps; not code of the repository
--   Errors      the errors, in place of Go's error values
--   RouteCache  gateway/routecache.go: get, put and invalidate over the map of routes
--   Db          db/users.go, db/nodes.go, db/models.go: the tables as maps from ids to rows, and one
--               function for each statement, and sequences of them (Db/Adoption); the columns of json, with lookupLocation of auth/auth.go
--               (Db/Columns)
--   Auth        auth/auth.go: authenticate, authenticatePeer and the cache of login flags
--   Connection  gateway/connection.go: the advertised services, the list of tunnels with its
--               counters, handleRequest (Connection/Requests), gatherStatus (Connection/Status), and
--               the usage counters of gateway/utils.go (Connection/Usage)
--   Gateway     gateway/gateway.go: the registry of connections, lookupConnectionService, kickUser
--               and ScavengeConnections
--   Heartbeat   gateway/gateway.go: the online heartbeat, releaseUserNode, and who is online
--   Mesh        gateway/peer.go and gateway/gateway.go: the peers, lookupRemotePeer, invalidateRoutes,
--               registration and discovery (Mesh/Discovery), the rounds of runPeers (Mesh/Rounds),
--               connectToPeer with NewPeerClientConfig of util/sshconfig/sshconfig.go (Mesh/Dialing),
--               and the lives of peers (Mesh/Peering)
--   Channels    gateway/connection.go: handleConnection, handleChannel and its cases,
--               openServiceTunnel of gateway/gateway.go, what is sent to the other end and to the
--               node with the database (Channels/Forwarded, with db/ssh.go), and of gateway/tunnel.go
--               the ends of a tunnel (Channels/Bridging), when they are told to end
--               (Channels/Pairing), and the replies to their requests (Channels/Replies)
--   Service     gateway/service.go and gateway/session.go: the request loop of a session, the
--               commands and the shell, the help (Service/Help), and splitCommand of gateway/utils.go
--               with the reader of encoding/csv (Service/Split)
--   Socks       util/socks/socks.go: the SOCKS5 greeting, request and replies, over the bytes of a
--               connection
--   Proxy       gateway/socks.go and gateway/httpproxy.go: HandleSocksConnection, CONNECT, the choice of
--               the http handler, and splitHostPort
--   Migrations  db/migration.go and db/migrations/migrations.go: the loading of the embedded files, and
--               Migrate
--   Life        gateway/connection.go: handleConnection from the entry in the registry over what
--               arrives to the end; Open and Close of gateway/gateway.go (Life/Shutdown); from an
--               advertisement to a tunnel (Life/Advertising); and who waits for whom in close
--               (Life/Waiting)
--   Api         cli/http.go: the answers of the http server, with GetUser and GetUserScreenshot of
--               gateway/gateway.go
--   Startup     cli/flags.go, cli/run.go and db/db.go: the keys and the settings that the command line
--               names; the order of a start with its deferred calls (Startup/Run), and the loop with
--               the scavenger (Startup/Serving); CheckPinnedHostKey of util/sshconfig/sshconfig.go
--   Dbtest      db/dbtest/dbtest.go: the retries of execAdmin
--   Tests       a small node, on which the theorems are applied
--
-- A login (Auth) stores a row (Db) and gives the permissions of which a connection is made
-- (Channels.new_connection). The connection is published (Gateway), and its requests (Connection),
-- channels (Channels) and sessions (Service) act on it. A channel looks for a service here (Gateway),
-- then for the node of its user (Mesh), with the cache (RouteCache) in front of the database. The
-- heartbeat (Heartbeat) writes who is connected.
--
-- How state is modelled. A method that changes its receiver is a function from the old state to the
-- new one, and each critical section is one step. Connections, peers and tunnels are pointers in the
-- program and numbers here; the registry keeps a store from numbers to connections. A map is an
-- association list. Times are numbers of nanoseconds since the zero time, and a function takes as
-- arguments the times at which it reads the clock; a lookup in the mesh reads it once. The counters
-- of tunnels wrap at 2 ^ 64, and ports are taken at 2 ^ 16. Every loop is structural recursion over a
-- list, but for three: the loop over the keys of a file (Startup.parse_keys) takes as fuel the bytes of
-- the file, since each key takes some of them, a port is printed with five digits, and the
-- retries of execAdmin take 122, since each waits half a second of a minute. A beat takes the
-- registry as it is at each of its reads, since it may change in between, and the end of a connection
-- takes what happens between its calls (Life.finish); a history of calls or of statements is a list, and the interleavings of connections (Life/Registry) and of peers (Mesh/Peering) are step
-- relations. Of the waiting, only what a goroutine waits for is kept (Life/Waiting,
-- Channels/Pairing); the scavenger takes for each connection whether its close returns, and a kick is
-- modelled for closes that do. A start is the list of its effects
-- with a result. A migration runs scripts on an abstract schema, and a transaction that fails changes
-- nothing.
--
-- Parameters: the ssh library (Auth.Ssh.SshLibrary and Startup.KeyLibrary; the decoding of payloads,
-- whether a channel can be accepted, closed or opened and a reply sent), the json parser and encoder, what is
-- read from a channel, the location of an ip address and its text, the files
-- of the command line, trimming of space, the effect of a script of a migration, the router of the http
-- server, and what net/http reads of a request. A failure of the database is a flag or an error of a
-- query.
--
-- Not modelled: SQL and gorm; the waiting for goroutines but
-- for that of a connection's close, which is a step relation of its own (Life/Waiting) beside the
-- registry, and that of handleTunnel (Channels/Pairing); the bytes that io.Copy moves; the texts that commands print, but for the help, and the log; the accept loops and the
-- goroutines of the shutdown; the pool of the database; vendored libraries.
-- They are input and output around the parts above, or code of others.
pub mod Common
pub mod RouteCache
pub mod Errors
pub mod Db
pub mod Auth
pub mod Connection
pub mod Gateway
pub mod Heartbeat
pub mod Mesh
pub mod Channels
pub mod Service
pub mod Socks
pub mod Proxy
pub mod Migrations
pub mod Api
pub mod Life
pub mod Startup
pub mod Dbtest
pub mod Tests
