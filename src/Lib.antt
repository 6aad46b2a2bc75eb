-- ===== src/Lib.antt =====
-- A model of the MQTT broker's core in seven parts, each a module with the theorems below it.
--
-- Protocol models internal/protocol/packet.go, the wire format. Reader is `sliceReader` with the
-- string and integer codec, VarInt the variable-length integers and `ReadFixed`, Codes the packet
-- types and the reason codes, Props the property sections of MQTT 5, Topic the validation of
-- topics and filters, and Connect, Connack, Publish, Ack, Subscribe and Disconnect the decoders
-- and encoders of the packets. A byte slice or string is a list of numbers, a decoder a function
-- into `Result`, which keeps Go's value, error and panic apart, and an encoder a list of bytes, or
-- an Option where `encodeVarInt` can write behind its array. The model's names are the Go names in
-- snake case: `decode_publish` is `DecodePublish`.
--
-- Router models internal/router/router.go. Segments is `splitFilter`, `TopicMatchesFilter` and
-- `matchSegs`; Trie is `node`, `shard` and the functions on them; Engine is `Router` with its 256
-- shards, the shared groups and the subscriptions; Shared is `deliverShared`; Publish is `Publish`
-- with the retained messages. An operation takes the router and returns the router that it leaves
-- and its deliveries, in the place of the calls of `DeliverFn`. It calls `ParseSharedTopicFilter`
-- of Protocol.
--
-- Session models internal/session/session.go: `Session` with its packet identifiers, its window of
-- outbound messages, the inbound messages of QoS 2 and the offline queue; and Session/Store is
-- `Store`, whose pointers lead into a heap of sessions.
--
-- Cluster models internal/cluster/partition.go, the partitions of the topics and their owners, and
-- Plugin models internal/plugin/plugin.go, the hooks, which are foreign code and stand for
-- functions that answer nil or an error.
--
-- Auth models internal/auth/auth.go: `Authenticator` with its users and access rules, Tokens is
-- `AuthJWT` with its cache, and Limiter is `RateLimiter`. bcrypt, the token library and float64
-- are parameters: functions, or a record of operations.
--
-- Server models internal/broker/client.go, internal/broker/server.go and
-- internal/broker/helpers.go, where the parts meet. `Broker` is the state of the process: router,
-- sessions, rules, hooks, the registry of clients, the connections by number, and the goroutines
-- that were started and have not run, as tasks. A `*Client` is a number and a `*Session` a
-- position in the heap of Session/Store, so that two connections can share a session. Actions has
-- the calls as functions of the broker that leave a broker with a value or a Go error; `none` is a
-- panic or an endless loop. Deliver is `makeDeliverFn` with `drainOfflineQueue`, where the
-- router's deliveries run one after the other; Connect and Handshake are `handleConnect`; Inbound
-- is PUBLISH, its acknowledgements and DISCONNECT; Subscriptions is SUBSCRIBE, UNSUBSCRIBE and
-- `restoreSession`; Handle is `handle` and a round of `readLoop`; Lifecycle is the registry,
-- `takeover`, the sweep and `cleanup`; Background is the accept loop, the partitions, cluster
-- messages and what comes from the API. Steps is the whole broker as a relation: any of these
-- calls may come next. Effects and Invariants take a property of the broker through every call.
--
-- Loops run on fuel in three places. The loops of `DecodeSubscribe` and `DecodeUnsubscribe` get
-- the length of the body plus one, since each round takes at least two bytes; the loop of
-- `readProps` gets the announced length plus one, since each round takes at least one byte; the
-- loop of `NextPacketID` gets 65536 rounds, which meet every identifier. `hang`, or `none` for the
-- last, is the result when the fuel runs out. The loops over at most four length bytes are
-- recursions on the rounds that are left.
--
-- Every operation of Protocol, Router, Session, Cluster, Plugin and Auth runs alone: the mutexes,
-- and what two goroutines can do between two of them, are not modelled. In Server a handler, a
-- clean-up or a task runs as one piece, and Steps puts these pieces in any order. Maps are
-- association lists, whose order stands for Go's unspecified one. The clock is an argument.
-- Metrics, logs, buffer pools and the functions that only read a field are left out. Counters,
-- that of the retained messages included, are unbounded. A negative size of the write queue, with
-- which the code panics when it makes the channel, is one of 0, and with a size of 0 the hand-over
-- to a write loop that already waits is left out. The goroutine at the end of `handlePublish`,
-- with the log, the retained message in Redis and the message to the cluster, is left out too.
-- `release_slot` would wait in the code if no place is in use; Steps runs it only for a connection
-- that runs, for which a place is. What the broker writes to Redis and Postgres is left out, and
-- what it reads from them is an argument. Start, Stop, the listeners, the deadlines of the
-- connections and the TLS configuration are not modelled; internal/api, internal/storage,
-- internal/metrics, pkg and cmd are I/O and configuration around libraries; clients/go is a
-- program of its own.
pub mod Prelude
pub mod Protocol
pub mod Router
pub mod Session
pub mod Cluster
pub mod Plugin
pub mod Auth
pub mod Server
