-- ===== src/Server.antt =====
-- Package broker: the state of `Broker` of internal/broker/server.go and of `Client` of
-- internal/broker/client.go, and the calls that both files share. Connections are numbered, and a
-- `*Client` is such a number; a `*Session` is a position in the heap of the store. What a goroutine
-- started by `go` does is a task that waits. Metrics, logs, counters and what is written to Redis
-- and Postgres are left out; a configuration of zero stands for Go's zero or negative number.
pub mod Actions
pub mod Deliver
pub mod Quiet
pub mod Connect
pub mod Handshake
pub mod Inbound
pub mod Subscriptions
pub mod Handle
pub mod Background
pub mod Effects
pub mod Refusal
pub mod Invariants
pub mod Steps
pub mod Isolation
pub mod Waiting
pub mod Released
pub mod ExactlyOnce
pub mod Departure
pub mod Partitions
pub mod Aliases
pub mod Denial
pub mod Answers
pub mod Gate
pub mod Framing
mod Tests
pub mod Lifecycle
use broker.Prelude.{
  ℕ, ◌==◌, if◌then◌else◌, Bytes, List, [], ◌∷◌, ◌++◌, Bool, true, false, Option, none, some, length,
}
use broker.Protocol.Result.{Error}
use broker.Router.Engine.{Router}
use broker.Session.{Session}
use broker.Session.Store.{Store}
use broker.Auth.{AuthError, Authenticator, Certificate}
use broker.Auth.Tokens.{TokenCache}
use broker.Plugin

pub data ConnState : Type 0 where
  handshaking connected closing closed : ConnState

-- The part of `config.BrokerConfig` that the model reads.
pub record BrokerConfig : Type 0 where
  pub write_queue_size : ℕ
  pub max_packet_size : ℕ
  pub topic_alias_max : ℕ
  pub server_receive_maximum : ℕ
  pub server_maximum_qos : ℕ
  pub retain_available : Bool
  pub wildcard_subscription_available : Bool
  pub subscription_identifier_available : Bool
  pub shared_subscription_available : Bool

-- `certificate` is the first peer certificate of a TLS connection. `conn_closed` is whether `conn`
-- was closed, and `finished` whether `closeOnce` has run. `write_q` is the buffer of the channel.
pub record Client : Type 0 where
  pub certificate : Option Certificate
  pub remote_addr : Bytes
  pub client_id : Bytes
  pub username : Bytes
  pub version : ℕ
  pub state : ConnState
  pub sess : Option ℕ
  pub write_q : List Bytes
  pub conn_closed : Bool
  pub finished : Bool
  pub keep_alive : ℕ
  pub topic_aliases : List (ℕ × Bytes)
  pub peer_recv_max : ℕ
  pub peer_max_packet_size : ℕ
  pub negotiated_topic_alias_max : ℕ

-- A goroutine that was started and has not run: `restoreSession`, `drainOfflineQueue`, and
-- `SendRetained` for a filter, a connection and a QoS.
pub data Task : Type 0 where
  restore_session : ℕ → Task
  drain_offline_queue : ℕ → Task
  send_retained_to : Bytes → ℕ → ℕ → Task

pub record Broker (E : Type 0) : Type 0 where
  pub cfg : BrokerConfig
  pub router : Router
  pub sessions : Store
  pub authn : Authenticator
  pub token_cache : TokenCache
  pub plugins : Plugin.Manager E
  pub clients : List (Bytes × ℕ)
  pub conns : ℕ → Client
  pub tasks : List Task

pub data HandleError (E : Type 0) : Type 0 where
  decode_error : Error → HandleError E
  auth_error : AuthError → HandleError E
  plugin_error : E → HandleError E
  rate_limited graceful_disconnect unexpected_packet : HandleError E

-- `newClient`
unfoldable pub new_client : Option Certificate → Bytes → Client
new_client certificate remote_addr = record {
  certificate = certificate;
  remote_addr = remote_addr;
  client_id = [];
  username = [];
  version = 0;
  state = handshaking;
  sess = none;
  write_q = [];
  conn_closed = false;
  finished = false;
  keep_alive = 0;
  topic_aliases = [];
  peer_recv_max = 0;
  peer_max_packet_size = 0;
  negotiated_topic_alias_max = 0;
}

abbrev pub is_connected : ConnState → Bool
is_connected connected = true
is_connected _ = false

abbrev pub is_handshaking : ConnState → Bool
is_handshaking handshaking = true
is_handshaking _ = false

abbrev pub is_closed : ConnState → Bool
is_closed closed = true
is_closed _ = false
