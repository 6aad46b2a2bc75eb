-- ===== src/Server/Tests.antt =====
-- Brokers with two connections, and the theorems at their steps.
use broker.Prelude.{
  ℕ, zero, suc, ◌≤◌, ◌<◌, ◌==◌, if◌then◌else◌, Bytes, codes, List, [], ◌∷◌, ◌++◌, Bool, true, false,
  Option, none, some, length, ◌≡◌, ◌≢◌, refl, sym, ap, arith, bytes_eq_instance, bytes_eq,
}
use broker.Prelude.Maps.{lookup}
use broker.Protocol.Result
use broker.Protocol.Publish.{PublishPacket}
use broker.Protocol.Subscribe.{Subscription}
use broker.Router.Engine.{new_router}
use broker.Session.{Session, get_in_flight, InFlight, qos2_published}
use broker.Auth.{Authenticator, can_publish}
use broker.Auth.Tokens.{parse_failed}
use broker.Cluster
use broker.Plugin
use broker.Server.{
  Broker, BrokerConfig, Client, HandleError, ConnState, handshaking, connected, decode_error,
}
use broker.Server.Actions.{Outcome, done, failed, run, session_of_client}
use broker.Server.Handshake.{Crypto, handle_connect}
use broker.Server.Inbound.{check_publish, resolve_publish_topic}
use broker.Server.Subscriptions.{subscribe_each}
use broker.Server.Handle.{Round, again, read_round}
use broker.Server.Lifecycle.{cleanup}
use broker.Server.Background.{
  Acceptor, accept, release_slot, ClusterMsg, reconcile_partitions, takes_cluster_msg,
}
use broker.Protocol.Ack.{decode_packet_id}
use broker.Protocol.Codes.PacketType
use broker.Server.Inbound.{enqueue_pub_ack, handle_pubrel}
use broker.Server.Released.{handle_pubrel-again}
use broker.Server.ExactlyOnce.{Sent, accept_each}
use broker.Server.Steps
use broker.Server.Steps.{System, Reach}
use broker.Server.Steps.Bounds.{IsWithinLimits, Reach-IsWithinLimits}
use broker.Server.Isolation.{Isolated, read_round-Isolated}
use broker.Server.Refusal.{Untouched, handle_connect-Untouched}
use broker.Server.Gate.{read_round-IsOpen}
use broker.Server.Denial.{check_publish-Untouched}
use broker.Server.Answers.{Returns, subscribe_each-Answered}
use broker.Server.Aliases.{resolve_publish_topic_twice}
use broker.Server.Departure.{lookup-cleanup}
use broker.Server.Framing
use broker.Server.Framing.{read_round-frame}

abbrev config : BrokerConfig
config = record {
  write_queue_size = 4;
  max_packet_size = 1000;
  topic_alias_max = 8;
  server_receive_maximum = 0;
  server_maximum_qos = 2;
  retain_available = true;
  wildcard_subscription_available = true;
  subscription_identifier_available = true;
  shared_subscription_available = true;
}

abbrev client : Bytes → Option ℕ → ConnState → Client
client client_id sess state = record {
  certificate = none;
  remote_addr = codes "10.0.0.1:1";
  client_id = client_id;
  username = [];
  version = 5;
  state = state;
  sess = sess;
  write_q = [];
  conn_closed = false;
  finished = false;
  keep_alive = 0;
  topic_aliases = [];
  peer_recv_max = 0;
  peer_max_packet_size = 0;
  negotiated_topic_alias_max = 8;
}

abbrev session : Session
session = record {
  client_id = codes "ann";
  clean_session = false;
  connected = true;
  connected_at = 0;
  last_seen = 0;
  keep_alive = 0;
  protocol_level = 5;
  session_expiry_sec = 60;
  disconnect_expire_at = 0;
  will_topic = [];
  will_payload = [];
  will_qos = 0;
  will_retain = false;
  will_set = false;
  next_pkt_id = 0;
  out_flight = [];
  in_flight = [];
  queue = [];
  max_queue = 1000;
}

-- Nobody may publish below `secret`.
abbrev rules : Authenticator
rules = record {
  users = [];
  acl_rules = record { client_glob = codes "*"; topic_filter = codes "secret/#"; perm = 0 } ∷ [];
  revoked_cert_serials = [];
}

abbrev two_conns : ℕ → Client
two_conns zero = client (codes "ann") (some 0) connected
two_conns (suc i) = client [] none handshaking

-- The connection 0 is ann's, and the others have sent nothing. The registry has a later connection
-- of ann.
abbrev start : Broker ℕ
start = record {
  cfg = config;
  router = new_router;
  sessions = record { data_of = (codes "ann", 0) ∷ []; heap = session ∷ [] };
  authn = rules;
  token_cache = [];
  plugins = record { hooks = [] };
  clients = (codes "ann", 2) ∷ [];
  conns = two_conns;
  tasks = [];
}

abbrev crypto : Crypto
crypto = record { compare = bytes_eq; parse = λ token now. parse_failed }

abbrev round : Round
round = record { now = 5; later = 5; allowed = true; cancelled = false }

abbrev qos2_message : InFlight
qos2_message = record {
  packet_id = 1;
  topic = codes "a/b";
  payload = codes "x";
  qos = 2;
  retain = false;
  sent_at = 0;
  retries = 0;
  qos2_phase = qos2_published;
}

abbrev one_taken : Acceptor
one_taken = record { in_use = 1; next = 3 }

abbrev before : System ℕ
before = record { acceptor = one_taken; live = 0 ∷ []; broker = start }

start-IsBounded : (j : ℕ) → length (two_conns j).write_q ≤ 4
start-IsBounded zero = omega arith
start-IsBounded (suc j) = omega arith

-- The broker and the stream that a call leaves.
abbrev broker_of : {A : Type 0} → Option (Broker ℕ × A) → Broker ℕ
broker_of none = start
broker_of (some (b, a)) = b

-- A PINGREQ.
abbrev ping : Bytes
ping = 0xc0 ∷ 0 ∷ []

abbrev pinged : Broker ℕ
pinged = broker_of (read_round crypto round 0 ping start)

pinged-again : read_round crypto round 0 ping start ≡ some (pinged, again [])
unfolding read_round broker.Protocol.VarInt.read_fixed broker.Server.Actions.enqueue
pinged-again = refl

read_round-Isolated_example : Isolated 0 start pinged
read_round-Isolated_example =
    read_round-Isolated crypto round 0 ping start pinged (again []) pinged-again

ping-encoded : broker.Protocol.VarInt.encode_var_int 0 ≡ some (0 ∷ [])
unfolding broker.Protocol.VarInt.encode_var_int broker.Protocol.VarInt.encode_var_int_loop
ping-encoded = refl

read_round-frame_example :
    read_round crypto round 0 (0xc0 ∷ 0 ∷ ping) start
    ≡ Framing.before ping (read_round crypto round 0 ping start)
read_round-frame_example = read_round-frame crypto round 0 0xc0 (0 ∷ []) [] start ping ping-encoded

abbrev refused : Broker ℕ
refused = broker_of (handle_connect crypto 5 1 [] start)

refused-failed :
    handle_connect crypto 5 1 [] start
    ≡ some (refused, failed (decode_error (Result.wrapped (codes "proto name") Result.eof)))
unfolding handle_connect broker.Protocol.Connect.decode_connect
    broker.Server.Connect.send_connack_failure broker.Protocol.Connack.encode_connack_v5
    broker.Protocol.VarInt.encode_var_int broker.Protocol.Codes.connack_reason_v5_for_decode_error
refused-failed = refl

-- CONNECT of MQTT 3.1.1 with a clean session, from bob.
abbrev connect : Bytes
connect = 0x10 ∷ 15 ∷ 0 ∷ 4 ∷ 77 ∷ 81 ∷ 84 ∷ 84 ∷ 4 ∷ 2 ∷ 0 ∷ 60 ∷ 0 ∷ 3 ∷ 98 ∷ 111 ∷ 98 ∷ []

abbrev opened : Broker ℕ
opened = broker_of (read_round crypto round 1 connect start)

opened-again : read_round crypto round 1 connect start ≡ some (opened, again [])
unfolding read_round broker.Protocol.VarInt.read_fixed broker.Protocol.Connect.decode_connect
    Plugin.on_client_connect broker.Server.Lifecycle.takeover lookup
    broker.Server.Lifecycle.register broker.Server.Connect.negotiated
    broker.Server.Actions.update_session
opened-again = refl

read_round-IsOpen_example : (opened.conns 1).state ≡ connected
read_round-IsOpen_example =
    read_round-IsOpen crypto round 1 connect [] start opened refl opened-again

handle_connect-Untouched_example : Untouched start refused
handle_connect-Untouched_example =
    handle_connect-Untouched crypto 5 1 [] start refused
      (decode_error (Result.wrapped (codes "proto name") Result.eof)) refused-failed

abbrev secret : PublishPacket
secret = record {
  dup = false;
  qos = 1;
  retain = true;
  topic = codes "secret/a";
  packet_id = 7;
  payload = codes "x";
  message_expiry_interval = 0;
  topic_alias = 0;
  received_at = 5;
}

may_not_publish : can_publish (codes "ann") (codes "secret/a") rules ≡ false
unfolding can_publish bytes_eq
may_not_publish = refl

check_publish-Untouched_example :
    (b' : Broker ℕ) × (check_publish 5 0 (codes "secret/a") secret start ≡ some (b', done tt))
    × Untouched start b'
check_publish-Untouched_example =
    check_publish-Untouched 5 0 (codes "secret/a") secret start may_not_publish

abbrev two_filters : List Subscription
two_filters =
    record { filter = codes "a/b"; qos = 1 } ∷ record { filter = codes "a/#/b"; qos = 0 } ∷ []

start-logged_in : session_of_client 0 start ≡ some (0, session)
start-logged_in = refl

subscribe_each-Answered_example :
    Returns 0 start new_router two_filters (subscribe_each 0 two_filters start)
subscribe_each-Answered_example =
    subscribe_each-Answered 0 0 session two_filters start start-logged_in

abbrev subscribed : Broker ℕ
subscribed = broker_of (subscribe_each 0 two_filters start)

-- The first entry is granted with QoS 1, the second one is no filter.
subscribed-codes : subscribe_each 0 two_filters start ≡ some (subscribed, 1 ∷ 0x8f ∷ [])
unfolding subscribe_each broker.Protocol.Topic.valid_topic_filter broker.Auth.can_subscribe
    Plugin.on_subscribe broker.Protocol.Codes.suback_reason_byte
subscribed-codes = refl

abbrev aliased : Bytes → PublishPacket
aliased topic = record secret { topic = topic; topic_alias = 3 }

resolve_publish_topic_twice_example :
    (resolve_publish_topic
      (aliased [])
      (resolve_publish_topic (aliased (codes "a/b")) (client (codes "ann") none connected)).0).1
    ≡ Result.ok (codes "a/b")
resolve_publish_topic_twice_example =
    resolve_publish_topic_twice (aliased (codes "a/b")) (aliased [])
      (client (codes "ann") none connected) refl (omega arith) (omega arith) refl refl refl

abbrev left : Broker ℕ
left = keep start (cleanup 5 0 start)
  where
    keep : Broker ℕ → Option (Broker ℕ) → Broker ℕ
    keep b none = b
    keep b (some b') = b'

cleaned : cleanup 5 0 start ≡ some left
unfolding cleanup
cleaned = refl

-- The connection 0 ends, and another one arrives.
abbrev between : System ℕ
between = record { acceptor = release_slot one_taken; live = []; broker = left }

abbrev after : System ℕ
after = record {
  acceptor = (accept 1 none (codes "10.0.0.1:2") between.acceptor left).0.0;
  live = Steps.started 3 (accept 1 none (codes "10.0.0.1:2") between.acceptor left).1 [];
  broker = (accept 1 none (codes "10.0.0.1:2") between.acceptor left).0.1;
}

Reach-IsWithinLimits_example : IsWithinLimits crypto 1 after
unfolding release_slot
Reach-IsWithinLimits_example =
    Reach-IsWithinLimits crypto 1 before after
      (Steps.further between after
        (Steps.further before between Steps.here
          (Steps.ended 0 5 [] [] one_taken start left cleaned))
        (Steps.accepted none (codes "10.0.0.1:2") between.acceptor [] left))
      (record {
        queues = record { bounded = start-IsBounded };
        apart = (omega arith, tt);
        counted = refl;
        slots = omega arith;
      })

lookup-cleanup_example : lookup (codes "ann") left.clients ≡ none
lookup-cleanup_example = lookup-cleanup 5 0 start left refl refl cleaned

abbrev manager : Bytes → Cluster.Manager
manager id = record { broker_id = id; partition_count = 4; ownership = [] }

abbrev reconciled : Bytes → Cluster.Manager
reconciled id = reconcile_partitions (some (codes "b1" ∷ codes "b2" ∷ [])) id 4 (manager id)

abbrev cluster_message : ClusterMsg
cluster_message = record {
  ver = 1;
  source_broker = codes "b3";
  partition = 2;
  topic = codes "a/b";
  payload = codes "x";
  qos = 0;
  retain = false;
}

b1-takes : takes_cluster_msg (codes "b1") (reconciled (codes "b1")) cluster_message ≡ true
unfolding takes_cluster_msg bytes_eq Cluster.owner lookup reconcile_partitions Cluster.set_owner
    broker.Prelude.Maps.insert broker.Server.Background.owner_among
    broker.Router.Shared.sort_strings
b1-takes = refl

b2-refuses : takes_cluster_msg (codes "b2") (reconciled (codes "b2")) cluster_message ≡ false
unfolding takes_cluster_msg bytes_eq Cluster.owner lookup reconcile_partitions Cluster.set_owner
    broker.Prelude.Maps.insert broker.Server.Background.owner_among
    broker.Router.Shared.sort_strings
b2-refuses = refl

-- A QoS 2 message that comes twice, and its PUBREL, twice too.
abbrev hello : Sent 1
hello = record {
  time = 5;
  topic = codes "a/b";
  pkt = record secret { qos = 2; packet_id = 1 };
  level = refl;
  numbered = refl;
}

abbrev or_start : Option (Broker ℕ) → Broker ℕ
or_start none = start
or_start (some b) = b

abbrev stored : Broker ℕ
stored = or_start (accept_each 0 (hello ∷ hello ∷ []) start)

stored-twice : accept_each 0 (hello ∷ hello ∷ []) start ≡ some stored
unfolding accept_each broker.Server.Inbound.accept_publish broker.Server.Actions.update_session
    broker.Protocol.Ack.encode_ack_v5 broker.Protocol.VarInt.encode_var_int
    broker.Server.Actions.enqueue
stored-twice = refl

abbrev pubrel_body : Bytes
pubrel_body = 0 ∷ 1 ∷ []

pubrel-decoded : decode_packet_id pubrel_body ≡ broker.Protocol.Result.ok 1
unfolding decode_packet_id
pubrel-decoded = refl

abbrev freed : Broker ℕ
freed = broker_of (handle_pubrel 9 0 pubrel_body stored)

freed-once : handle_pubrel 9 0 pubrel_body stored ≡ some (freed, done tt)
unfolding handle_pubrel decode_packet_id accept_each broker.Server.Inbound.accept_publish
    broker.Server.Actions.update_session broker.Protocol.Ack.encode_ack_v5
    broker.Protocol.VarInt.encode_var_int broker.Server.Actions.enqueue
    broker.Server.Inbound.release broker.Session.ack_in_flight lookup broker.Prelude.Maps.delete
    broker.Server.Inbound.store_received get_in_flight broker.Session.add_in_flight
    broker.Server.Deliver.publish broker.Router.Publish.publish
    broker.Router.Engine.match_subscribers broker.Router.Engine.match_shards
    broker.Router.Trie.match_node broker.Prelude.Maps.insert broker.Server.Inbound.received_of
    broker.Router.Engine.deliver_all broker.Router.Segments.split_filter new_router
    broker.Router.Shared.deliver_shared
freed-once = refl

handle_pubrel-again_example :
    handle_pubrel 11 0 pubrel_body freed ≡ run (enqueue_pub_ack 0 PacketType.pubcomp 1) freed
handle_pubrel-again_example =
    handle_pubrel-again 9 11 0 1 pubrel_body stored freed (done tt) pubrel-decoded freed-once
