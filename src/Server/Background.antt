-- ===== src/Server/Background.antt =====
-- What the broker does beside its connections, of internal/broker/server.go and
-- internal/broker/helpers.go: `New`, the accept loop, the partitions, the messages of the cluster and
-- of the API, retained messages at the start, `publishSys`. What Redis answers is an argument.
use broker.Prelude.{
  ℕ, zero, suc, ◌+◌, ◌-◌, ◌*◌, ◌%◌, ◌==◌, ltb, if◌then◌else◌, Bytes, codes, List, [], ◌∷◌, length,
  get_elem?, Bool, true, false, Option, none, some, bytes_eq, nat_eq, bytes_eq_instance,
}
use broker.Prelude.Maps.{lookup}
use broker.Router.Engine.{new_router, Retained}
use broker.Router.Publish.{set_retained}
use broker.Router.Shared.{sort_strings}
use broker.Session.Store.{new_store, count}
use broker.Auth.{Certificate, new_authenticator, set_revoked_serials, add_user}
use broker.Cluster
use broker.Cluster.{owner, set_owner}
use broker.Plugin.{new_manager}
use broker.Server.{Broker, BrokerConfig, new_client}
use broker.Server.Actions.{update_client, update_session, session_of_client}
use broker.Server.Connect.{digits}
use broker.Server.Deliver.{publish}
use broker.Server.Lifecycle.{without_will, close_conn}

-- `storage.ClusterMsg`, without the sequence number and the time.
pub record ClusterMsg : Type 0 where
  pub ver : ℕ
  pub source_broker : Bytes
  pub partition : ℕ
  pub topic : Bytes
  pub payload : Bytes
  pub qos : ℕ
  pub retain : Bool

-- The loop that gives the partitions from `p` on to their owners.
unfoldable pub assign : (ℕ → Bytes) → ℕ → ℕ → Cluster.Manager → Cluster.Manager
assign owner_of p zero m = m
assign owner_of p (suc n) m = assign owner_of (p + 1) n (set_owner p (owner_of p) m)

-- `ids[p%n]`, for `n` above 0.
unfoldable pub owner_among : List Bytes → ℕ → Bytes
owner_among ids p = elim (get_elem? ids (p % length ids)) [ none ↦ [] | some id ↦ id ]

-- `reconcilePartitions`; `alive` is what Redis answers, `none` for its error.
unfoldable pub reconcile_partitions :
    Option (List Bytes) → Bytes → ℕ → Cluster.Manager → Cluster.Manager
unfolding assign
reconcile_partitions none broker_id n m = assign (λ p. broker_id) 0 n m
reconcile_partitions (some []) broker_id n m = assign (λ p. broker_id) 0 n m
reconcile_partitions (some (id ∷ ids)) broker_id n m =
    assign (owner_among (sort_strings (id ∷ ids))) 0 n m

-- Whether `clusterLoop` takes a message.
unfoldable pub takes_cluster_msg : Bytes → Cluster.Manager → ClusterMsg → Bool
takes_cluster_msg broker_id m msg =
    if bytes_eq msg.source_broker broker_id
    then false
    else if ltb 0 msg.ver
    then bytes_eq (owner msg.partition m) broker_id
    else true

-- `delay` of the accept loop after a temporary error, in nanoseconds.
unfoldable pub next_delay : ℕ → ℕ
next_delay delay =
    if delay == 0
    then 5000000
    else let doubled = delay * 2 in if ltb 1000000000 doubled then 1000000000 else doubled

-- The semaphore of the connections, and the number of the next one.
pub record Acceptor : Type 0 where
  pub in_use : ℕ
  pub next : ℕ

-- `<-b.connSem` at the end of a connection.
unfoldable pub release_slot : Acceptor → Acceptor
release_slot a = record a { in_use = a.in_use - 1 }

module _ {E : Type 0} where
  -- `New`, for the parts that the model keeps; `hash` is that of the default password.
  unfoldable pub new_broker : BrokerConfig → List Bytes → Option Bytes → Broker E
  new_broker cfg revoked hash = record {
    cfg = cfg;
    router = new_router;
    sessions = new_store;
    authn =
        (add_user (codes "admin") hash (codes "admin" ∷ [])
          (set_revoked_serials revoked new_authenticator)).0;
    token_cache = [];
    plugins = new_manager E;
    clients = [];
    conns = λ i. new_client none [];
    tasks = [];
  }

  -- A connection that is accepted or turned away: false if the limit is reached.
  unfoldable pub accept :
      ℕ → Option Certificate → Bytes → Acceptor → Broker E → (Acceptor × Broker E) × Bool
  accept max_connections certificate remote_addr a b =
      if ltb a.in_use max_connections
      then (
        (
          record { in_use = a.in_use + 1; next = a.next + 1 },
          update_client a.next (λ c. new_client certificate remote_addr) b,
        ),
        true,
      )
      else ((a, b), false)

  -- A round of `clusterLoop`.
  unfoldable pub handle_cluster_msg :
      ℕ → Bytes → Cluster.Manager → ClusterMsg → Broker E → Option (Broker E)
  unfolding takes_cluster_msg publish
  handle_cluster_msg now broker_id m msg b =
      if takes_cluster_msg broker_id m msg
      then publish now msg.topic msg.payload msg.qos msg.retain b
      else some b

  -- The loop of `loadRetained`.
  unfoldable pub load_records : List Retained → Broker E → Broker E
  load_records [] b = b
  load_records (r ∷ records) b =
      load_records records (record b { router = set_retained r b.router })

  -- `none` is an error of Redis.
  unfoldable pub load_retained : Option (List Retained) → Broker E → Broker E
  unfolding load_records
  load_retained none b = b
  load_retained (some records) b = load_records records b

  -- The pairs of `publishSys`, the number of clients, the rate and the uptime as they are printed.
  unfoldable pub sys_pairs : Bytes → Bytes → Bytes → Broker E → List (Bytes × Bytes)
  sys_pairs connected rate uptime b =
      (codes "$SYS/broker/clients/connected", connected)
      ∷ (codes "$SYS/broker/messages/rate", rate)
      ∷ (codes "$SYS/broker/uptime", uptime)
      ∷ (codes "$SYS/broker/version", codes "LUMA/2.0.0-go")
      ∷ (codes "$SYS/broker/sessions", digits 20 (count b.sessions) [])
      ∷ []

  unfoldable pub publish_pairs : ℕ → List (Bytes × Bytes) → Broker E → Option (Broker E)
  unfolding publish
  publish_pairs now [] b = some b
  publish_pairs now ((topic, payload) ∷ pairs) b = elim (publish now topic payload 0 true b) [
    | none ↦ none
    | some b' ↦ publish_pairs now pairs b'
  ]

  unfoldable pub publish_sys : ℕ → Bytes → Bytes → Bytes → Broker E → Option (Broker E)
  unfolding sys_pairs publish_pairs
  publish_sys now connected rate uptime b = publish_pairs now (sys_pairs connected rate uptime b) b

  unfoldable pub get_client : Bytes → Broker E → Option ℕ
  get_client client_id b = lookup client_id b.clients

  -- `none` is a nil session.
  unfoldable pub force_disconnect : ℕ → Broker E → Option (Broker E)
  force_disconnect i b = elim (session_of_client i b) [
    | none ↦ none
    | some (p, s) ↦ some (update_client i close_conn (update_session p without_will b))
  ]
