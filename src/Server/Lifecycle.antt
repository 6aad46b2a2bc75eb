-- ===== src/Server/Lifecycle.antt =====
-- The registry of internal/broker/server.go with its takeover and its purge, and `cleanup` of
-- internal/broker/client.go.
use broker.Prelude.{
  ℕ, if◌then◌else◌, Bytes, List, [], ◌∷◌, get_elem?, true, false, Option, none, some,
  bytes_eq_instance,
}
use broker.Prelude.Maps.{lookup, insert, delete}
use broker.Protocol.Topic.{is_empty}
use broker.Router.Engine.{unsubscribe_all}
use broker.Session.{Session, set_connected, prepare_disconnect_expiry, should_expire_disconnected}
use broker.Session.Store.{delete_session}
use broker.Server.{Broker, Client, closed}
use broker.Server.Actions.{update_client, update_session, session_of_client, session_at}
use broker.Server.Deliver.{publish}

abbrev pub without_will : Session → Session
without_will s = record s { will_set = false }

abbrev pub close_conn : Client → Client
close_conn c = record c { conn_closed = true }

abbrev pub finish : Client → Client
finish c = record c { state = closed; finished = true; conn_closed = true }

-- The sessions that the store holds.
abbrev pub stored_sessions : List (Bytes × ℕ) → List Session → List Session
stored_sessions [] heap = []
stored_sessions ((id, p) ∷ rest) heap = elim (get_elem? heap p) [
  | none ↦ stored_sessions rest heap
  | some s ↦ s ∷ stored_sessions rest heap
]

module _ {E : Type 0} where
  unfoldable pub register : Bytes → ℕ → Broker E → Broker E
  register client_id i b = record b { clients = insert client_id i b.clients }

  unfoldable pub unregister : Bytes → Broker E → Broker E
  unregister client_id b = record b { clients = delete client_id b.clients }

  -- `PurgePersistentSession`, without the rows in the database.
  unfoldable pub purge_persistent_session : Bytes → Broker E → Broker E
  purge_persistent_session client_id b = record b {
    router = unsubscribe_all client_id b.router;
    sessions = delete_session client_id b.sessions;
  }

  -- `takeover`; `none` is a registered client with a nil session.
  unfoldable pub takeover : Bytes → Broker E → Option (Broker E)
  takeover client_id b = elim (lookup client_id b.clients) [
    | none ↦ some b
    | some j ↦ elim (session_of_client j b) [
      | none ↦ none
      | some (p, s) ↦ some (update_client j close_conn (update_session p without_will b))
    ]
  ]

  -- One session of the sweep: `now` is the tick.
  unfoldable pub sweep_session : ℕ → Session → Broker E → Broker E
  unfolding purge_persistent_session
  sweep_session now s b =
      if should_expire_disconnected now s then purge_persistent_session s.client_id b else b

  -- `Each` with the callback of `sessionExpirySweepLoop`: the sessions of the store at the tick.
  unfoldable pub sweep_all : ℕ → List Session → Broker E → Broker E
  unfolding sweep_session
  sweep_all now [] b = b
  sweep_all now (s ∷ rest) b = sweep_all now rest (sweep_session now s b)

  -- One tick of `sessionExpirySweepLoop`.
  unfoldable pub sweep : ℕ → Broker E → Broker E
  unfolding sweep_all
  sweep now b = sweep_all now (stored_sessions b.sessions.data_of b.sessions.heap) b

  -- What `cleanup` does to the session of the client, the will aside: the goroutine's part in the
  -- database is left out.
  unfoldable pub end_session : ℕ → Bytes → ℕ → Session → Broker E → Broker E
  unfolding purge_persistent_session
  end_session now client_id p s b =
      let b₁ = update_session p (set_connected now false) b in
      if s.clean_session
      then purge_persistent_session client_id b₁
      else let (s', purge) = prepare_disconnect_expiry now (set_connected now false s) in
        let b₂ = update_session p (λ t. s') b₁ in
        if purge then purge_persistent_session client_id b₂ else b₂

  -- `if c.sess.WillSet`
  unfoldable pub publish_will : ℕ → Session → Broker E → Option (Broker E)
  unfolding publish
  publish_will now s b =
      if s.will_set
      then publish now s.will_topic s.will_payload s.will_qos s.will_retain b
      else some b

  -- The body of `closeOnce.Do`. The hooks' answers to the disconnect are not used.
  unfoldable pub cleanup_once : ℕ → ℕ → Broker E → Option (Broker E)
  unfolding unregister end_session publish_will
  cleanup_once now i b =
      let c = b.conns i in
      let b₁ = update_client i finish b in
      if is_empty c.client_id
      then some b₁
      else let b₂ = unregister c.client_id b₁ in
        elim (session_at c.sess b₂) [
          | none ↦ some b₂
          | some (p, s) ↦ publish_will now s (end_session now c.client_id p s b₂)
        ]

  unfoldable pub cleanup : ℕ → ℕ → Broker E → Option (Broker E)
  unfolding cleanup_once
  cleanup now i b = if (b.conns i).finished then some b else cleanup_once now i b
