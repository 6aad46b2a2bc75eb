-- ===== src/Server/Deliver.antt =====
-- `makeDeliverFn` and what calls it, of internal/broker/client.go. The router's model returns its
-- calls of the closures as a list; they run here one after the other. The closure of a connection
-- reads its `*Client` when it runs, so that the number of the connection stands for it.
use broker.Prelude.{
  ℕ, ◌%◌, ◌^◌, ◌==◌, ltb, if◌then◌else◌, Bytes, List, [], ◌∷◌, Bool, false, not, ◌&&◌, Option, none,
  some, length,
}
use broker.Protocol.Codes.{v50}
use broker.Protocol.Publish.{
  encode_publish, encode_publish_v5, approx_client_outbound_publish_bytes,
}
use broker.Router.Engine.{Delivery}
use broker.Router.Publish
use broker.Session
use broker.Session.{
  Session, InFlight, Queued, qos2_published, next_packet_id, add_out_flight_limited, drain_queue,
}
use broker.Server.{Broker, Client, is_connected}
use broker.Server.Actions.{update_session, session_of_client, enqueue_packet}

abbrev pub queued_of : Delivery → Queued
queued_of d = record { topic = d.topic; payload = d.payload; qos = d.qos; retain = d.retain }

module _ {E : Type 0} where
  -- `qEnqueue`
  unfoldable pub queue_offline : Delivery → Broker E → Broker E
  queue_offline d b = elim (session_of_client d.sink b) [
    | none ↦ b
    | some (p, s) ↦
        if s.clean_session then b else update_session p (λ t. (Session.enqueue (queued_of d) t).0) b
  ]

  -- The PUBLISH itself.
  unfoldable pub send_publish : ℕ → Delivery → Broker E → Option (Broker E)
  send_publish packet_id d b =
      let c = b.conns d.sink in
      enqueue_packet d.sink
        (if c.version == v50
          then encode_publish_v5 d.topic d.payload d.qos d.retain packet_id false []
          else encode_publish d.topic d.payload d.qos d.retain packet_id false)
        b

abbrev pub in_flight_of : ℕ → ℕ → Delivery → InFlight
in_flight_of now packet_id d = record {
  packet_id = packet_id;
  topic = d.topic;
  payload = d.payload;
  qos = d.qos;
  retain = d.retain;
  sent_at = now;
  retries = 0;
  qos2_phase = qos2_published;
}

-- `uint32(approx) > c.peerMaxPacketSize`
unfoldable pub is_too_large : Client → Delivery → Bool
is_too_large c d =
    ltb 0 c.peer_max_packet_size
    && ltb c.peer_max_packet_size
        (approx_client_outbound_publish_bytes c.version d.topic (length d.payload) d.qos % 2 ^ 32)

-- The deliveries of `drainOfflineQueue` of the connection `i`.
abbrev pub drained : ℕ → List Queued → List Delivery
drained i [] = []
drained i (m ∷ ms) =
    record { sink = i; topic = m.topic; payload = m.payload; qos = m.qos; retain = m.retain }
    ∷ drained i ms

-- `recvLim`
abbrev pub receive_limit : Client → ℕ
receive_limit c = if c.version == v50 then c.peer_recv_max else 0

module _ {E : Type 0} where
  -- What follows `NextPacketID`: `s` is the session with the counter moved.
  unfoldable pub send_tracked : ℕ → Delivery → ℕ → Session × ℕ → Broker E → Option (Broker E)
  unfolding queue_offline send_publish
  send_tracked now d p (s, packet_id) b =
      let (s', room) =
        add_out_flight_limited (in_flight_of now packet_id d) (receive_limit (b.conns d.sink)) s in
      let b' = update_session p (λ t. s') b in
      if room then send_publish packet_id d b' else some (queue_offline d b')

  -- A message of QoS above 0. `none` of `NextPacketID` is its endless loop.
  unfoldable pub send_acknowledged : ℕ → Delivery → Broker E → Option (Broker E)
  unfolding send_tracked
  send_acknowledged now d b = elim (session_of_client d.sink b) [
    | none ↦ none
    | some (p, s) ↦ elim (next_packet_id s) [
      | none ↦ none
      | some numbered ↦ send_tracked now d p numbered b
    ]
  ]

  -- The closure of `makeDeliverFn`.
  unfoldable pub deliver : ℕ → Delivery → Broker E → Option (Broker E)
  unfolding queue_offline send_publish send_acknowledged is_too_large
  deliver now d b =
      let c = b.conns d.sink in
      if not (is_connected c.state)
      then some (queue_offline d b)
      else if is_too_large c d
      then some (queue_offline d b)
      else if ltb 0 d.qos
      then send_acknowledged now d b
      else send_publish 0 d b

  unfoldable pub deliver_each : ℕ → List Delivery → Broker E → Option (Broker E)
  unfolding deliver
  deliver_each now [] b = some b
  deliver_each now (d ∷ ds) b = elim (deliver now d b) [
    | none ↦ none
    | some b' ↦ deliver_each now ds b'
  ]

  -- `b.router.Publish`, with its deliveries.
  unfoldable pub publish : ℕ → Bytes → Bytes → ℕ → Bool → Broker E → Option (Broker E)
  unfolding deliver_each
  publish now topic payload qos retain b =
      let (r, ds) = Publish.publish now topic payload qos retain b.router in
      deliver_each now ds (record b { router = r })

  -- `drainOfflineQueue`
  unfoldable pub drain_offline : ℕ → ℕ → Broker E → Option (Broker E)
  unfolding deliver_each
  drain_offline now i b = elim (session_of_client i b) [
    | none ↦ some b
    | some (p, s) ↦
        let (s', ms) = drain_queue s in
        deliver_each now (drained i ms) (update_session p (λ t. s') b)
  ]
