-- ===== src/Server/Inbound.antt =====
-- PUBLISH, its acknowledgements and DISCONNECT: `resolvePublishTopic`, `handlePublish`, the QoS
-- handlers, `handleDisconnect` and `enqueuePubAck` of internal/broker/client.go. What is written to
-- the log, to Redis and to Postgres is left out.
use broker.Prelude.{
  ℕ, ◌*◌, ◌-◌, ◌==◌, ltb, if◌then◌else◌, Bytes, [], Bool, not, ◌&&◌, Option, none, some, nat_eq,
}
use broker.Prelude.Maps.{lookup, insert}
use broker.Protocol.Result.{Result, ok, err, protocol_violation}
use broker.Protocol.Codes.PacketType
use broker.Protocol.Codes.{v50}
use broker.Protocol.Topic.{is_empty}
use broker.Protocol.VarInt.{FixedHeader}
use broker.Protocol.Ack.{encode_ack, encode_ack_v5, decode_packet_id}
use broker.Protocol.Publish.{PublishPacket, decode_publish}
use broker.Protocol.Disconnect.{DisconnectPacket, decode_disconnect}
use broker.Auth.{can_publish}
use broker.Plugin
use broker.Session.{
  Session, InFlight, qos2_published, qos2_received, get_in_flight, add_in_flight, ack_in_flight,
  ack_out_flight, set_out_flight_phase, second, update_session_expiry_from_disconnect,
}
use broker.Server.{Broker, Client, graceful_disconnect}
use broker.Server.Actions.{
  Action, pure, raise, gets, decode, modify, run, ◌>>=◌, ◌>>◌, update_client, update_session,
  session_of_client, enqueue, enqueue_packet,
}
use broker.Server.Deliver.{publish}
use broker.Server.Lifecycle.{without_will}

-- The topic that the table has for the alias of a packet with no topic.
unfoldable pub known_topic : ℕ → Client → Client × Result Bytes
known_topic alias c = elim (lookup alias c.topic_aliases) [
  | none ↦ (c, err protocol_violation)
  | some topic ↦ (c, ok topic)
]

unfoldable pub resolve_publish_topic : PublishPacket → Client → Client × Result Bytes
unfolding known_topic
resolve_publish_topic pkt c =
    let max = c.negotiated_topic_alias_max in
    if not (c.version == v50)
    then (c, ok pkt.topic)
    else if ltb 0 pkt.topic_alias && ltb 0 max && ltb max pkt.topic_alias
    then (c, err protocol_violation)
    else if (max == 0) && ltb 0 pkt.topic_alias
    then (c, err protocol_violation)
    else if is_empty pkt.topic
    then known_topic pkt.topic_alias c
    else if ltb 0 pkt.topic_alias && ltb 0 max
    then (
      record c { topic_aliases = insert pkt.topic_alias pkt.topic c.topic_aliases },
      ok pkt.topic,
    )
    else (c, ok pkt.topic)

-- `time.Since(pkt.ReceivedAt)` against the expiry interval; the clock does not go back.
unfoldable pub is_expired : ℕ → PublishPacket → Bool
is_expired later pkt =
    ltb 0 pkt.message_expiry_interval
    && ltb (pkt.message_expiry_interval * second) (later - pkt.received_at)

unfoldable pub received_of : ℕ → Bytes → PublishPacket → InFlight
received_of now topic pkt = record {
  packet_id = pkt.packet_id;
  topic = topic;
  payload = pkt.payload;
  qos = pkt.qos;
  retain = pkt.retain;
  sent_at = now;
  retries = 0;
  qos2_phase = qos2_published;
}

-- Phase 1 of QoS 2: a message whose identifier is known is not stored again.
unfoldable pub store_received : InFlight → Session → Session
store_received m s = elim (get_in_flight m.packet_id s) [ none ↦ add_in_flight m s | some _ ↦ s ]

-- What a DISCONNECT writes to the session.
unfoldable pub graceful : DisconnectPacket → Session → Session
graceful pkt s =
    let s' = without_will s in
    if pkt.has_session_expiry_prop
    then update_session_expiry_from_disconnect pkt.session_expiry_interval s'
    else s'

module _ {E : Type 0} where
  -- `c.sess`, which is nil before a CONNECT is accepted.
  abbrev pub with_session : {A : Type 0} → ℕ → (ℕ → Session → Action E A) → Action E A
  with_session i f b = elim (session_of_client i b) [ none ↦ none | some (p, s) ↦ f p s b ]

  unfoldable pub enqueue_pub_ack : ℕ → ℕ → ℕ → Broker E → Option (Broker E)
  enqueue_pub_ack i t id b =
      if (b.conns i).version == v50
      then enqueue_packet i (encode_ack_v5 t id 0x00 []) b
      else some (enqueue i (encode_ack t id) b)

  unfoldable pub resolved_topic : ℕ → PublishPacket → Action E Bytes
  unfolding resolve_publish_topic
  resolved_topic i pkt b =
      let (c, topic) = resolve_publish_topic pkt (b.conns i) in
      decode topic (update_client i (λ _. c) b)

  -- The message by its QoS.
  unfoldable pub accept_publish : ℕ → ℕ → Bytes → PublishPacket → Action E (Unit {0})
  unfolding enqueue_pub_ack
  accept_publish now i topic pkt =
      if pkt.qos == 0
      then run (publish now topic pkt.payload pkt.qos pkt.retain)
      else if pkt.qos == 1
      then (do
        run (publish now topic pkt.payload pkt.qos pkt.retain)
        run (enqueue_pub_ack i PacketType.puback pkt.packet_id))
      else if pkt.qos == 2
      then with_session i (λ p s. do
        modify (update_session p (store_received (received_of now topic pkt)))
        run (enqueue_pub_ack i PacketType.pubrec pkt.packet_id))
      else pure tt

  -- A refusal by the rules: QoS 1 alone is acknowledged.
  unfoldable pub deny_publish : ℕ → PublishPacket → Action E (Unit {0})
  unfolding enqueue_pub_ack
  deny_publish i pkt =
      if pkt.qos == 1 then run (enqueue_pub_ack i PacketType.puback pkt.packet_id) else pure tt

  -- What the hooks say of a publish.
  abbrev pub if_permitted : Option E → Action E (Unit {0}) → Action E (Unit {0})
  if_permitted none m = m
  if_permitted (some e) m = pure tt

  -- The rules, then the hooks.
  unfoldable pub check_publish : ℕ → ℕ → Bytes → PublishPacket → Action E (Unit {0})
  unfolding accept_publish deny_publish
  check_publish now i topic pkt b =
      let client_id = (b.conns i).client_id in
      if not (can_publish client_id topic b.authn)
      then deny_publish i pkt b
      else if_permitted
          (Plugin.on_publish E client_id topic pkt.payload pkt.qos pkt.retain b.plugins)
          (accept_publish now i topic pkt) b

  -- `now` is the time of the decoding, `later` that of the rest.
  unfoldable pub handle_publish : ℕ → ℕ → ℕ → FixedHeader → Bytes → Action E (Unit {0})
  unfolding resolved_topic is_expired check_publish
  handle_publish now later i fh body = do
    version ← gets (λ b. (b.conns i).version)
    pkt ← decode (decode_publish now version fh body)
    topic ← resolved_topic i pkt
    if is_expired later pkt then pure tt else check_publish later i topic pkt

  unfoldable pub handle_puback : ℕ → Bytes → Action E (Unit {0})
  handle_puback i body = do
    id ← decode (decode_packet_id body)
    with_session i (λ p s. modify (update_session p (λ t. (ack_out_flight id t).0)))

  unfoldable pub handle_pubrec : ℕ → Bytes → Action E (Unit {0})
  handle_pubrec i body = do
    id ← decode (decode_packet_id body)
    with_session i (λ p s. modify (update_session p (set_out_flight_phase id qos2_received)))
    run (enqueue_pub_ack i PacketType.pubrel id)

  -- The message that a PUBREL releases.
  abbrev pub publish_released : ℕ → Option InFlight → Broker E → Option (Broker E)
  publish_released now none b = some b
  publish_released now (some m) b = publish now m.topic m.payload m.qos m.retain b

  unfoldable pub release : ℕ → ℕ → ℕ → Session → Action E (Unit {0})
  release now id p s =
      let (s', message) = ack_in_flight id s in
      modify (update_session p (λ t. s')) >> run (publish_released now message)

  unfoldable pub handle_pubrel : ℕ → ℕ → Bytes → Action E (Unit {0})
  unfolding release
  handle_pubrel now i body = do
    id ← decode (decode_packet_id body)
    with_session i (release now id)
    run (enqueue_pub_ack i PacketType.pubcomp id)

  unfoldable pub handle_pubcomp : ℕ → Bytes → Action E (Unit {0})
  handle_pubcomp i body = do
    id ← decode (decode_packet_id body)
    with_session i (λ p s. modify (update_session p (λ t. (ack_out_flight id t).0)))

  -- A DISCONNECT before a session is there changes nothing.
  abbrev pub end_gracefully : ℕ → DisconnectPacket → Broker E → Broker E
  end_gracefully i pkt b = elim (session_of_client i b) [
    | none ↦ b
    | some (p, s) ↦ update_session p (graceful pkt) b
  ]

  unfoldable pub handle_disconnect : ℕ → Bytes → Action E (Unit {0})
  handle_disconnect i body = do
    version ← gets (λ b. (b.conns i).version)
    pkt ← decode (decode_disconnect version body)
    modify (end_gracefully i pkt)
    raise graceful_disconnect
