-- ===== src/Server/Subscriptions.antt =====
-- SUBSCRIBE and UNSUBSCRIBE, and what runs later: `handleSubscribe`, `handleUnsubscribe`,
-- `restoreSession` and the goroutines of internal/broker/client.go. The rows of the database are an
-- argument, and what is written to it is left out.
use broker.Prelude.{
  ℕ, ◌%◌, ◌^◌, ◌==◌, ltb, if◌then◌else◌, Bytes, List, [], ◌∷◌, bit_and, not, Option, none, some,
  nat_eq,
}
use broker.Protocol.Codes.SubackDeny
use broker.Protocol.Codes.{v50, suback_reason_byte, unsuback_reason_byte}
use broker.Protocol.Topic.{valid_topic_filter}
use broker.Protocol.Ack.{encode_unsuback}
use broker.Protocol.Subscribe.{
  Subscription, decode_subscribe, decode_unsubscribe, encode_suback, encode_suback_v5,
  encode_unsuback_v5,
}
use broker.Router.Trie.{Subscriber}
use broker.Router.Engine
use broker.Router.Publish.{match_filter, send_retained}
use broker.Auth.{can_subscribe}
use broker.Plugin
use broker.Server.{
  Broker, BrokerConfig, Task, restore_session, drain_offline_queue, send_retained_to,
}
use broker.Server.Actions.{
  Action, gets, decode, run, ◌>>=◌, add_task, session_of_client, enqueue, enqueue_packet,
}
use broker.Server.Deliver.{deliver_each, drain_offline}

-- `srvMaxQoS`
unfoldable pub server_max_qos : BrokerConfig → ℕ
server_max_qos bc = let qos = bc.server_maximum_qos % 2 ^ 8 in if ltb 2 qos then 2 else qos

-- The QoS that a subscription gets.
unfoldable pub granted_qos : BrokerConfig → ℕ → ℕ
unfolding server_max_qos
granted_qos bc requested =
    let qos = bit_and requested 0x03 in
    if ltb (server_max_qos bc) qos then server_max_qos bc else qos

-- The `Subscriber` that a connection gives to the router.
abbrev pub subscriber_of : ℕ → Bytes → ℕ → Subscriber
subscriber_of i client_id qos = record { client_id = client_id; qos = qos; deliver = some i }

-- `UnsubDeniedInvalidTopicFilter` and `UnsubDeniedNotAuthorized`
abbrev pub unsub_invalid_topic_filter : ℕ
unsub_invalid_topic_filter = 1

abbrev pub unsub_not_authorized : ℕ
unsub_not_authorized = 2

module _ {E : Type 0} where
  -- What the hooks say of a subscription.
  abbrev pub hook_reason : Option E → ℕ
  hook_reason none = SubackDeny.granted
  hook_reason (some e) = SubackDeny.plugin

  -- The checks of one filter in their order: the syntax, the rules on the filter inside a share,
  -- the hooks.
  unfoldable pub subscribe_reason : Bytes → Bytes → ℕ → Broker E → ℕ
  subscribe_reason client_id filter qos b =
      if not (valid_topic_filter filter)
      then SubackDeny.invalid_topic_filter
      else if not (can_subscribe client_id (match_filter filter) b.authn)
      then SubackDeny.not_authorized
      else hook_reason (Plugin.on_subscribe E client_id filter qos b.plugins)

  -- A subscription that is granted. `none` is a nil session, which the code reads afterwards.
  unfoldable pub grant : ℕ → Bytes → ℕ → Broker E → Option (Broker E)
  grant i filter qos b = elim (session_of_client i b) [
    | none ↦ none
    | some (p, s) ↦ some (
        add_task (send_retained_to filter i qos) (record b {
          router = Engine.subscribe filter (subscriber_of i (b.conns i).client_id qos) b.router;
        }))
  ]

  abbrev pub add_code : ℕ → Option (Broker E × Bytes) → Option (Broker E × Bytes)
  add_code code none = none
  add_code code (some (b, codes)) = some (b, code ∷ codes)

  -- The loop of `handleSubscribe`, with the codes of the SUBACK.
  unfoldable pub subscribe_each : ℕ → List Subscription → Broker E → Option (Broker E × Bytes)
  unfolding granted_qos subscribe_reason grant
  subscribe_each i [] b = some (b, [])
  subscribe_each i (sub ∷ subs) b =
      let c = b.conns i in
      let qos = granted_qos b.cfg sub.qos in
      let reason = subscribe_reason c.client_id sub.filter qos b in
      let b' = if reason == SubackDeny.granted then grant i sub.filter qos b else some b in
      add_code (suback_reason_byte c.version qos reason)
        (elim b' [ none ↦ none | some d ↦ subscribe_each i subs d ])

  -- The SUBACK.
  unfoldable pub send_suback : ℕ → ℕ → Bytes → Broker E → Option (Broker E)
  send_suback i packet_id codes b =
      if (b.conns i).version == v50
      then enqueue_packet i (encode_suback_v5 packet_id [] codes) b
      else enqueue_packet i (encode_suback packet_id codes) b

  abbrev pub subscribe_all : ℕ → ℕ → List Subscription → Broker E → Option (Broker E)
  subscribe_all i packet_id subs b = elim (subscribe_each i subs b) [
    | none ↦ none
    | some (b', codes) ↦ send_suback i packet_id codes b'
  ]

  unfoldable pub handle_subscribe : ℕ → Bytes → Action E (Unit {0})
  unfolding subscribe_each send_suback
  handle_subscribe i body = do
    version ← gets (λ b. (b.conns i).version)
    (packet_id, subs) ← decode (decode_subscribe version body)
    run (subscribe_all i packet_id subs)

  unfoldable pub unsubscribe_reason : Bytes → Bytes → Broker E → ℕ
  unsubscribe_reason client_id filter b =
      if not (valid_topic_filter filter)
      then unsub_invalid_topic_filter
      else if not (can_subscribe client_id (match_filter filter) b.authn)
      then unsub_not_authorized
      else 0

  -- A filter that passed the checks. `none` is a nil session.
  unfoldable pub withdraw : ℕ → Bytes → Broker E → Option (Broker E)
  withdraw i filter b = elim (session_of_client i b) [
    | none ↦ none
    | some _ ↦ some (record b { router = Engine.unsubscribe filter (b.conns i).client_id b.router })
  ]

  -- The two loops of `handleUnsubscribe`; MQTT 3.1.1 has no use for the codes.
  unfoldable pub unsubscribe_each : ℕ → List Bytes → Broker E → Option (Broker E × Bytes)
  unfolding unsubscribe_reason withdraw
  unsubscribe_each i [] b = some (b, [])
  unsubscribe_each i (filter ∷ filters) b =
      let reason = unsubscribe_reason (b.conns i).client_id filter b in
      let b' = if reason == 0 then withdraw i filter b else some b in
      add_code (unsuback_reason_byte reason)
        (elim b' [ none ↦ none | some d ↦ unsubscribe_each i filters d ])

  -- The UNSUBACK.
  unfoldable pub send_unsuback : ℕ → ℕ → Bytes → Broker E → Option (Broker E)
  send_unsuback i packet_id reasons b =
      if (b.conns i).version == v50
      then enqueue_packet i (encode_unsuback_v5 packet_id [] reasons) b
      else some (enqueue i (encode_unsuback packet_id) b)

  abbrev pub unsubscribe_filters : ℕ → ℕ → List Bytes → Broker E → Option (Broker E)
  unsubscribe_filters i packet_id filters b = elim (unsubscribe_each i filters b) [
    | none ↦ none
    | some (b', reasons) ↦ send_unsuback i packet_id reasons b'
  ]

  unfoldable pub handle_unsubscribe : ℕ → Bytes → Action E (Unit {0})
  unfolding unsubscribe_each send_unsuback
  handle_unsubscribe i body = do
    version ← gets (λ b. (b.conns i).version)
    (packet_id, filters) ← decode (decode_unsubscribe version body)
    run (unsubscribe_filters i packet_id filters)

  -- The loop of `restoreSession` over the rows of the database: a filter and its QoS.
  unfoldable pub restore_subs : ℕ → List (Bytes × ℕ) → Broker E → Broker E
  restore_subs i [] b = b
  restore_subs i ((filter, qos) ∷ rows) b = restore_subs i rows (record b {
    router = Engine.subscribe filter (subscriber_of i (b.conns i).client_id qos) b.router;
  })

  -- A goroutine that waits, run to its end. `rows` is what `GetSubs` returns, `none` for its error.
  unfoldable pub run_task : ℕ → Option (List (Bytes × ℕ)) → Task → Broker E → Option (Broker E)
  unfolding restore_subs drain_offline deliver_each
  run_task now none (restore_session i) b = some b
  run_task now (some rows) (restore_session i) b = some (restore_subs i rows b)
  run_task now rows (drain_offline_queue i) b = drain_offline now i b
  run_task now rows (send_retained_to filter i qos) b =
      deliver_each now (send_retained filter (subscriber_of i (b.conns i).client_id qos) b.router) b
