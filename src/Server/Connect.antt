-- ===== src/Server/Connect.antt =====
-- The parts of `handleConnect` of internal/broker/client.go that decide nothing: reason codes,
-- options, limits, and what a CONNECT writes to its session.
use broker.Prelude.{
  ℕ, zero, suc, ◌+◌, ◌/◌, ◌%◌, ◌^◌, ◌==◌, ltb, if◌then◌else◌, Bytes, codes, [], ◌∷◌, ◌++◌, Bool,
  true, false, not, ◌&&◌, ◌||◌, Option, none, some,
}
use broker.Protocol.Codes.{v50}
use broker.Protocol.Connack.{ConnackOptions, encode_connack, encode_connack_v5}
use broker.Protocol.Connect.{ConnectPacket, peek_connect_protocol_level}
use broker.Protocol.Topic.{is_empty}
use broker.Session.{
  Session, clear_disconnect_expiry, set_protocol_and_expiry, set_keep_alive, set_connected,
}
use broker.Server.{Broker, BrokerConfig, Client}
use broker.Server.Actions.{enqueue, enqueue_packet}

abbrev pub refused_protocol : ℕ
refused_protocol = 1

abbrev pub refused_id_rejected : ℕ
refused_id_rejected = 2

abbrev pub refused_bad_credentials : ℕ
refused_bad_credentials = 4

abbrev pub refused_not_authorized : ℕ
refused_not_authorized = 5

-- The options of a refusal, `ConnackMQTT5Options{}`.
abbrev pub no_options : ConnackOptions
no_options = record {
  topic_alias_max = 0;
  receive_maximum = 0;
  maximum_qos = 0;
  max_packet_size = 0;
  retain_available = false;
  wildcard_subscription_available = false;
  subscription_id_available = false;
  shared_subscription_available = false;
}

-- `connackV5FromConfig`
unfoldable pub connack_v5_from_config : BrokerConfig → ℕ → ConnackOptions
connack_v5_from_config bc topic_alias_max = record {
  topic_alias_max = topic_alias_max;
  receive_maximum = bc.server_receive_maximum % 2 ^ 16;
  maximum_qos = let qos = bc.server_maximum_qos % 2 ^ 8 in if ltb 2 qos then 2 else qos;
  max_packet_size = bc.max_packet_size % 2 ^ 32;
  retain_available = bc.retain_available;
  wildcard_subscription_available = bc.wildcard_subscription_available;
  subscription_id_available = bc.subscription_identifier_available;
  shared_subscription_available = bc.shared_subscription_available;
}

-- Whether the peer speaks MQTT 5, by what is known or by the body of a CONNECT.
unfoldable pub uses_v5 : ℕ → Bytes → Bool
uses_v5 version peek_body =
    (version == v50)
    || (not (is_empty peek_body)
        && elim (peek_connect_protocol_level peek_body) [ none ↦ false | some v ↦ v == v50 ])

-- `%d` of a number of at most 20 digits.
abbrev pub digits : ℕ → ℕ → Bytes → Bytes
digits zero n out = out
digits (suc room) n out =
    let out' = (48 + n % 10) ∷ out in
    let longer = digits room (n / 10) out' in if n / 10 == 0 then out' else longer

-- The name of a client that gives none: `now` is `UnixNano`, at most 19 digits.
unfoldable pub auto_id : Bytes → ℕ → Bytes
auto_id remote_addr now = codes "auto-" ++ (remote_addr ++ (codes "-" ++ digits 20 now []))

-- The limits that a CONNECT sets on the connection.
unfoldable pub negotiated : BrokerConfig → ConnectPacket → Client → Client
negotiated bc pkt c =
    let ta = bc.topic_alias_max % 2 ^ 16 in
    let asked = pkt.conn_props.topic_alias_maximum in
    if pkt.version == v50
    then record c {
      peer_recv_max = pkt.conn_props.receive_maximum;
      peer_max_packet_size = pkt.conn_props.maximum_packet_size;
      negotiated_topic_alias_max = if ltb 0 asked && ((ta == 0) || ltb asked ta) then asked else ta;
    }
    else record c { peer_recv_max = 0; peer_max_packet_size = 0; negotiated_topic_alias_max = ta }

-- What a CONNECT writes to its session, up to `SetConnected(true)`.
unfoldable pub prepared : ℕ → ConnectPacket → Session → Session
prepared now pkt s =
    let expiry = if pkt.version == v50 then pkt.conn_props.session_expiry_interval else 0 in
    let s₁ =
      set_protocol_and_expiry pkt.version pkt.conn_flags.clean_session expiry
        (clear_disconnect_expiry s) in
    let s₂ : Session =
      if pkt.conn_flags.will_flag
      then record s₁ {
        will_topic = pkt.will_topic;
        will_payload = pkt.will_payload;
        will_qos = pkt.conn_flags.will_qos;
        will_retain = pkt.conn_flags.will_retain;
        will_set = true;
      }
      else s₁ in
    let s₃ = if ltb 0 pkt.keep_alive then set_keep_alive pkt.keep_alive s₂ else s₂ in
    set_connected now true s₃

module _ {E : Type 0} where
  -- `sendConnackFailure`
  unfoldable pub send_connack_failure : ℕ → ℕ → ℕ → Bytes → Broker E → Option (Broker E)
  unfolding uses_v5
  send_connack_failure i reason_v311 reason_v5 peek_body b =
      if uses_v5 (b.conns i).version peek_body
      then enqueue_packet i (encode_connack_v5 false reason_v5 no_options) b
      else some (enqueue i (encode_connack false reason_v311) b)
