-- ===== src/Protocol/Publish.antt =====
-- PUBLISH: `PublishPacket`, `DecodePublish`, `EncodePublish`, `EncodePublishV5` and
-- `ApproxClientOutboundPublishBytes` of internal/protocol/packet.go. The time of reception is an
-- argument; `none` of an encoder is a panic of `encodeVarInt`.
pub mod RoundTrip
pub mod Validated
use broker.Prelude.{
  ℕ, ◌+◌, ◌-◌, ◌*◌, ◌/◌, ◌==◌, ltb, if◌then◌else◌, bit_and, bit_or, Bytes, codes, [], ◌∷◌, ◌++◌,
  length, Bool, not, ◌&&◌, ◌||◌, Option, some,
}
use broker.Protocol.Codes.PacketType
use broker.Protocol.Codes.{v50}
use broker.Protocol.Result
use broker.Protocol.Result.{
  Result, ok, ◌>>=◌, ◌>>◌, fail_if, with_context, invalid_qos, protocol_violation, invalid_topic,
  zero_packet_id,
}
use broker.Protocol.Reader.{
  Reader, new_slice_reader, read_string, read_uint16, read_full, append_string, append_uint16,
}
use broker.Protocol.VarInt.{FixedHeader, encode_var_int}
use broker.Protocol.Props.{read_props}
use broker.Protocol.Topic.{is_empty, valid_topic_name}
use broker.Protocol.Connect.{prop_uint16, prop_uint32, value_or_zero}
use broker.Protocol.Connack
use broker.Protocol.Connack.{type_byte}

pub record PublishPacket : Type 0 where
  pub dup : Bool
  pub qos : ℕ
  pub retain : Bool
  pub topic : Bytes
  pub packet_id : ℕ
  pub payload : Bytes
  pub message_expiry_interval : ℕ
  pub topic_alias : ℕ
  pub received_at : ℕ

-- The identifier, for QoS above 0.
unfoldable pub read_packet_id : ℕ → Reader → Result (ℕ × Reader)
read_packet_id qos r =
    if ltb 0 qos
    then (do (id, r') ← read_uint16 r; fail_if (id == 0) zero_packet_id; ok (id, r'))
    else ok (0, r)

-- The property section of MQTT v5: the expiry interval and the topic alias.
unfoldable pub read_publish_props : ℕ → Bytes → Reader → Result ((ℕ × ℕ) × Reader)
read_publish_props version topic r =
    if version == v50
    then (do
      (props, r') ← read_props r
      let expiry = value_or_zero (prop_uint32 0x02 props)
      let alias = value_or_zero (prop_uint16 0x23 props)
      fail_if (is_empty topic && (alias == 0)) protocol_violation
      ok ((expiry, alias), r'))
    else ok ((0, 0), r)

-- `if n := r.Remaining(); n > 0`
unfoldable pub read_payload : Reader → Result (Bytes × Reader)
unfolding read_full
read_payload r =
    if ltb r.pos (length r.data_bytes)
    then read_full (length r.data_bytes - r.pos) r
    else ok ([], r)

unfoldable pub decode_publish : ℕ → ℕ → FixedHeader → Bytes → Result PublishPacket
decode_publish now version fh body = do
  let dup = not (bit_and fh.flags 0x08 == 0)
  let qos = bit_and (fh.flags / 2) 0x03
  fail_if (ltb 2 qos) invalid_qos
  fail_if ((qos == 0) && dup) protocol_violation
  (topic, r₁) ← with_context (codes "topic") (read_string (new_slice_reader body))
  fail_if ((not (version == v50) || not (is_empty topic)) && not (valid_topic_name topic))
      invalid_topic
  (packet_id, r₂) ← read_packet_id qos r₁
  (found, r₃) ← read_publish_props version topic r₂
  (payload, r₄) ← read_payload r₃
  ok (record {
    dup = dup;
    qos = qos;
    retain = not (bit_and fh.flags 0x01 == 0);
    topic = topic;
    packet_id = packet_id;
    payload = payload;
    message_expiry_interval = found.0;
    topic_alias = found.1;
    received_at = now;
  })

-- The first byte of a PUBLISH.
unfoldable pub publish_flags : Bool → ℕ → Bool → ℕ
publish_flags dup qos retain =
    let base = type_byte PacketType.publish in
    let with_dup = if dup then bit_or base 0x08 else base in
    let with_qos = bit_or with_dup (bit_and qos 0x03 * 2) in
    if retain then bit_or with_qos 0x01 else with_qos

-- `appendUint16` of the identifier, for QoS above 0.
unfoldable pub append_packet_id : Bytes → ℕ → ℕ → Bytes
unfolding append_uint16
append_packet_id out qos packet_id = if ltb 0 qos then append_uint16 out packet_id else out

unfoldable pub encode_publish : Bytes → Bytes → ℕ → Bool → ℕ → Bool → Option Bytes
encode_publish topic payload qos retain packet_id dup =
    let pid_len = if ltb 0 qos then 2 else 0 in
    let remaining = 2 + length topic + pid_len + length payload in
    Connack.◌>>=◌ (encode_var_int remaining) λ var_buf.
      let out = publish_flags dup qos retain ∷ var_buf in
      some (append_packet_id (append_string out topic) qos packet_id ++ payload)

unfoldable pub encode_publish_v5 : Bytes → Bytes → ℕ → Bool → ℕ → Bool → Bytes → Option Bytes
encode_publish_v5 topic payload qos retain packet_id dup props =
    let pid_len = if ltb 0 qos then 2 else 0 in
    Connack.◌>>=◌ (encode_var_int (length props)) λ prop_len_enc.
      let prop_section = length prop_len_enc + length props in
      let remaining = 2 + length topic + pid_len + prop_section + length payload in
      Connack.◌>>=◌ (encode_var_int remaining) λ var_buf.
        let out = publish_flags dup qos retain ∷ var_buf in
        some (
          append_packet_id (append_string out topic) qos packet_id
          ++ (prop_len_enc ++ (props ++ payload)))

unfoldable pub approx_client_outbound_publish_bytes : ℕ → Bytes → ℕ → ℕ → ℕ
approx_client_outbound_publish_bytes version topic payload_len qos =
    let topic_len = 2 + length topic in
    let pid_len = if ltb 0 qos then 2 else 0 in
    let prop_section = if version == v50 then 1 else 0 in
    1 + 4 + (topic_len + pid_len + prop_section + payload_len)
