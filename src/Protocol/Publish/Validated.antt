-- ===== src/Protocol/Publish/Validated.antt =====
-- What holds of the packets of `DecodePublish`, internal/protocol/packet.go.
use broker.Prelude.{
  ℕ, ◌/◌, ◌<◌, ◌≤◌, ◌==◌, ltb, ◌≡◌, ◌≢◌, ◌⊎◌, arith, Bytes, codes, [], bit_and, Bool, true, false,
  not, inl, inr, ◌||◌, ◌&&◌, ◌∷◌,
}
use broker.Protocol.Result.{
  Returns, Returns-bind, Returns-guard, Returns-with_context, with_context, invalid_qos,
  protocol_violation, invalid_topic,
}
use broker.Protocol.Reader.{Reader, new_slice_reader, read_string}
use broker.Protocol.Reader.Moves.{MovesBy, read_string-Moves, read_uint16-Moves}
use broker.Protocol.VarInt.{FixedHeader}
use broker.Protocol.Props.Moves.{read_props-Returns}
use broker.Protocol.Topic.{is_empty, valid_topic_name}
use broker.Protocol.Codes.{v50}
use broker.Protocol.Publish.{
  PublishPacket, read_packet_id, read_publish_props, read_payload, decode_publish,
}

-- What the broker relies on: a QoS level, an identifier where there is one to acknowledge, no
-- duplicate flag at QoS 0, and a topic, or an alias for it.
pub record IsAcceptable (version : ℕ) (p : PublishPacket) : Type 0 where
  pub qos_level : p.qos ≤ 2
  pub identified : 0 < p.qos → p.packet_id ≢ 0
  pub fresh_at_qos0 : p.qos ≡ 0 → p.dup ≡ false
  pub named :
      (valid_topic_name p.topic ≡ true) ⊎ ((version ≡ v50) × (p.topic ≡ []) × (p.topic_alias ≢ 0))

read_packet_id-Returns :
    (qos : ℕ) (r : Reader) → Returns (λ (p : ℕ × Reader). 0 < qos → p.0 ≢ 0) (read_packet_id qos r)
unfolding read_packet_id
read_packet_id-Returns qos r = ground (arith, read_uint16-Moves r)

read_publish_props-Returns :
    (version : ℕ) (topic : Bytes) (r : Reader)
    → Returns
        (λ (p : (ℕ × ℕ) × Reader). version ≡ v50 → topic ≡ [] → p.0.1 ≢ 0)
        (read_publish_props version topic r)
unfolding read_publish_props
read_publish_props-Returns version topic r = ground (arith, read_props-Returns r)

read_payload-Returns : (r : Reader) → Returns (λ (p : Bytes × Reader). Unit {0}) (read_payload r)
unfolding read_payload
read_payload-Returns r = ground arith

-- The topic test of `DecodePublish`.
topic_checked :
    (version : ℕ) (topic : Bytes)
    → (not (version == v50) || not (is_empty topic)) && not (valid_topic_name topic) ≡ false
    → (valid_topic_name topic ≡ true) ⊎ ((version ≡ v50) × (topic ≡ []))
topic_checked version [] h = ground arith
topic_checked version (c ∷ t) h = ground arith

-- For every version, header and body, `DecodePublish` returns, an error or a packet, without a
-- panic; and a packet has a QoS of at most 2, a nonzero identifier if its QoS is above 0, no
-- duplicate flag at QoS 0, and a topic that `ValidTopicName` accepts or, in MQTT 5 only, an empty
-- topic and a nonzero topic alias.
pub decode_publish-IsAcceptable :
    (now version : ℕ) (fh : FixedHeader) (body : Bytes)
    → Returns (IsAcceptable version) (decode_publish now version fh body)
unfolding decode_publish
decode_publish-IsAcceptable now version fh body =
    Returns-guard Q (ltb 2 qos) invalid_qos _ λ qos_ok.
      Returns-guard Q ((qos == 0) && dup) protocol_violation _ λ dup_ok.
        Returns-bind (MovesBy 2 start) Q (with_context (codes "topic") (read_string start)) _
          (Returns-with_context (MovesBy 2 start) (codes "topic") _ (read_string-Moves start))
          λ (topic, r₁) _.
            Returns-guard Q
              ((not (version == v50) || not (is_empty topic)) && not (valid_topic_name topic))
              invalid_topic _
              λ topic_ok.
                Returns-bind (λ (p : ℕ × Reader). 0 < qos → p.0 ≢ 0) Q (read_packet_id qos r₁) _
                  (read_packet_id-Returns qos r₁)
                  λ (id, r₂) id_ok.
                    Returns-bind (λ (p : (ℕ × ℕ) × Reader). version ≡ v50 → topic ≡ [] → p.0.1 ≢ 0)
                      Q (read_publish_props version topic r₂) _
                      (read_publish_props-Returns version topic r₂)
                      λ (found, r₃) found_ok.
                        Returns-bind (λ (p : Bytes × Reader). Unit {0}) Q (read_payload r₃) _
                          (read_payload-Returns r₃)
                          λ (payload, r₄) _. record {
                            qos_level = ground arith;
                            identified = id_ok;
                            fresh_at_qos0 = ground arith;
                            named = elim (topic_checked version topic topic_ok) [
                              | inl valid ↦ inl valid
                              | inr (v, e) ↦ inr (v, e, found_ok v e)
                            ];
                          }
  where
    Q : PublishPacket → Type 0
    Q = IsAcceptable version

    start : Reader
    start = new_slice_reader body

    qos : ℕ
    qos = bit_and (fh.flags / 2) 0x03

    dup : Bool
    dup = not (bit_and fh.flags 0x08 == 0)
