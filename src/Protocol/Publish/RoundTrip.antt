-- ===== src/Protocol/Publish/RoundTrip.antt =====
-- `EncodePublish` followed by `ReadFixed` and `DecodePublish`, internal/protocol/packet.go.
use broker.Prelude.{
  ℕ, zero, suc, ◌+◌, ◌-◌, ◌/◌, ◌<◌, ◌≤◌, ◌==◌, ltb, ◌≡◌, refl, sym, lt→ltb, ap, ◌∙◌, arith, Bytes,
  [], ◌∷◌, ◌++◌, length, drop, length-drop, bit_and, Bool, true, false, not, some, if◌then◌else◌,
  length-append, append_assoc, append-nil, le→ltb, Option-cases, Bool-cases, inl, inr,
}
use broker.Protocol.Result.{ok}
use broker.Protocol.Reader.Drops.{read_full-drop, read_uint16-drop, read_string-drop}
use broker.Protocol.VarInt.RoundTrip.{at, read_fixed-frame}
use broker.Protocol.Topic.{valid_topic_name}
use broker.Protocol.Codes.{v311}
use broker.Protocol.Reader.{Reader, uint16_bytes, append_uint16, append_string}
use broker.Protocol.VarInt.{FixedHeader, read_fixed, encode_var_int}
use broker.Protocol.Codes.PacketType
use broker.Protocol.Publish.{
  PublishPacket, publish_flags, encode_publish, decode_publish, append_packet_id, read_packet_id,
  read_payload, read_publish_props,
}

-- What `ReadFixed` and `DecodePublish` take from the first byte of a PUBLISH.
record FlagsOf (dup : Bool) (qos : ℕ) (retain : Bool) (b : ℕ) : Type 0 where
  type_of : b / 16 ≡ 3
  dup_of : not (bit_and (bit_and b 0x0f) 0x08 == 0) ≡ dup
  qos_of : bit_and (bit_and b 0x0f / 2) 0x03 ≡ qos
  retain_of : not (bit_and (bit_and b 0x0f) 0x01 == 0) ≡ retain

publish_flags-FlagsOf :
    (qos : ℕ) (dup retain : Bool) → qos ≤ 2 → FlagsOf dup qos retain (publish_flags dup qos retain)
unfolding publish_flags
publish_flags-FlagsOf zero dup retain h = ground arith
publish_flags-FlagsOf (suc zero) dup retain h = ground arith
publish_flags-FlagsOf (suc (suc zero)) dup retain h = ground arith
publish_flags-FlagsOf (suc (suc (suc qos))) dup retain h = absurd (omega arith)

-- The identifier on the wire.
abbrev id_bytes : ℕ → ℕ → Bytes
id_bytes qos packet_id = if ltb 0 qos then uint16_bytes packet_id else []

-- The variable header and the payload as MQTT lays them out, with a property section `props`.
abbrev pub publish_body : Bytes → Bytes → ℕ → ℕ → Bytes → Bytes
publish_body topic payload qos packet_id props =
    uint16_bytes (length topic) ++ (topic ++ (id_bytes qos packet_id ++ (props ++ payload)))

length-publish_body :
    (topic payload props : Bytes) (qos packet_id : ℕ)
    → length (publish_body topic payload qos packet_id props)
      ≡ 2 + length topic + (if ltb 0 qos then 2 else 0) + length props + length payload
length-publish_body topic payload props qos packet_id = ground (
  arith,
  length-append topic (id_bytes qos packet_id ++ (props ++ payload)),
  length-append (id_bytes qos packet_id) (props ++ payload),
  length-append props payload,
)

append_string-small :
    (head topic : Bytes)
    → length topic < 65536
    → append_string head topic ≡ (head ++ uint16_bytes (length topic)) ++ topic
unfolding append_string
append_string-small head topic small = rw (le→ltb 65535 (length topic) (omega arith))

append_packet_id-id_bytes :
    (out : Bytes) (qos packet_id : ℕ)
    → append_packet_id out qos packet_id ≡ out ++ id_bytes qos packet_id
unfolding append_packet_id append_uint16
append_packet_id-id_bytes out qos packet_id = elim (Bool-cases (ltb 0 qos)) [
  | inl above ↦ rw above
  | inr level0 ↦ rw (level0, append-nil)
]

-- The appends of both encoders, put together.
layout :
    (head topic tail : Bytes) (qos packet_id : ℕ)
    → length topic < 65536
    → append_packet_id (append_string head topic) qos packet_id ++ tail
      ≡ head ++ (uint16_bytes (length topic) ++ (topic ++ (id_bytes qos packet_id ++ tail)))
layout head topic tail qos packet_id small =
    rw (append_packet_id-id_bytes, append_string-small head topic small)
      (append_assoc _ (id_bytes qos packet_id) tail
        ∙ append_assoc _ topic (id_bytes qos packet_id ++ tail)
        ∙ append_assoc head (uint16_bytes (length topic))
            (topic ++ (id_bytes qos packet_id ++ tail)))

-- `EncodePublish` writes the flags, the length of the body, and the body.
encode_publish-shape :
    (topic payload : Bytes) (qos : ℕ) (retain : Bool) (packet_id : ℕ) (dup : Bool) (out : Bytes)
    → length topic < 65536
    → encode_publish topic payload qos retain packet_id dup ≡ some out
    → (var : Bytes) × (encode_var_int (length (publish_body topic payload qos packet_id []))
        ≡ some var)
      × (out ≡ publish_flags dup qos retain ∷ (var ++ publish_body topic payload qos packet_id []))
unfolding encode_publish append_string append_packet_id append_uint16
encode_publish-shape topic payload qos retain packet_id dup out small e =
    elim (Option-cases (encode_var_int (2 + length topic + pid_len + length payload))) [
      | inl over ↦ ground (arith, over)
      | inr (var, fits) ↦ (var, rw size fits, written var fits)
    ]
  where
    pid_len : ℕ
    pid_len = if ltb 0 qos then 2 else 0

    size :
        length (publish_body topic payload qos packet_id [])
        ≡ 2 + length topic + pid_len + length payload
    size = omega (arith, length-publish_body topic payload [] qos packet_id)

    written :
        (var : Bytes)
        → encode_var_int (2 + length topic + pid_len + length payload) ≡ some var
        → out ≡ publish_flags dup qos retain ∷ (var ++ publish_body topic payload qos packet_id [])
    written var fits =
        let head : Bytes = publish_flags dup qos retain ∷ var in
        cc (fits, e, layout head topic payload qos packet_id small)

-- The packet that a decoder should find.
abbrev pub sent : Bytes → Bytes → ℕ → Bool → ℕ → Bool → ℕ → PublishPacket
sent topic payload qos retain packet_id dup now = record {
  dup = dup;
  qos = qos;
  retain = retain;
  topic = topic;
  packet_id = if ltb 0 qos then packet_id else 0;
  payload = payload;
  message_expiry_interval = 0;
  topic_alias = 0;
  received_at = now;
}

-- What the encoder asks of its arguments: as `DecodePublish` accepts them.
pub record IsSendable (topic : Bytes) (qos packet_id : ℕ) (dup : Bool) : Type 0 where
  pub level : qos ≤ 2
  pub named : valid_topic_name topic ≡ true
  pub short : length topic < 65536
  pub fresh : qos ≡ 0 → dup ≡ false
  pub id_range : packet_id < 65536
  pub identified : 0 < qos → 0 < packet_id

read_packet_id-drop :
    (qos packet_id p : ℕ) (ys d : Bytes)
    → packet_id < 65536
    → (0 < qos → 0 < packet_id)
    → drop p d ≡ id_bytes qos packet_id ++ ys
    → (p' : ℕ) × (read_packet_id qos (at d p) ≡ ok ((if ltb 0 qos then packet_id else 0), at d p'))
      × (drop p' d ≡ ys)
unfolding read_packet_id
read_packet_id-drop qos packet_id p ys d range nonzero h = elim (Bool-cases (ltb 0 qos)) [
  | inr level0 ↦ (p, rw level0, rw level0 at h)
  | inl above ↦
      let (read, behind) = read_uint16-drop packet_id p ys d range (rw above at h) in
      (p + 2, ground (arith, read), behind)
]

read_payload-drop :
    (p : ℕ) (payload d : Bytes)
    → drop p d ≡ payload
    → (r : Reader) × (read_payload (at d p) ≡ ok (payload, r))
unfolding read_payload
read_payload-drop p [] d h = (at d p, ground (arith, ap length h, length-drop p d))
read_payload-drop p (x ∷ payload) d h =
    let size : length d - p ≡ length (x ∷ payload) = sym (length-drop p d) ∙ ap length h in
    let inside : p < length d = omega (arith, size) in
    (
      at d (p + length (x ∷ payload)),
      rw (lt→ltb p (length d) inside, size) (read_full-drop p (x ∷ payload) d h (omega arith)),
    )

read_v311 : (topic : Bytes) (r : Reader) → read_publish_props v311 topic r ≡ ok ((0, 0), r)
unfolding read_publish_props
read_v311 topic r = refl

module _ (now : ℕ) (topic payload : Bytes) (qos packet_id : ℕ) (dup retain : Bool)
    (ready : IsSendable topic qos packet_id dup) where
  -- The body alone, under the flags of `EncodePublish`.
  decode_publish_body :
      (remaining : ℕ)
      → decode_publish now v311
          (record {
            packet_type = 3;
            flags = bit_and (publish_flags dup qos retain) 0x0f;
            remaining_length = remaining;
          })
          (publish_body topic payload qos packet_id [])
        ≡ ok (sent topic payload qos retain packet_id dup now)
  unfolding decode_publish
  decode_publish_body remaining =
      let d = publish_body topic payload qos packet_id [] in
      let (read₁, behind₁) =
        read_string-drop topic 0 (id_bytes qos packet_id ++ payload) d ready.short refl in
      let (p', read₂, behind₂) =
        read_packet_id-drop qos packet_id (0 + 2 + length topic) payload d ready.id_range
          ready.identified behind₁ in
      let (r, read₃) = read_payload-drop p' payload d behind₂ in
      let f = publish_flags-FlagsOf qos dup retain ready.level in
      ground (
        arith,
        read₁,
        read₂,
        read_v311 topic (at d p'),
        read₃,
        f.dup_of,
        f.qos_of,
        f.retain_of,
        ready.level,
        ready.named,
        ready.fresh,
      )

  -- A PUBLISH of MQTT 3.1.1 with a QoS of at most 2, a valid topic below 65536 bytes, a nonzero
  -- 16-bit identifier where the QoS is above 0 and no duplicate flag at QoS 0, which
  -- `EncodePublish` writes without a panic: `ReadFixed` on any stream that starts with it gives
  -- the type PUBLISH and the length of the body and leaves the body and the rest of the stream,
  -- and `DecodePublish` on that body gives the packet that was sent.
  pub decode_publish-encode_publish :
      (out rest : Bytes)
      → encode_publish topic payload qos retain packet_id dup ≡ some out
      → (fh : FixedHeader) × ((body : Bytes) × (read_fixed (out ++ rest) ≡ ok (fh, body ++ rest))
          × (fh.packet_type ≡ PacketType.publish)
          × (fh.remaining_length ≡ length body)
          × (decode_publish now v311 fh body
              ≡ ok (sent topic payload qos retain packet_id dup now)))
  decode_publish-encode_publish out rest e =
      let body = publish_body topic payload qos packet_id [] in
      let (var, fits, shape) =
        encode_publish-shape topic payload qos retain packet_id dup out ready.short e in
      let f = publish_flags-FlagsOf qos dup retain ready.level in
      (
        record {
          packet_type = PacketType.publish;
          flags = bit_and (publish_flags dup qos retain) 0x0f;
          remaining_length = length body;
        },
        (
          body,
          rw shape (
              read_fixed-frame (publish_flags dup qos retain) var body rest fits
              ∙ ap
                  (λ (t : ℕ). ok (
                    record {
                      packet_type = t;
                      flags = bit_and (publish_flags dup qos retain) 0x0f;
                      remaining_length = length body;
                    },
                    body ++ rest,
                  ))
                  f.type_of),
          refl,
          refl,
          decode_publish_body (length body),
        ),
      )
