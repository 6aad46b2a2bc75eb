-- ===== src/Server/Denial.antt =====
-- PUBLISH packets that the access rules refuse, in `handlePublish` of internal/broker/client.go.
use broker.Prelude.{ℕ, ◌==◌, Bytes, [], false, some, ◌≡◌, refl, Bool-cases, inl, inr}
use broker.Protocol.Codes.PacketType
use broker.Protocol.Codes.{v50}
use broker.Protocol.VarInt.{encode_var_int}
use broker.Protocol.Ack.{encode_ack, encode_ack_v5}
use broker.Protocol.Publish.{PublishPacket}
use broker.Auth.{can_publish}
use broker.Server.{Broker}
use broker.Server.Actions.{done, enqueue, run}
use broker.Server.Inbound.{enqueue_pub_ack, deny_publish, check_publish}
use broker.Server.Refusal.{Untouched, Untouched-refl, Untouched-Stable}

-- The acknowledgement of MQTT 5 without properties can always be encoded.
encode_ack_v5-returns : (t id : ℕ) → (packet : Bytes) × (encode_ack_v5 t id 0 [] ≡ some packet)
unfolding encode_ack_v5 encode_var_int
encode_ack_v5-returns t id = (_, refl)

module _ {E : Type 0} where
  pub enqueue_pub_ack-Untouched :
      (i t id : ℕ) (b : Broker E)
      → (b' : Broker E) × (enqueue_pub_ack i t id b ≡ some b') × Untouched b b'
  unfolding enqueue_pub_ack
  enqueue_pub_ack-Untouched i t id b = elim (Bool-cases ((b.conns i).version == v50)) [
    | inl five ↦
        let (packet, encoded) = encode_ack_v5-returns t id in
        (
          enqueue i packet b,
          rw five (rw encoded refl),
          (Untouched-Stable i b).enqueue i packet b (Untouched-refl b),
        )
    | inr four ↦ (
      enqueue i (encode_ack t id) b,
      rw four refl,
      (Untouched-Stable i b).enqueue i (encode_ack t id) b (Untouched-refl b),
    )
  ]

  -- A PUBLISH that `CanPublish` denies ends without an error and without a panic, and leaves the
  -- router, the sessions, the registry of the clients and the goroutines that wait as they were.
  pub check_publish-Untouched :
      (now i : ℕ) (topic : Bytes) (pkt : PublishPacket) (b : Broker E)
      → can_publish (b.conns i).client_id topic b.authn ≡ false
      → (b' : Broker E) × (check_publish now i topic pkt b ≡ some (b', done tt)) × Untouched b b'
  unfolding check_publish deny_publish
  check_publish-Untouched now i topic pkt b denied = elim (Bool-cases (pkt.qos == 1)) [
    | inl acknowledged ↦
        let (b', sent, same) = enqueue_pub_ack-Untouched i PacketType.puback pkt.packet_id b in
        (b', rw denied (rw acknowledged (rw (sent, run) refl)), same)
    | inr silent ↦ (b, rw denied (rw silent refl), Untouched-refl b)
  ]
