-- ===== src/Protocol/Ack.antt =====
-- The packets with a packet identifier alone, and the other short ones: `EncodeAck`, `EncodeAckV5`,
-- `DecodePacketID`, `EncodeUnsuback`, `Pingresp` and `EncodeDisconnectV311` of
-- internal/protocol/packet.go.
use broker.Prelude.{
  ℕ, ◌+◌, ◌==◌, ltb, if◌then◌else◌, bit_or, Bytes, [], ◌∷◌, ◌++◌, length, take, Option, some,
}
use broker.Protocol.Codes.PacketType
use broker.Protocol.Result.{Result, ok, err, malformed}
use broker.Protocol.Reader.{uint16_bytes, append_uint16, be16}
use broker.Protocol.VarInt.{encode_var_int}
use broker.Protocol.Connack.{type_byte, ◌>>=◌}

abbrev pub ack_flags : ℕ → ℕ
ack_flags t = if t == PacketType.pubrel then 0x02 else 0

unfoldable pub encode_ack : ℕ → ℕ → Bytes
encode_ack t packet_id = bit_or (type_byte t) (ack_flags t) ∷ 2 ∷ uint16_bytes packet_id

unfoldable pub encode_ack_v5 : ℕ → ℕ → ℕ → Bytes → Option Bytes
unfolding append_uint16
encode_ack_v5 t packet_id reason_code props = do
  prop_len_enc ← encode_var_int (length props)
  rem_enc ← encode_var_int (2 + 1 + length prop_len_enc + length props)
  some (
      append_uint16 (bit_or (type_byte t) (ack_flags t) ∷ rem_enc) packet_id
      ++ (reason_code ∷ (prop_len_enc ++ props)))

unfoldable pub decode_packet_id : Bytes → Result ℕ
decode_packet_id body = if ltb (length body) 2 then err malformed else ok (be16 (take 2 body))

unfoldable pub encode_unsuback : ℕ → Bytes
encode_unsuback packet_id = type_byte PacketType.unsuback ∷ 2 ∷ uint16_bytes packet_id

abbrev pub pingresp : Bytes
pingresp = type_byte PacketType.pingresp ∷ 0 ∷ []

unfoldable pub encode_disconnect_v311 : Bytes
encode_disconnect_v311 = type_byte PacketType.disconnect ∷ 0 ∷ []
