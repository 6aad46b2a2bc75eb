-- ===== src/Protocol/Codes.antt =====
-- Packet types, QoS levels, protocol levels and reason codes of internal/protocol/packet.go, and the
-- functions that choose a reason code.
pub mod PacketType
pub mod SubackDeny
use broker.Prelude.{ℕ, ◌==◌, bit_and, Bool, not, if◌then◌else◌}
use broker.Protocol.Result.{Error, is_unsupported_version, is_protocol_violation}

abbrev pub v311 : ℕ
v311 = 4

abbrev pub v50 : ℕ
v50 = 5

unfoldable pub suback_reason_byte : ℕ → ℕ → ℕ → ℕ
suback_reason_byte version granted_qos deny =
    if not (deny == SubackDeny.granted)
    then if not (version == v50)
      then 0x80
      else if deny == SubackDeny.invalid_topic_filter
      then 0x8f
      else if deny == SubackDeny.not_authorized
      then 0x87
      else if deny == SubackDeny.plugin
      then 0x83
      else 0x80
    else if bit_and granted_qos 0x03 == 0
    then 0x00
    else if bit_and granted_qos 0x03 == 1
    then 0x01
    else 0x02

-- `UnsubackDenyReason`: 0 `UnsubOK`, 1 invalid filter, 2 not authorized.
unfoldable pub unsuback_reason_byte : ℕ → ℕ
unsuback_reason_byte deny = if deny == 1 then 0x8f else if deny == 2 then 0x87 else 0x00

unfoldable pub connack_reason_v5_from_v311 : ℕ → ℕ
connack_reason_v5_from_v311 code =
    if code == 0x00
    then 0x00
    else if code == 0x01
    then 0x84
    else if code == 0x02
    then 0x85
    else if code == 0x03
    then 0x88
    else if code == 0x04
    then 0x86
    else if code == 0x05
    then 0x87
    else 0x82

unfoldable pub connack_reason_v5_for_decode_error : Error → ℕ
unfolding is_unsupported_version is_protocol_violation
connack_reason_v5_for_decode_error e =
    if is_unsupported_version e then 0x84 else if is_protocol_violation e then 0x82 else 0x81
