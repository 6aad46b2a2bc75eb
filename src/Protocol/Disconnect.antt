-- ===== src/Protocol/Disconnect.antt =====
-- DISCONNECT: `DisconnectPacket`, `DecodeDisconnect` and `EncodeDisconnectV5` of
-- internal/protocol/packet.go.
use broker.Prelude.{
  ℕ, ◌+◌, ◌==◌, if◌then◌else◌, Bytes, ◌∷◌, ◌++◌, length, Bool, true, false, not, Option, none, some,
}
use broker.Protocol.Codes.PacketType
use broker.Protocol.Codes.{v50}
use broker.Protocol.Result.{Result, ok, ◌>>=◌, ◌>>◌, fail_if, malformed, protocol_violation}
use broker.Protocol.Reader.{new_slice_reader, read}
use broker.Protocol.VarInt.{buf0, encode_var_int}
use broker.Protocol.Props.{read_props}
use broker.Protocol.Topic.{is_empty}
use broker.Protocol.Connect.{prop_uint32, value_or_zero}
use broker.Protocol.Connack
use broker.Protocol.Connack.{type_byte}

pub record DisconnectPacket : Type 0 where
  pub reason_code : ℕ
  pub session_expiry_interval : ℕ
  pub has_session_expiry_prop : Bool

abbrev pub normal_disconnect : DisconnectPacket
normal_disconnect = record {
  reason_code = 0;
  session_expiry_interval = 0;
  has_session_expiry_prop = false;
}

abbrev is_present : Option ℕ → Bool
is_present none = false
is_present (some v) = true

unfoldable pub decode_disconnect_v5 : Bytes → Result DisconnectPacket
unfolding read read_props prop_uint32
decode_disconnect_v5 body = do
  (rc, r₁) ← read 1 (new_slice_reader body)
  (props, r₂) ← read_props r₁
  fail_if (not (r₂.pos == length r₂.data_bytes)) malformed
  let expiry = prop_uint32 0x11 props
  ok (record {
    reason_code = buf0 rc;
    session_expiry_interval = value_or_zero expiry;
    has_session_expiry_prop = is_present expiry;
  })

unfoldable pub decode_disconnect : ℕ → Bytes → Result DisconnectPacket
unfolding decode_disconnect_v5
decode_disconnect version body =
    if not (version == v50)
    then fail_if (not (is_empty body)) protocol_violation >> ok normal_disconnect
    else if is_empty body
    then ok normal_disconnect
    else decode_disconnect_v5 body

unfoldable pub encode_disconnect_v5 : ℕ → Bytes → Option Bytes
encode_disconnect_v5 reason_code props =
    Connack.◌>>=◌ (encode_var_int (length props)) λ prop_len_enc.
      Connack.◌>>=◌ (encode_var_int (1 + length prop_len_enc + length props)) λ rem_enc.
        some
          (type_byte PacketType.disconnect ∷ (rem_enc ++ (reason_code ∷ (prop_len_enc ++ props))))
