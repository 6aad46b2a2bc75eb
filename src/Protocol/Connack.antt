-- ===== src/Protocol/Connack.antt =====
-- CONNACK: `EncodeConnack`, `ConnackMQTT5Options` and `EncodeConnackV5` of
-- internal/protocol/packet.go. `none` is a panic of `encodeVarInt`.
use broker.Prelude.{
  ℕ, ◌+◌, ◌*◌, ◌/◌, ◌%◌, ◌==◌, ltb, if◌then◌else◌, bit_and, Bytes, [], ◌∷◌, ◌++◌, length, Bool,
  ◌&&◌, Option, none, some,
}
use broker.Protocol.Codes.PacketType
use broker.Protocol.Reader.{uint16_bytes}
use broker.Protocol.VarInt.{encode_var_int}

-- `byte(t) << 4`
abbrev pub type_byte : ℕ → ℕ
type_byte t = t * 16 % 256

infixl 5 ◌>>=◌
abbrev pub ◌>>=◌ {ℓ κ} : {A : Type ℓ} {B : Type κ} → Option A → (A → Option B) → Option B
none >>= f = none
some a >>= f = f a

unfoldable pub encode_connack : Bool → ℕ → Bytes
encode_connack session_present code =
    type_byte PacketType.connack ∷ 2 ∷ (if session_present then 1 else 0) ∷ code ∷ []

pub record ConnackOptions : Type 0 where
  pub topic_alias_max : ℕ
  pub receive_maximum : ℕ
  pub maximum_qos : ℕ
  pub max_packet_size : ℕ
  pub retain_available : Bool
  pub wildcard_subscription_available : Bool
  pub subscription_id_available : Bool
  pub shared_subscription_available : Bool

-- `byte(ps>>24), byte(ps>>16), byte(ps>>8), byte(ps)`
abbrev pub uint32_bytes : ℕ → Bytes
uint32_bytes v = (v / 16777216 % 256) ∷ (v / 65536 % 256) ∷ (v / 256 % 256) ∷ (v % 256) ∷ []

abbrev pub bool_byte : Bool → ℕ
bool_byte b = if b then 1 else 0

unfoldable pub connack_props : ConnackOptions → Bytes
connack_props opts =
    (if ltb 0 opts.receive_maximum then 0x21 ∷ uint16_bytes opts.receive_maximum else [])
    ++ ((if ltb opts.maximum_qos 2 then 0x24 ∷ bit_and opts.maximum_qos 0x03 ∷ [] else [])
        ++ ((if ltb 0 opts.max_packet_size then 0x27 ∷ uint32_bytes opts.max_packet_size else [])
            ++ ((if ltb 0 opts.topic_alias_max
                  then 0x22 ∷ uint16_bytes opts.topic_alias_max
                  else [])
                ++ (0x25
                    ∷ bool_byte opts.retain_available
                    ∷ 0x28
                    ∷ bool_byte opts.wildcard_subscription_available
                    ∷ 0x29
                    ∷ bool_byte opts.subscription_id_available
                    ∷ 0x2a
                    ∷ bool_byte opts.shared_subscription_available
                    ∷ []))))

unfoldable pub encode_connack_v5 : Bool → ℕ → ConnackOptions → Option Bytes
unfolding connack_props
encode_connack_v5 session_present reason_code opts = do
  let flags = if reason_code == 0 && session_present then 1 else 0
  let props = if reason_code == 0 then connack_props opts else []
  prop_len_enc ← encode_var_int (length props)
  rem_enc ← encode_var_int (2 + length prop_len_enc + length props)
  some (type_byte PacketType.connack ∷ (rem_enc ++ (flags ∷ reason_code ∷ (prop_len_enc ++ props))))
