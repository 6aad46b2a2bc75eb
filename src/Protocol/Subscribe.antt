-- ===== src/Protocol/Subscribe.antt =====
-- SUBSCRIBE and UNSUBSCRIBE, and their acknowledgements, of internal/protocol/packet.go. An error of
-- a decoder comes with no other result here; the Go code returns values beside it, which no caller
-- reads.
pub mod Validated
use broker.Prelude.{
  ℕ, zero, suc, ◌+◌, ◌==◌, ltb, if◌then◌else◌, bit_and, Bytes, List, [], ◌∷◌, ◌++◌, length, true,
  false, Option, some,
}
use broker.Protocol.Codes.PacketType
use broker.Protocol.Codes.{v50}
use broker.Protocol.Result.{Result, ok, hang, ◌>>=◌, ◌>>◌, fail_if, protocol_violation}
use broker.Protocol.Reader.{
  Reader, new_slice_reader, io_read_full, read_string, read_uint16, append_uint16,
}
use broker.Protocol.VarInt.{buf0, encode_var_int, skip_props}
use broker.Protocol.Topic.{is_empty}
use broker.Protocol.Connack
use broker.Protocol.Connack.{type_byte}

pub record Subscription : Type 0 where
  pub filter : Bytes
  pub qos : ℕ

-- `for r.Remaining() > 0`. Each round moves on by three bytes, so that the length of the body, and
-- one for the last test, is enough fuel.
unfoldable pub subscribe_loop : ℕ → Reader → List Subscription → Result (List Subscription)
subscribe_loop zero r subs = hang
subscribe_loop (suc fuel) r subs = elim (ltb r.pos (length r.data_bytes)) [
  | false ↦ ok subs
  | true ↦ do
    (filter, r₁) ← read_string r
    (qos_buf, r₂) ← io_read_full 1 r₁
    let sub : Subscription = record { filter = filter; qos = bit_and (buf0 qos_buf) 0x03 }
    subscribe_loop fuel r₂ (subs ++ (sub ∷ []))
]

-- `if version == V50 { skipProps }`
unfoldable pub skip_v5_props : ℕ → Reader → Result Reader
unfolding skip_props
skip_v5_props version r = if version == v50 then skip_props r else ok r

unfoldable pub decode_subscribe : ℕ → Bytes → Result (ℕ × List Subscription)
unfolding subscribe_loop skip_v5_props read_uint16 read_string io_read_full
decode_subscribe version body = do
  (packet_id, r₁) ← read_uint16 (new_slice_reader body)
  r₂ ← skip_v5_props version r₁
  subs ← subscribe_loop (suc (length body)) r₂ []
  fail_if (is_empty subs) protocol_violation
  ok (packet_id, subs)

unfoldable pub encode_suback : ℕ → Bytes → Option Bytes
unfolding append_uint16
encode_suback packet_id return_codes =
    Connack.◌>>=◌ (encode_var_int (2 + length return_codes)) λ var_buf.
      some (append_uint16 (type_byte PacketType.suback ∷ var_buf) packet_id ++ return_codes)

-- `EncodeSubackV5` and `EncodeUnsubackV5` differ in the packet type.
abbrev encode_reasons_v5 : ℕ → ℕ → Bytes → Bytes → Option Bytes
encode_reasons_v5 t packet_id props reason_codes =
    Connack.◌>>=◌ (encode_var_int (length props)) λ prop_len_enc.
      Connack.◌>>=◌ (encode_var_int (2 + length prop_len_enc + length props + length reason_codes))
        λ var_buf. some (
          append_uint16 (type_byte t ∷ var_buf) packet_id
          ++ (prop_len_enc ++ (props ++ reason_codes)))

unfoldable pub encode_suback_v5 : ℕ → Bytes → Bytes → Option Bytes
unfolding append_uint16
encode_suback_v5 packet_id props reason_codes =
    encode_reasons_v5 PacketType.suback packet_id props reason_codes

unfoldable pub encode_unsuback_v5 : ℕ → Bytes → Bytes → Option Bytes
unfolding append_uint16
encode_unsuback_v5 packet_id props reason_codes =
    encode_reasons_v5 PacketType.unsuback packet_id props reason_codes

unfoldable pub unsubscribe_loop : ℕ → Reader → List Bytes → Result (List Bytes)
unsubscribe_loop zero r filters = hang
unsubscribe_loop (suc fuel) r filters = elim (ltb r.pos (length r.data_bytes)) [
  | false ↦ ok filters
  | true ↦ do (filter, r₁) ← read_string r; unsubscribe_loop fuel r₁ (filters ++ (filter ∷ []))
]

unfoldable pub decode_unsubscribe : ℕ → Bytes → Result (ℕ × List Bytes)
unfolding unsubscribe_loop skip_v5_props read_uint16 read_string io_read_full
decode_unsubscribe version body = do
  (packet_id, r₁) ← read_uint16 (new_slice_reader body)
  r₂ ← skip_v5_props version r₁
  filters ← unsubscribe_loop (suc (length body)) r₂ []
  ok (packet_id, filters)
