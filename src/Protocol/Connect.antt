-- ===== src/Protocol/Connect.antt =====
-- CONNECT: `ConnectPacket`, `DecodeConnect` and `PeekConnectProtocolLevel` of
-- internal/protocol/packet.go.
pub mod Validated
use broker.Prelude.{
  ℕ, ◌/◌, ◌==◌, ltb, if◌then◌else◌, bit_and, Bytes, codes, [], Bool, not, ◌&&◌, ◌||◌, length,
  Option, none, some, bytes_eq, nat_eq,
}
use broker.Prelude.Maps.{lookup}
use broker.Protocol.Result.{
  Result, ok, ◌>>=◌, ◌>>◌, fail_if, with_context, unsupported_version, protocol_violation,
  invalid_qos,
}
use broker.Protocol.Reader.{
  Reader, new_slice_reader, io_read_full, read_string, read_uint16, be16, be32,
}
use broker.Protocol.VarInt.{buf0, skip_props}
use broker.Protocol.Props.{Props, read_connect_props}
use broker.Protocol.Codes.{v311, v50}

-- The flags byte, taken apart.
pub record ConnectFlags : Type 0 where
  pub clean_session : Bool
  pub will_flag : Bool
  pub will_qos : ℕ
  pub will_retain : Bool
  pub has_password : Bool
  pub has_username : Bool

-- The properties that the packet keeps.
pub record ConnectProps : Type 0 where
  pub session_expiry_interval : ℕ
  pub receive_maximum : ℕ
  pub maximum_packet_size : ℕ
  pub topic_alias_maximum : ℕ

pub record ConnectPacket : Type 0 where
  pub version : ℕ
  pub keep_alive : ℕ
  pub conn_flags : ConnectFlags
  pub conn_props : ConnectProps
  pub client_id : Bytes
  pub will_topic : Bytes
  pub will_payload : Bytes
  pub username : Bytes
  pub password : Bytes

unfoldable pub protocol_name_ok : Bytes → Bool
unfolding bytes_eq
protocol_name_ok name = bytes_eq name (codes "MQTT") || bytes_eq name (codes "MQIsdp")

unfoldable pub connect_flags : ℕ → ConnectFlags
connect_flags f = record {
  clean_session = not (bit_and f 0x02 == 0);
  will_flag = not (bit_and f 0x04 == 0);
  will_qos = bit_and (f / 8) 0x03;
  will_retain = not (bit_and f 0x20 == 0);
  has_password = not (bit_and f 0x40 == 0);
  has_username = not (bit_and f 0x80 == 0);
}

unfoldable pub check_flags : ℕ → Result ConnectFlags
unfolding connect_flags
check_flags f = do
  fail_if (not (bit_and f 0x01 == 0)) protocol_violation
  let c = connect_flags f
  fail_if (not c.will_flag && (not (c.will_qos == 0) || c.will_retain)) protocol_violation
  fail_if (ltb 2 c.will_qos) invalid_qos
  ok c

-- `if v, ok := props[id]; ok && len(v) == 2`, and the value, or 0
unfoldable pub prop_uint16 : ℕ → Props → Option ℕ
prop_uint16 id props = elim (lookup id props) [
  | none ↦ none
  | some v ↦ if length v == 2 then some (be16 v) else none
]

unfoldable pub prop_uint32 : ℕ → Props → Option ℕ
prop_uint32 id props = elim (lookup id props) [
  | none ↦ none
  | some v ↦ if length v == 4 then some (be32 v) else none
]

abbrev pub value_or_zero : Option ℕ → ℕ
value_or_zero none = 0
value_or_zero (some v) = v

-- A property that is present must not be 0.
abbrev pub is_zero_value : Option ℕ → Bool
is_zero_value none = Bool.false
is_zero_value (some v) = v == 0

unfoldable pub check_connect_props : Props → Result ConnectProps
unfolding prop_uint16 prop_uint32
check_connect_props props = do
  fail_if (is_zero_value (prop_uint16 0x21 props)) protocol_violation
  fail_if (is_zero_value (prop_uint32 0x27 props)) protocol_violation
  ok (record {
    session_expiry_interval = value_or_zero (prop_uint32 0x11 props);
    receive_maximum = value_or_zero (prop_uint16 0x21 props);
    maximum_packet_size = value_or_zero (prop_uint32 0x27 props);
    topic_alias_maximum = value_or_zero (prop_uint16 0x22 props);
  })

abbrev pub no_connect_props : ConnectProps
no_connect_props = record {
  session_expiry_interval = 0;
  receive_maximum = 0;
  maximum_packet_size = 0;
  topic_alias_maximum = 0;
}

unfoldable pub read_connect_section : ℕ → Reader → Result (ConnectProps × Reader)
unfolding read_connect_props check_connect_props
read_connect_section version r =
    if version == v50
    then (do (props, r') ← read_connect_props r; c ← check_connect_props props; ok (c, r'))
    else ok (no_connect_props, r)

-- A two-byte length and that many bytes: the will payload, and the password.
unfoldable pub read_binary : Reader → Result (Bytes × Reader)
unfolding read_uint16 io_read_full
read_binary r = do (n, r') ← read_uint16 r; if ltb 0 n then io_read_full n r' else ok ([], r')

unfoldable pub read_will : ℕ → Bool → Reader → Result ((Bytes × Bytes) × Reader)
unfolding skip_props read_string read_binary
read_will version will_flag r =
    if will_flag
    then (do
      r₁ ← (if version == v50 then skip_props r else ok r)
      (topic, r₂) ← with_context (codes "will topic") (read_string r₁)
      (payload, r₃) ← read_binary r₂
      ok ((topic, payload), r₃))
    else ok (([], []), r)

unfoldable pub read_username : Bool → Reader → Result (Bytes × Reader)
unfolding read_string
read_username has_username r =
    if has_username then with_context (codes "username") (read_string r) else ok ([], r)

unfoldable pub read_password : Bool → Reader → Result (Bytes × Reader)
unfolding read_binary
read_password has_password r = if has_password then read_binary r else ok ([], r)

-- What stands behind the flags byte: keep-alive, properties, and the payload.
unfoldable pub decode_connect_fields : ℕ → ConnectFlags → Reader → Result ConnectPacket
unfolding read_string read_uint16 read_connect_section read_will read_username read_password
decode_connect_fields version conn_flags r₃ = do
  (keep_alive, r₄) ← read_uint16 r₃
  (conn_props, r₅) ← read_connect_section version r₄
  (client_id, r₆) ← with_context (codes "client id") (read_string r₅)
  (will, r₇) ← read_will version conn_flags.will_flag r₆
  (username, r₈) ← read_username conn_flags.has_username r₇
  (password, r₉) ← read_password conn_flags.has_password r₈
  ok (record {
    version = version;
    keep_alive = keep_alive;
    conn_flags = conn_flags;
    conn_props = conn_props;
    client_id = client_id;
    will_topic = will.0;
    will_payload = will.1;
    username = username;
    password = password;
  })

unfoldable pub decode_connect : Bytes → Result ConnectPacket
unfolding read_string io_read_full protocol_name_ok check_flags decode_connect_fields
decode_connect body = do
  (proto_name, r₁) ← with_context (codes "proto name") (read_string (new_slice_reader body))
  fail_if (not (protocol_name_ok proto_name)) unsupported_version
  (ver, r₂) ← io_read_full 1 r₁
  fail_if (not (buf0 ver == v311) && not (buf0 ver == v50)) unsupported_version
  (flag_buf, r₃) ← io_read_full 1 r₂
  conn_flags ← check_flags (buf0 flag_buf)
  decode_connect_fields (buf0 ver) conn_flags r₃

-- `(level, true)`, or `(0, false)` on any error
abbrev level_or_none : Result ℕ → Option ℕ
level_or_none (ok v) = some v
level_or_none _ = none

unfoldable pub peek_connect_protocol_level : Bytes → Option ℕ
unfolding read_string io_read_full protocol_name_ok
peek_connect_protocol_level body = level_or_none (do
  (proto_name, r₁) ← read_string (new_slice_reader body)
  fail_if (not (protocol_name_ok proto_name)) unsupported_version
  (ver, r₂) ← io_read_full 1 r₁
  ok (buf0 ver))
