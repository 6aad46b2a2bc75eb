-- ===== src/Protocol/Tests.antt =====
-- Runs of the codec, and the theorems at concrete packets.
use broker.Prelude.{
  ℕ, Bytes, codes, [], ◌∷◌, ◌++◌, false, some, length, drop, ◌≡◌, ◌+◌, refl, arith,
}
use broker.Protocol.Result.{ok, Returns}
use broker.Protocol.Codes.{v311}
use broker.Protocol.Codes.PacketType
use broker.Protocol.Reader.{Reader, new_slice_reader, append_string}
use broker.Protocol.VarInt.{FixedHeader, encode_var_int, read_var_int, read_fixed}
use broker.Protocol.VarInt.RoundTrip.{at, read_var_int-encode_var_int}
use broker.Protocol.Topic.{valid_topic_name}
use broker.Protocol.Connect.{decode_connect}
use broker.Protocol.Connect.Validated.{IsWellFormed, decode_connect-IsWellFormed}
use broker.Protocol.Publish.{decode_publish, encode_publish, append_packet_id, publish_flags}
use broker.Protocol.Publish.Validated.{IsAcceptable, decode_publish-IsAcceptable}
use broker.Protocol.Publish.RoundTrip.{IsSendable, sent, decode_publish-encode_publish}

three_hundred : encode_var_int 300 ≡ some (0xac ∷ 0x02 ∷ [])
unfolding encode_var_int
three_hundred = refl

read_var_int-encode_var_int_example :
    (read_var_int (at (0xac ∷ 0x02 ∷ 9 ∷ []) 0) ≡ ok (300, at (0xac ∷ 0x02 ∷ 9 ∷ []) (0 + 2)))
    × (drop {A = ℕ} (0 + 2) (0xac ∷ 0x02 ∷ 9 ∷ []) ≡ 9 ∷ [])
read_var_int-encode_var_int_example =
    read_var_int-encode_var_int 300 0 (0xac ∷ 0x02 ∷ []) (9 ∷ []) (0xac ∷ 0x02 ∷ 9 ∷ [])
      three_hundred refl

one_byte : encode_var_int 2 ≡ some (2 ∷ [])
unfolding encode_var_int
one_byte = refl

-- A CONNECT of MQTT 3.1.1 with the client identifier "ann".
abbrev connect_body : Bytes
connect_body = 0 ∷ 4 ∷ (codes "MQTT" ++ (4 ∷ 2 ∷ 0 ∷ 60 ∷ 0 ∷ 3 ∷ codes "ann"))

decode_connect-IsWellFormed_example : Returns IsWellFormed (decode_connect connect_body)
decode_connect-IsWellFormed_example = decode_connect-IsWellFormed connect_body

abbrev header : FixedHeader
header = record { packet_type = PacketType.publish; flags = 2; remaining_length = 8 }

abbrev publish_bytes : Bytes
publish_bytes = 0 ∷ 3 ∷ (codes "a/b" ++ (0 ∷ 7 ∷ codes "x"))

decode_publish-IsAcceptable_example :
    Returns (IsAcceptable v311) (decode_publish 5 v311 header publish_bytes)
decode_publish-IsAcceptable_example = decode_publish-IsAcceptable 5 v311 header publish_bytes

abbrev frame : Bytes
frame = 0x32 ∷ 8 ∷ publish_bytes

encoded : encode_publish (codes "a/b") (codes "x") 1 false 7 false ≡ some frame
unfolding encode_publish encode_var_int append_packet_id append_string publish_flags
encoded = refl

sendable : IsSendable (codes "a/b") 1 7 false
unfolding valid_topic_name
sendable = record {
  level = omega arith;
  named = refl;
  short = omega arith;
  fresh = λ e. absurd (omega arith);
  id_range = omega arith;
  identified = λ h. omega arith;
}

decode_publish-encode_publish_example :
    (fh : FixedHeader) × ((body : Bytes) × (read_fixed (frame ++ (0xc0 ∷ 0 ∷ []))
        ≡ ok (fh, body ++ (0xc0 ∷ 0 ∷ [])))
      × (fh.packet_type ≡ PacketType.publish)
      × (fh.remaining_length ≡ length body)
      × (decode_publish 5 v311 fh body ≡ ok (sent (codes "a/b") (codes "x") 1 false 7 false 5)))
decode_publish-encode_publish_example =
    decode_publish-encode_publish 5 (codes "a/b") (codes "x") 1 7 false false sendable frame
      (0xc0 ∷ 0 ∷ []) encoded

abbrev subscribe_body : Bytes
subscribe_body = 0 ∷ 7 ∷ 0 ∷ 3 ∷ (codes "a/b" ++ (1 ∷ []))

abbrev alias_props : Reader
alias_props = new_slice_reader (3 ∷ 0x23 ∷ 0 ∷ 9 ∷ [])
