-- ===== src/Server/Handle.antt =====
-- `handle` and one round of `readLoop` of internal/broker/client.go. What the rate limiter says and
-- whether the context is done are arguments; the deadline of the connection is left out.
use broker.Prelude.{
  ℕ, ◌==◌, ltb, if◌then◌else◌, Bytes, [], take, drop, length, Bool, not, ◌&&◌, Option, none, some,
  nat_eq,
}
use broker.Protocol.Result.{ok, err, panic, hang}
use broker.Protocol.Codes.PacketType
use broker.Protocol.Codes.{v50}
use broker.Protocol.Topic.{is_empty}
use broker.Protocol.VarInt.{FixedHeader, read_fixed}
use broker.Protocol.Ack.{pingresp, encode_disconnect_v311}
use broker.Protocol.Disconnect.{encode_disconnect_v5}
use broker.Session.{touch}
use broker.Server.{Broker, is_handshaking, rate_limited, unexpected_packet}
use broker.Server.Actions.{
  Action, Outcome, done, failed, raise, modify, run, ◌>>◌, update_session, enqueue, enqueue_packet,
}
use broker.Server.Handshake.{Crypto, handle_connect}
use broker.Server.Inbound.{
  with_session, handle_publish, handle_puback, handle_pubrec, handle_pubrel, handle_pubcomp,
  handle_disconnect,
}
use broker.Server.Subscriptions.{handle_subscribe, handle_unsubscribe}

-- What a round finds outside the broker: two readings of the clock, the answer of the rate limiter,
-- and whether the context is done.
pub record Round : Type 0 where
  pub now : ℕ
  pub later : ℕ
  pub allowed : Bool
  pub cancelled : Bool

-- The loop stops, or it goes on with the rest of the stream.
pub data Next : Type 0 where
  stop : Next
  again : Bytes → Next

-- `ReasonQuotaExceeded`
abbrev pub reason_quota_exceeded : ℕ
reason_quota_exceeded = 0x97

-- The body of a packet, and the stream behind it. `none` is an oversized or a cut packet.
unfoldable pub read_body : ℕ → ℕ → Bytes → Option (Bytes × Bytes)
read_body max n stream =
    if n == 0
    then some ([], stream)
    else if ltb max n
    then none
    else if ltb (length stream) n
    then none
    else some (take n stream, drop n stream)

module _ {E : Type 0} where
  -- The DISCONNECT for a client that sends too much.
  unfoldable pub send_quota_exceeded : ℕ → Broker E → Option (Broker E)
  send_quota_exceeded i b =
      if (b.conns i).version == v50
      then enqueue_packet i (encode_disconnect_v5 reason_quota_exceeded []) b
      else some (enqueue i encode_disconnect_v311 b)

  unfoldable pub handle_pingreq : ℕ → ℕ → Action E (Unit {0})
  handle_pingreq now i = do
    modify (enqueue i pingresp)
    with_session i (λ p s. modify (update_session p (touch now)))

  -- The dispatch by the packet type.
  unfoldable pub dispatch : Crypto → Round → ℕ → FixedHeader → Bytes → Action E (Unit {0})
  unfolding handle_connect handle_publish handle_puback handle_pubrec handle_pubrel handle_pubcomp
      handle_subscribe handle_unsubscribe handle_pingreq handle_disconnect
  dispatch crypto r i fh body =
      let t = fh.packet_type in
      if t == PacketType.connect
      then handle_connect crypto r.now i body
      else if t == PacketType.publish
      then handle_publish r.now r.later i fh body
      else if t == PacketType.puback
      then handle_puback i body
      else if t == PacketType.pubrec
      then handle_pubrec i body
      else if t == PacketType.pubrel
      then handle_pubrel r.now i body
      else if t == PacketType.pubcomp
      then handle_pubcomp i body
      else if t == PacketType.subscribe
      then handle_subscribe i body
      else if t == PacketType.unsubscribe
      then handle_unsubscribe i body
      else if t == PacketType.pingreq
      then handle_pingreq r.now i
      else if t == PacketType.disconnect
      then handle_disconnect i body
      else raise unexpected_packet

  unfoldable pub handle : Crypto → Round → ℕ → FixedHeader → Bytes → Action E (Unit {0})
  unfolding dispatch send_quota_exceeded
  handle crypto r i fh body b =
      if not (is_empty (b.conns i).client_id) && not r.allowed
      then (run (send_quota_exceeded i) >> raise rate_limited) b
      else dispatch crypto r i fh body b

  -- What follows a handler.
  abbrev pub after_handler :
      Round → Bytes → Option (Broker E × Outcome E (Unit {0})) → Option (Broker E × Next)
  after_handler r rest none = none
  after_handler r rest (some (b, failed e)) = some (b, stop)
  after_handler r rest (some (b, done a)) = some (b, if r.cancelled then stop else again rest)

  -- The body and the check for a CONNECT.
  unfoldable pub read_packet :
      Crypto → Round → ℕ → FixedHeader → Bytes → Broker E → Option (Broker E × Next)
  unfolding read_body handle
  read_packet crypto r i fh stream b =
      elim (read_body b.cfg.max_packet_size fh.remaining_length stream) [
        | none ↦ some (b, stop)
        | some (body, rest) ↦
            if is_handshaking (b.conns i).state && not (fh.packet_type == PacketType.connect)
            then some (b, stop)
            else after_handler r rest (handle crypto r i fh body b)
      ]

  -- One round of `readLoop` on what is left of the stream.
  unfoldable pub read_round : Crypto → Round → ℕ → Bytes → Broker E → Option (Broker E × Next)
  unfolding read_packet
  read_round crypto r i stream b = elim (read_fixed stream) [
    | ok (fh, rest) ↦ read_packet crypto r i fh rest b
    | err e ↦ some (b, stop)
    | panic ↦ none
    | hang ↦ none
  ]
