-- ===== src/Server/Framing.antt =====
-- The packets on the stream of `readLoop` of internal/broker/client.go, over `ReadFixed` of
-- internal/protocol/packet.go.
use broker.Prelude.{
  ℕ, ◌/◌, ◌==◌, ltb, if◌then◌else◌, Bytes, [], ◌∷◌, ◌++◌, append-nil, not, ◌&&◌, Option, none, some,
  ◌≡◌, refl, sym, ap, ◌∙◌, length, length-append, bit_and, arith, take-length-append,
  drop-length-append, Bool-cases, inl, inr,
}
use broker.Protocol.Codes.PacketType
use broker.Protocol.VarInt.{FixedHeader, encode_var_int}
use broker.Protocol.VarInt.RoundTrip.{read_fixed-frame}
use broker.Server.{Broker, is_handshaking}
use broker.Server.Actions.{Outcome, done, failed}
use broker.Server.Handshake.{Crypto}
use broker.Server.Handle.{
  Round, Next, stop, again, read_body, handle, after_handler, read_packet, read_round,
}

read_body-frame :
    (max : ℕ) (body rest : Bytes)
    → read_body max (length body) (body ++ rest)
      ≡ (if ltb max (length body) then none else some (body, rest))
unfolding read_body
read_body-frame max [] rest = ground arith
read_body-frame max (x ∷ body) rest = ground (
  arith,
  length-append (x ∷ body) rest,
  take-length-append (x ∷ body) rest,
  drop-length-append (x ∷ body) rest,
)

-- One packet: a first byte, the encoded length of a body, and the body.
abbrev pub frame : ℕ → Bytes → Bytes → Bytes
frame first var body = first ∷ (var ++ body)

module _ {E : Type 0} where
  -- The same end of a round with another stream behind the packet.
  abbrev pub before : Bytes → Option (Broker E × Next) → Option (Broker E × Next)
  before rest none = none
  before rest (some (b, stop)) = some (b, stop)
  before rest (some (b, again left)) = some (b, again rest)

  after_handler-before :
      (r : Round) (rest : Bytes) (x : Option (Broker E × Outcome E (Unit {0})))
      → after_handler r rest x ≡ before rest (after_handler r [] x)
  after_handler-before r rest none = refl
  after_handler-before r rest (some (b, failed e)) = refl
  after_handler-before r rest (some (b, done a)) = elim (Bool-cases r.cancelled) [
    | inl over ↦ rw over refl
    | inr goes_on ↦ rw goes_on refl
  ]

  module _ (crypto : Crypto) (r : Round) (i first : ℕ) (var body : Bytes) (b : Broker E) where
    abbrev header : FixedHeader
    header = record {
      packet_type = first / 16;
      flags = bit_and first 0x0f;
      remaining_length = length body;
    }

    abbrev on_body : Bytes → Option (Bytes × Bytes) → Option (Broker E × Next)
    on_body rest none = some (b, stop)
    on_body rest (some (body', rest')) =
        if is_handshaking (b.conns i).state && not (header.packet_type == PacketType.connect)
        then some (b, stop)
        else after_handler r rest' (handle crypto r i header body' b)

    -- What a round does with the packet in front of `rest`.
    abbrev framed : Bytes → Option (Broker E × Next)
    framed rest =
        on_body rest (if ltb b.cfg.max_packet_size (length body) then none else some (body, rest))

    framed-before : (rest : Bytes) → framed rest ≡ before rest (framed [])
    framed-before rest = elim (Bool-cases (ltb b.cfg.max_packet_size (length body))) [
      | inl large ↦ rw large refl
      | inr fits ↦
          rw fits
            (elim (Bool-cases (
              is_handshaking (b.conns i).state && not (header.packet_type == PacketType.connect))) [
                | inl refused ↦ rw refused refl
                | inr passed ↦
                    rw passed (after_handler-before r rest (handle crypto r i header body b))
              ])
    ]

    read_round-framed :
        (rest : Bytes)
        → encode_var_int (length body) ≡ some var
        → read_round crypto r i (frame first var body ++ rest) b ≡ framed rest
    unfolding read_round read_packet
    read_round-framed rest e =
        rw (read_fixed-frame first var body rest e, read_round)
          (ap (on_body rest) (read_body-frame b.cfg.max_packet_size body rest))

    -- A round of the read loop on a packet, a first byte, the encoded length of a body and the
    -- body, with any further bytes behind it does to the broker what it does on the packet alone,
    -- also where it ends the loop; and if the loop goes on, it goes on with exactly the further
    -- bytes.
    pub read_round-frame :
        (rest : Bytes)
        → encode_var_int (length body) ≡ some var
        → read_round crypto r i (frame first var body ++ rest) b
          ≡ before rest (read_round crypto r i (frame first var body) b)
    read_round-frame rest e =
        let alone : read_round crypto r i (frame first var body) b ≡ framed [] =
          ap (λ s. read_round crypto r i s b) (sym (append-nil (frame first var body)))
          ∙ read_round-framed [] e in
        read_round-framed rest e ∙ framed-before rest ∙ ap (before rest) (sym alone)
