-- ===== src/Server/ExactlyOnce.antt =====
-- A QoS 2 message from its first PUBLISH to its PUBREL, in `handlePublish` and `handlePubrel` of
-- internal/broker/client.go.
use broker.Prelude.{ℕ, Bytes, List, [], ◌∷◌, Option, none, some, ◌≡◌, refl, nat_eq, Bool}
use broker.Prelude.Maps.{lookup}
use broker.Protocol.Codes.PacketType
use broker.Protocol.Publish.{PublishPacket}
use broker.Session.{Session, InFlight, get_in_flight}
use broker.Server.{Broker}
use broker.Server.Actions.{Action, run}
use broker.Server.Deliver.{publish}
use broker.Server.Inbound.{store_received, accept_publish, release, with_session}

-- What waits once a message came: the one that was there, or the new one.
abbrev first_of : Option InFlight → InFlight → InFlight
first_of none m = m
first_of (some w) m = w

store_received_known :
    (m w : InFlight) (s : Session)
    → lookup m.packet_id s.in_flight ≡ some w
    → store_received m s ≡ s
unfolding store_received get_in_flight
store_received_known m w s present = rw (present, store_received) refl

-- A PUBLISH of QoS 2 under an identifier, with its topic and the time.
pub record Sent (id : ℕ) : Type 0 where
  pub time : ℕ
  pub topic : Bytes
  pub pkt : PublishPacket
  pub level : pkt.qos ≡ 2
  pub numbered : pkt.packet_id ≡ id

module _ {E : Type 0} (i : ℕ) where
  abbrev pub accept_sent : {id : ℕ} → Sent id → Action E (Unit {0})
  accept_sent x = accept_publish x.time i x.topic x.pkt

  -- The copies one after the other, until one is not taken.
  unfoldable pub accept_each : {id : ℕ} → List (Sent id) → Broker E → Option (Broker E)
  accept_each [] b = some b
  accept_each (x ∷ xs) b = elim (accept_sent x b) [ none ↦ none | some (b', o) ↦ accept_each xs b' ]

  -- What a PUBREL does with a message that waits.
  pub record Publishes (now id : ℕ) (topic payload : Bytes) (qos : ℕ) (retain : Bool) (b : Broker E)
      : Type 0 where
    pub before : Broker E
    pub router : before.router ≡ b.router
    pub conns : before.conns ≡ b.conns
    pub publishes :
        with_session i (release now id) b ≡ run (publish now topic payload qos retain) before
