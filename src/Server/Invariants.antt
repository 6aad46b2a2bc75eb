-- ===== src/Server/Invariants.antt =====
-- Properties of the broker that every packet keeps: what a handler of internal/broker/client.go
-- may change is taken step by step.
pub mod Handlers
pub mod Subscriptions
pub mod Rounds
pub mod Endings
use broker.Prelude.{
  ℕ, ltb, ◌==◌, if◌then◌else◌, Bytes, List, [], ◌∷◌, Bool, true, false, not, ◌&&◌, Option, none,
  some, ◌≡◌, refl,
}
use broker.Prelude.Maps.{lookup}
use broker.Protocol.Codes.PacketType
use broker.Protocol.Codes.{v50}
use broker.Protocol.Result
use broker.Protocol.Result.{Result}
use broker.Protocol.Publish.{encode_publish, encode_publish_v5}
use broker.Protocol.Connack.{encode_connack, encode_connack_v5}
use broker.Protocol.Connect.{ConnectPacket, decode_connect}
use broker.Router.Engine.{Router, Delivery}
use broker.Router.Publish
use broker.Session
use broker.Session.{Session, next_packet_id, add_out_flight_limited, drain_queue}
use broker.Session.Store.{Store, get_or_create}
use broker.Auth.Tokens.{TokenCache}
use broker.Server.{Broker, Client, Task, is_connected}
use broker.Server.Actions
use broker.Server.Actions.{
  Action, Outcome, done, failed, pure, raise, modify, run, decode, ◌>>=◌, ◌>>◌, continue,
  update_client, update_session, session_of_client, deref, session_at,
}
use broker.Server.Lifecycle.{close_conn, takeover}
use broker.Server.Deliver
use broker.Server.Deliver.{
  queue_offline, send_publish, send_tracked, send_acknowledged, is_too_large, deliver, deliver_each,
  publish, in_flight_of, receive_limit, queued_of,
}
use broker.Server.Quiet.{Quiet, deliver_each-Quiet, publish-Quiet}
use broker.Server.Effects
use broker.Server.Effects.{Ends, Leaves, Stable, if-Holds, run-Ends, continue-Ends}

module _ {E : Type 0} where
  -- A property that sending, routing and writing to sessions cannot break.
  pub record Passive (P : Broker E → Type 0) : Type 0 where
    pub enqueue : (j : ℕ) (packet : Bytes) (b : Broker E) → P b → P (Actions.enqueue j packet b)
    pub router : (r : Router) (b : Broker E) → P b → P (record b { router = r })
    pub sessions : (st : Store) (b : Broker E) → P b → P (record b { sessions = st })

  -- A property that nothing a packet of the connection `i` does can break.
  pub record Invariant (i : ℕ) (P : Broker E → Type 0) : Type 0 where
    pub stable : Stable i P
    pub passive : Passive P
    pub close : (j : ℕ) (b : Broker E) → P b → P (update_client j close_conn b)
    pub clients : (cs : List (Bytes × ℕ)) (b : Broker E) → P b → P (record b { clients = cs })
    pub tasks : (ts : List Task) (b : Broker E) → P b → P (record b { tasks = ts })

-- Every branch of a call that returns nothing or a broker.
module _ {E : Type 0} (P : Broker E → Type 0) (inv : Passive P) where
  pub update_session-Invariant :
      (p : ℕ) (f : Session → Session) (b : Broker E) → P b → P (update_session p f b)
  unfolding update_session
  update_session-Invariant p f b h = inv.sessions _ b h

  -- A packet for any connection.
  pub enqueue_any-Leaves :
      (j : ℕ) (packet : Option Bytes) (b : Broker E)
      → P b
      → Leaves P (Actions.enqueue_packet j packet b)
  enqueue_any-Leaves j none b h = tt
  enqueue_any-Leaves j (some packet) b h = inv.enqueue j packet b h

  pub then-Leaves :
      (r : Option (Broker E)) (k : Broker E → Option (Broker E))
      → Leaves P r
      → ((b : Broker E) → P b → Leaves P (k b))
      → Leaves P (elim r [ none ↦ none | some b' ↦ k b' ])
  then-Leaves none k hr hk = tt
  then-Leaves (some b) k hr hk = hk b hr

  -- A session that may be missing.
  pub session-Leaves :
      (j : ℕ) (b : Broker E) (none_case : Option (Broker E)) (f : ℕ → Session → Option (Broker E))
      → Leaves P none_case
      → ((p : ℕ) (s : Session) → Leaves P (f p s))
      → Leaves P (elim (session_of_client j b) [ none ↦ none_case | some (p, s) ↦ f p s ])
  session-Leaves j b none_case f hn hf = by-cases (session_of_client j b)
    where
      by-cases :
          (r : Option (ℕ × Session)) → Leaves P (elim r [ none ↦ none_case | some (p, s) ↦ f p s ])
      by-cases none = hn
      by-cases (some (p, s)) = hf p s

  quiet : Quiet P
  quiet = record {
    enqueue = inv.enqueue;
    router = inv.router;
    session = λ q f b keeps h. update_session-Invariant q f b h;
  }

  pub deliver_each-Leaves :
      (now : ℕ) (ds : List Delivery) (b : Broker E) → P b → Leaves P (deliver_each now ds b)
  deliver_each-Leaves = deliver_each-Quiet P quiet

  pub publish-Leaves :
      (now : ℕ) (topic payload : Bytes) (qos : ℕ) (retain : Bool) (b : Broker E)
      → P b
      → Leaves P (publish now topic payload qos retain b)
  publish-Leaves = publish-Quiet P quiet
