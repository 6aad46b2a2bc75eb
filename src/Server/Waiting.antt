-- ===== src/Server/Waiting.antt =====
-- The messages of QoS 2 that wait in the session of a connection, in internal/broker/client.go, and
-- what leaves them there.
use broker.Prelude.{
  ℕ, zero, suc, ◌==◌, ltb, Bytes, List, [], ◌∷◌, ◌++◌, Option, none, some, ◌≡◌, refl, ap, ◌∙◌,
  get_elem?, length, nat_eq,
}
use broker.Prelude.Maps.{lookup}
use broker.Protocol.Codes.{v50}
use broker.Protocol.Ack.{encode_ack, encode_ack_v5}
use broker.Session.{Session, InFlight}
use broker.Server.{Broker, Client, is_closed}
use broker.Server.Actions
use broker.Server.Actions.{
  Action, Outcome, done, failed, run, modify_at, update_client, update_session, deref, session_at,
  session_of_client, push, continue,
}
use broker.Server.Inbound.{enqueue_pub_ack}
use broker.Server.Effects.{Leaves, if-Holds, updated}
use broker.Server.Quiet.{Quiet}

-- The messages in flight of a session that may be missing.
abbrev pub in_flights : Option Session → Option (List (ℕ × InFlight))
in_flights none = none
in_flights (some s) = some s.in_flight

in_flights-modify_at :
    (q p : ℕ) (f : Session → Session) (heap : List Session) (m : List (ℕ × InFlight))
    → ((s : Session) → get_elem? heap q ≡ some s → (f s).in_flight ≡ s.in_flight)
    → in_flights (get_elem? heap p) ≡ some m
    → in_flights (get_elem? (modify_at q f heap) p) ≡ some m
unfolding modify_at
in_flights-modify_at q p f [] m keeps h = h
in_flights-modify_at zero zero f (s ∷ heap) m keeps h = ap some (keeps s refl) ∙ h
in_flights-modify_at zero (suc p) f (s ∷ heap) m keeps h = h
in_flights-modify_at (suc q) zero f (s ∷ heap) m keeps h = h
in_flights-modify_at (suc q) (suc p) f (s ∷ heap) m keeps h =
    in_flights-modify_at q p f heap m keeps h

get_elem?-modify_at :
    (p : ℕ) (f : Session → Session) (heap : List Session) (s : Session)
    → get_elem? heap p ≡ some s
    → get_elem? (modify_at p f heap) p ≡ some (f s)
unfolding modify_at
get_elem?-modify_at p f [] s h = cc
get_elem?-modify_at zero f (t ∷ heap) s h = ap (λ r. elim r [ none ↦ none | some u ↦ some (f u) ]) h
get_elem?-modify_at (suc p) f (t ∷ heap) s h = get_elem?-modify_at p f heap s h

pub modify_at_same :
    (p : ℕ) (f : Session → Session) (heap : List Session)
    → ((s : Session) → get_elem? heap p ≡ some s → f s ≡ s)
    → modify_at p f heap ≡ heap
unfolding modify_at
modify_at_same p f [] h = refl
modify_at_same zero f (t ∷ heap) h = ap (λ s. s ∷ heap) (h t refl)
modify_at_same (suc p) f (t ∷ heap) h = ap (λ ts. t ∷ ts) (modify_at_same p f heap h)

push-sess : (size : ℕ) (packet : Bytes) (c : Client) → (push size packet c).sess ≡ c.sess
unfolding push
push-sess size packet c =
    let Same : Client → Type 0 = λ d. d.sess ≡ c.sess in
    if-Holds Same (is_closed c.state) c _ refl (
      if-Holds Same (ltb (length c.write_q) size)
        (record c { write_q = c.write_q ++ (packet ∷ []) }) c refl refl)

module _ {E : Type 0} where
  -- The connection has its session, and these messages wait there for their PUBREL.
  pub record Waiting (i p : ℕ) (m : List (ℕ × InFlight)) (b : Broker E) : Type 0 where
    pub pointer : (b.conns i).sess ≡ some p
    pub messages : in_flights (deref p b) ≡ some m

  enqueue-Waiting :
      (i p : ℕ) (m : List (ℕ × InFlight)) (j : ℕ) (packet : Bytes) (b : Broker E)
      → Waiting i p m b
      → Waiting i p m (Actions.enqueue j packet b)
  unfolding Actions.enqueue
  enqueue-Waiting i p m j packet b h = record {
    pointer =
        updated (λ c. c.sess ≡ some p) j i (push b.cfg.write_queue_size packet) b
          (λ e. push-sess b.cfg.write_queue_size packet (b.conns j) ∙ rw (← e) h.pointer)
          λ differs. h.pointer;
    messages = h.messages;
  }

  pub Waiting-Quiet : (i p : ℕ) (m : List (ℕ × InFlight)) → Quiet (Waiting i p m)
  unfolding update_session
  Waiting-Quiet i p m = record {
    enqueue = enqueue-Waiting i p m;
    router = λ r b h. record { pointer = h.pointer; messages = h.messages };
    session = λ q f b keeps h. record {
      pointer = h.pointer;
      messages = in_flights-modify_at q p f b.sessions.heap m keeps h.messages;
    };
  }

  -- The acknowledgement keeps it.
  enqueue_pub_ack-Waiting :
      (i p : ℕ) (m : List (ℕ × InFlight)) (t id : ℕ) (b : Broker E)
      → Waiting i p m b
      → Leaves (Waiting i p m) (enqueue_pub_ack i t id b)
  unfolding enqueue_pub_ack
  enqueue_pub_ack-Waiting i p m t id b h =
      if-Holds (Leaves (Waiting i p m)) ((b.conns i).version == v50) _ _
        (sent (encode_ack_v5 t id 0 [])) (enqueue-Waiting i p m i (encode_ack t id) b h)
    where
      sent : (packet : Option Bytes) → Leaves (Waiting i p m) (Actions.enqueue_packet i packet b)
      sent none = tt
      sent (some packet) = enqueue-Waiting i p m i packet b h

pub some_injective : {A : Type 0} {x y : A} → some x ≡ some y → x ≡ y
some_injective {x = x} e = ap (λ r. elim r [ none ↦ x | some u ↦ u ]) e

pub Leaves-map :
    {E : Type 0} (P Q : Broker E → Type 0) (r : Option (Broker E))
    → ((b : Broker E) → P b → Q b)
    → Leaves P r
    → Leaves Q r
Leaves-map P Q none f h = tt
Leaves-map P Q (some b) f h = f b h

module _ {E : Type 0} where
  -- A write to the session of the connection.
  pub written-Waiting :
      (i p : ℕ) (f : Session → Session) (s : Session) (b : Broker E)
      → (b.conns i).sess ≡ some p
      → deref p b ≡ some s
      → Waiting i p (f s).in_flight (update_session p f b)
  unfolding update_session
  written-Waiting i p f s b pointer found = record {
    pointer = pointer;
    messages = ap in_flights (get_elem?-modify_at p f b.sessions.heap s found);
  }

  -- The session that a waiting connection finds.
  pub found_session :
      (i p : ℕ) (m : List (ℕ × InFlight)) (b : Broker E)
      → Waiting i p m b
      → (s : Session) × (deref p b ≡ some s)
        × (s.in_flight ≡ m)
        × (session_of_client i b ≡ some (p, s))
  found_session i p m b h = go (deref p b) refl h.messages
    where
      go :
          (r : Option Session)
          → deref p b ≡ r
          → in_flights r ≡ some m
          → (s : Session) × (deref p b ≡ some s)
            × (s.in_flight ≡ m)
            × (session_of_client i b ≡ some (p, s))
      go none e k = cc
      go (some s) e k = (
        s,
        e,
        some_injective k,
        ap (λ q. session_at q b) h.pointer
            ∙ ap (λ r. elim r [ none ↦ none | some t ↦ some (p, t) ]) e,
      )

  -- Nothing waits under the identifier, or this message does.
  pub record Holds (i id : ℕ) (w : Option InFlight) (b : Broker E) : Type 0 where
    pub place : ℕ
    pub entries : List (ℕ × InFlight)
    pub waiting : Waiting i place entries b
    pub entry : lookup id entries ≡ w

  pub Holds-ack :
      (i id t k : ℕ) (w : Option InFlight) (b : Broker E)
      → Holds i id w b
      → Leaves (Holds i id w) (enqueue_pub_ack i t k b)
  Holds-ack i id t k w b h =
      Leaves-map (Waiting i h.place h.entries) (Holds i id w) (enqueue_pub_ack i t k b)
        (λ c kept. record { place = h.place; entries = h.entries; waiting = kept; entry = h.entry })
        (enqueue_pub_ack-Waiting i h.place h.entries t k b h.waiting)
