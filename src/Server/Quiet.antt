-- ===== src/Server/Quiet.antt =====
-- The router's deliveries in internal/broker/client.go write to sessions, but never to what is
-- received and waits for its PUBREL.
use broker.Prelude.{
  ℕ, ltb, leb, ◌==◌, ◌&&◌, if◌then◌else◌, Bytes, List, [], ◌∷◌, Bool, true, false, not, Option,
  none, some, ◌≡◌, refl, sym, ap, ◌∙◌,
}
use broker.Router.Engine.{Router, Delivery}
use broker.Session
use broker.Session.{
  Session, InFlight, tracked, add_out_flight, next_packet_id, next_packet_id_loop,
  add_out_flight_limited,
}
use broker.Server.{Broker, is_connected}
use broker.Server.Actions
use broker.Server.Actions.{update_session, session_of_client, session_at, deref}
use broker.Server.Deliver.{
  queue_offline, send_publish, send_tracked, send_acknowledged, is_too_large, deliver, deliver_each,
  publish, in_flight_of, receive_limit, queued_of,
}
use broker.Server.Effects.{Leaves, if-Holds}

in_flight-enqueue :
    (m : Session.Queued) (s : Session) → (Session.enqueue m s).0.in_flight ≡ s.in_flight
unfolding Session.enqueue
in_flight-enqueue m s =
    if-Holds {X = Session × Bool} (λ r. r.0.in_flight ≡ s.in_flight) s.clean_session _ _ refl refl

in_flight-add_out_flight_limited :
    (m : InFlight) (max : ℕ) (s : Session)
    → (add_out_flight_limited m max s).0.in_flight ≡ s.in_flight
unfolding add_out_flight_limited
in_flight-add_out_flight_limited m max s =
    let Same : Session × Bool → Type 0 = λ r. r.0.in_flight ≡ s.in_flight in
    if-Holds Same (m.qos == 0) (s, true) _ refl
      (if-Holds Same (ltb 0 max && leb max (tracked s.out_flight)) (s, false)
        (add_out_flight m s, true) refl refl)

abbrev SameInFlight : Session → Option (Session × ℕ) → Type 0
SameInFlight s none = Unit
SameInFlight s (some (s', id)) = s'.in_flight ≡ s.in_flight

next_packet_id-SameInFlight : (s : Session) → SameInFlight s (next_packet_id s)
unfolding next_packet_id
next_packet_id-SameInFlight s =
    by-cases (next_packet_id_loop Session.packet_id_fuel s.next_pkt_id s.out_flight)
  where
    by-cases : (r : Option (ℕ × ℕ)) → SameInFlight s (Session.with_counter s r)
    by-cases none = tt
    by-cases (some (next, id)) = refl

some_in_flight : {s t : Session} → some s ≡ some t → s.in_flight ≡ t.in_flight
some_in_flight {s} {t} e = ap (λ r. elim r [ none ↦ s.in_flight | some u ↦ u.in_flight ]) e

module _ {E : Type 0} where
  -- A property that holds as long as no write to a session touches the messages in flight.
  pub record Quiet (P : Broker E → Type 0) : Type 0 where
    pub enqueue : (j : ℕ) (packet : Bytes) (b : Broker E) → P b → P (Actions.enqueue j packet b)
    pub router : (r : Router) (b : Broker E) → P b → P (record b { router = r })
    pub session :
        (q : ℕ) (f : Session → Session) (b : Broker E)
        → ((s : Session) → deref q b ≡ some s → (f s).in_flight ≡ s.in_flight)
        → P b
        → P (update_session q f b)

  -- The session of a connection: none, or the one that its pointer finds.
  pub session-cases :
      (j : ℕ) (b : Broker E) (Q : Option (ℕ × Session) → Type 0)
      → Q none
      → ((p : ℕ) (s : Session) → (b.conns j).sess ≡ some p → deref p b ≡ some s → Q (some (p, s)))
      → Q (session_of_client j b)
  session-cases j b Q nothing found = by-pointer (b.conns j).sess refl
    where
      by-session :
          (p : ℕ)
          → (b.conns j).sess ≡ some p
          → (r : Option Session) → deref p b ≡ r
          → Q (elim r [ none ↦ none | some s ↦ some (p, s) ])
      by-session p at none e = nothing
      by-session p at (some s) e = found p s at e

      by-pointer : (q : Option ℕ) → (b.conns j).sess ≡ q → Q (session_at q b)
      by-pointer none e = nothing
      by-pointer (some p) e = by-session p e (deref p b) refl

module _ {E : Type 0} (P : Broker E → Type 0) (inv : Quiet P) where
  queue_offline-Quiet : (d : Delivery) (b : Broker E) → P b → P (queue_offline d b)
  unfolding queue_offline
  queue_offline-Quiet d b h = by-cases (session_of_client d.sink b)
    where
      by-cases :
          (r : Option (ℕ × Session))
          → P (elim r [
            | none ↦ b
            | some (p, s) ↦
                if s.clean_session
                then b
                else update_session p (λ t. (Session.enqueue (queued_of d) t).0) b
          ])
      by-cases none = h
      by-cases (some (p, s)) =
          if-Holds P s.clean_session _ _ h
            (inv.session p _ b (λ t e. in_flight-enqueue (queued_of d) t) h)

  send_publish-Quiet : (id : ℕ) (d : Delivery) (b : Broker E) → P b → Leaves P (send_publish id d b)
  unfolding send_publish
  send_publish-Quiet id d b h = by-cases _
    where
      by-cases : (packet : Option Bytes) → Leaves P (Actions.enqueue_packet d.sink packet b)
      by-cases none = tt
      by-cases (some packet) = inv.enqueue d.sink packet b h

  send_tracked-Quiet :
      (now : ℕ) (d : Delivery) (p : ℕ) (s : Session) (numbered : Session × ℕ) (b : Broker E)
      → deref p b ≡ some s
      → numbered.0.in_flight ≡ s.in_flight
      → P b
      → Leaves P (send_tracked now d p numbered b)
  unfolding send_tracked
  send_tracked-Quiet now d p s (s', id) b found same h =
      let limited =
        add_out_flight_limited (in_flight_of now id d) (receive_limit (b.conns d.sink)) s' in
      let kept : (t : Session) → deref p b ≡ some t → limited.0.in_flight ≡ t.in_flight = λ t e.
        in_flight-add_out_flight_limited (in_flight_of now id d) (receive_limit (b.conns d.sink)) s'
        ∙ same
        ∙ some_in_flight (sym found ∙ e) in
      let h' = inv.session p (λ t. limited.0) b kept h in
      if-Holds (Leaves P) limited.1 _ _ (send_publish-Quiet id d _ h') (queue_offline-Quiet d _ h')

  send_acknowledged-Quiet :
      (now : ℕ) (d : Delivery) (b : Broker E) → P b → Leaves P (send_acknowledged now d b)
  unfolding send_acknowledged
  send_acknowledged-Quiet now d b h =
      session-cases d.sink b
        (λ r. Leaves P (elim r [
          | none ↦ none
          | some (p, s) ↦ elim (next_packet_id s) [
            | none ↦ none
            | some numbered ↦ send_tracked now d p numbered b
          ]
        ]))
        tt (λ p s at found. numbered p s found (next_packet_id s) (next_packet_id-SameInFlight s))
    where
      numbered :
          (p : ℕ) (s : Session)
          → deref p b ≡ some s
          → (r : Option (Session × ℕ)) → SameInFlight s r
          → Leaves P (elim r [ none ↦ none | some n ↦ send_tracked now d p n b ])
      numbered p s found none same = tt
      numbered p s found (some n) same = send_tracked-Quiet now d p s n b found same h

  pub deliver-Quiet : (now : ℕ) (d : Delivery) (b : Broker E) → P b → Leaves P (deliver now d b)
  unfolding deliver
  deliver-Quiet now d b h =
      if-Holds (Leaves P) (not (is_connected (b.conns d.sink).state)) _ _
        (queue_offline-Quiet d b h)
        (if-Holds (Leaves P) (is_too_large (b.conns d.sink) d) _ _ (queue_offline-Quiet d b h) (
          if-Holds (Leaves P) (ltb 0 d.qos) _ _ (send_acknowledged-Quiet now d b h)
            (send_publish-Quiet 0 d b h)))

  pub deliver_each-Quiet :
      (now : ℕ) (ds : List Delivery) (b : Broker E) → P b → Leaves P (deliver_each now ds b)
  unfolding deliver_each
  deliver_each-Quiet now [] b h = h
  deliver_each-Quiet now (d ∷ ds) b h =
      rest (deliver now d b) (deliver-Quiet now d b h) λ b' k. deliver_each-Quiet now ds b' k
    where
      rest :
          (r : Option (Broker E))
          → Leaves P r
          → ((b' : Broker E) → P b' → Leaves P (deliver_each now ds b'))
          → Leaves P (elim r [ none ↦ none | some b' ↦ deliver_each now ds b' ])
      rest none k later = tt
      rest (some b') k later = later b' k

  pub publish-Quiet :
      (now : ℕ) (topic payload : Bytes) (qos : ℕ) (retain : Bool) (b : Broker E)
      → P b
      → Leaves P (publish now topic payload qos retain b)
  unfolding publish
  publish-Quiet now topic payload qos retain b h = deliver_each-Quiet now _ _ (inv.router _ b h)
