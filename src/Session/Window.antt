-- ===== src/Session/Window.antt =====
-- The window of outbound messages of internal/session/session.go.
use broker.Prelude.{
  ℕ, ◌+◌, ◌≤◌, ◌==◌, if◌then◌else◌, List, [], ◌∷◌, false, none, ◌≡◌, refl, arith, nat_eq,
}
use broker.Prelude.Maps.{insert, lookup-delete}
use broker.Session.{
  Session, InFlight, tracked, add_out_flight_limited, ack_out_flight, get_out_flight,
}

tracked-insert :
    (id : ℕ) (msg : InFlight) (out : List (ℕ × InFlight))
    → tracked (insert id msg out) ≤ tracked out + 1
unfolding tracked insert
tracked-insert id msg [] = ground arith
tracked-insert id msg ((j, m) ∷ out) = ground (arith, tracked-insert id msg out)

-- With a Receive Maximum of at least 1 and at most that many messages of QoS above 0 in flight,
-- `AddOutFlightLimited` leaves at most that many in flight; and if the window is full it refuses a
-- message of QoS above 0 and changes nothing.
pub add_out_flight_limited-tracked :
    (msg : InFlight) (receive_max : ℕ) (s : Session)
    → 1 ≤ receive_max
    → tracked s.out_flight ≤ receive_max
    → (tracked (add_out_flight_limited msg receive_max s).0.out_flight ≤ receive_max)
      × (1 ≤ msg.qos
          → tracked s.out_flight ≡ receive_max
          → add_out_flight_limited msg receive_max s ≡ (s, false))
unfolding add_out_flight_limited
add_out_flight_limited-tracked msg receive_max s some_max within = (
  ground (arith, tracked-insert msg.packet_id msg s.out_flight),
  λ tracked_qos full. ground arith,
)

-- `AckOutFlight` returns the message that was in flight under its identifier; afterwards nothing
-- is in flight under that identifier, and what is in flight under every other one is as it was.
pub get_out_flight-ack_out_flight :
    (id j : ℕ) (s : Session)
    → ((ack_out_flight id s).1 ≡ get_out_flight id s)
      × (get_out_flight j (ack_out_flight id s).0 ≡ (if id == j then none else get_out_flight j s))
unfolding ack_out_flight get_out_flight
get_out_flight-ack_out_flight id j s = (refl, lookup-delete {V = InFlight} id j s.out_flight)
