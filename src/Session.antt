-- ===== src/Session.antt =====
-- `Session` of internal/session/session.go and its operations. Each operation runs alone, as the
-- mutexes make it. An instant is its number of nanoseconds since Go's zero time; `time.Now()` is an
-- argument.
pub mod PacketIds
pub mod Window
pub mod Queue
pub mod Expiry
pub mod Store
mod Tests
use broker.Prelude.{
  ℕ, zero, suc, ◌+◌, ◌*◌, ◌%◌, ◌^◌, ◌==◌, ltb, leb, if◌then◌else◌, Bytes, List, [], ◌∷◌, ◌++◌, Bool,
  true, false, not, ◌&&◌, ◌||◌, Option, none, some, length, drop, nat_eq,
}
use broker.Prelude.Maps.{lookup, insert, delete}

pub data QoS2Phase : Type 0 where
  qos2_published : QoS2Phase
  qos2_received : QoS2Phase
  qos2_released : QoS2Phase

pub record InFlight : Type 0 where
  pub packet_id : ℕ
  pub topic : Bytes
  pub payload : Bytes
  pub qos : ℕ
  pub retain : Bool
  pub sent_at : ℕ
  pub retries : ℕ
  pub qos2_phase : QoS2Phase

pub record Queued : Type 0 where
  pub topic : Bytes
  pub payload : Bytes
  pub qos : ℕ
  pub retain : Bool

pub record Session : Type 0 where
  pub client_id : Bytes
  pub clean_session : Bool
  pub connected : Bool
  pub connected_at : ℕ
  pub last_seen : ℕ
  pub keep_alive : ℕ
  pub protocol_level : ℕ
  pub session_expiry_sec : ℕ
  pub disconnect_expire_at : ℕ
  pub will_topic : Bytes
  pub will_payload : Bytes
  pub will_qos : ℕ
  pub will_retain : Bool
  pub will_set : Bool
  pub next_pkt_id : ℕ
  pub out_flight : List (ℕ × InFlight)
  pub in_flight : List (ℕ × InFlight)
  pub queue : List Queued
  pub max_queue : ℕ

abbrev pub default_max_queue : ℕ
default_max_queue = 1000

unfoldable pub new : ℕ → Bytes → Bool → Session
new now client_id clean_session = record {
  client_id = client_id;
  clean_session = clean_session;
  connected = false;
  connected_at = now;
  last_seen = now;
  keep_alive = 0;
  protocol_level = 0;
  session_expiry_sec = 0;
  disconnect_expire_at = 0;
  will_topic = [];
  will_payload = [];
  will_qos = 0;
  will_retain = false;
  will_set = false;
  next_pkt_id = 0;
  out_flight = [];
  in_flight = [];
  queue = [];
  max_queue = default_max_queue;
}

-- `SetConnected`; the two clock readings are taken as one.
unfoldable pub set_connected : ℕ → Bool → Session → Session
set_connected now c s = record s {
  connected = c;
  last_seen = now;
  connected_at = if c then now else s.connected_at;
}

abbrev pub touch : ℕ → Session → Session
touch now s = record s { last_seen = now }

abbrev pub set_keep_alive : ℕ → Session → Session
set_keep_alive ka s = record s { keep_alive = ka }

abbrev pub clear_disconnect_expiry : Session → Session
clear_disconnect_expiry s = record s { disconnect_expire_at = 0 }

unfoldable pub set_protocol_and_expiry : ℕ → Bool → ℕ → Session → Session
set_protocol_and_expiry version clean sec s =
    let s' = record s { protocol_level = version } in
    if (version == 5) && not clean
    then record s' { session_expiry_sec = sec }
    else if clean
    then record s' { session_expiry_sec = 0; disconnect_expire_at = 0 }
    else s'

abbrev pub update_session_expiry_from_disconnect : ℕ → Session → Session
update_session_expiry_from_disconnect sec s = record s { session_expiry_sec = sec }

-- `^uint32(0)`
abbrev pub never : ℕ
never = 4294967295

-- `time.Second`
abbrev pub second : ℕ
second = 1000000000

-- The session afterwards, and whether it must be purged at once.
unfoldable pub prepare_disconnect_expiry : ℕ → Session → Session × Bool
prepare_disconnect_expiry now s =
    if s.clean_session || not (s.protocol_level == 5)
    then (s, false)
    else if s.session_expiry_sec == 0
    then (record s { disconnect_expire_at = 0 }, true)
    else if s.session_expiry_sec == never
    then (record s { disconnect_expire_at = 0 }, false)
    else (record s { disconnect_expire_at = now + s.session_expiry_sec * second }, false)

unfoldable pub should_expire_disconnected : ℕ → Session → Bool
should_expire_disconnected now s =
    if s.connected || s.clean_session
    then false
    else not (s.disconnect_expire_at == 0) && not (ltb now s.disconnect_expire_at)

-- `id := uint16(next)`, and 1 in place of 0.
unfoldable pub packet_id_of : ℕ → ℕ
packet_id_of next = let id = next % 2 ^ 16 in if id == 0 then 1 else id

-- The loop of `NextPacketID` on the counter: the counter afterwards, and the identifier. `none` is a
-- loop that the fuel does not finish.
unfoldable pub next_packet_id_loop : ℕ → ℕ → List (ℕ × InFlight) → Option (ℕ × ℕ)
unfolding packet_id_of
next_packet_id_loop zero counter out = none
next_packet_id_loop (suc fuel) counter out =
    let next = (counter + 1) % 2 ^ 32 in
    let rest = next_packet_id_loop fuel next out in
    elim (lookup (packet_id_of next) out) [ none ↦ some (next, packet_id_of next) | some _ ↦ rest ]

abbrev pub packet_id_fuel : ℕ
packet_id_fuel = 65536

abbrev pub with_counter : Session → Option (ℕ × ℕ) → Option (Session × ℕ)
with_counter s none = none
with_counter s (some (next, id)) = some (record s { next_pkt_id = next }, id)

unfoldable pub next_packet_id : Session → Option (Session × ℕ)
unfolding next_packet_id_loop
next_packet_id s = with_counter s (next_packet_id_loop packet_id_fuel s.next_pkt_id s.out_flight)

abbrev pub add_out_flight : InFlight → Session → Session
add_out_flight msg s = record s { out_flight = insert msg.packet_id msg s.out_flight }

-- The messages with a QoS above 0.
unfoldable pub tracked : List (ℕ × InFlight) → ℕ
tracked [] = 0
tracked ((id, m) ∷ out) = (if ltb 0 m.qos then 1 else 0) + tracked out

unfoldable pub add_out_flight_limited : InFlight → ℕ → Session → Session × Bool
unfolding tracked
add_out_flight_limited msg receive_max s =
    if msg.qos == 0
    then (s, true)
    else if ltb 0 receive_max && leb receive_max (tracked s.out_flight)
    then (s, false)
    else (add_out_flight msg s, true)

unfoldable pub get_out_flight : ℕ → Session → Option InFlight
get_out_flight id s = lookup id s.out_flight

unfoldable pub ack_out_flight : ℕ → Session → Session × Option InFlight
ack_out_flight id s = (record s { out_flight = delete id s.out_flight }, lookup id s.out_flight)

unfoldable pub set_out_flight_phase : ℕ → QoS2Phase → Session → Session
set_out_flight_phase id phase s = elim (lookup id s.out_flight) [
  | none ↦ s
  | some msg ↦ record s { out_flight = insert id (record msg { qos2_phase = phase }) s.out_flight }
]

unfoldable pub add_in_flight : InFlight → Session → Session
add_in_flight msg s = record s { in_flight = insert msg.packet_id msg s.in_flight }

unfoldable pub get_in_flight : ℕ → Session → Option InFlight
get_in_flight id s = lookup id s.in_flight

unfoldable pub ack_in_flight : ℕ → Session → Session × Option InFlight
ack_in_flight id s = (record s { in_flight = delete id s.in_flight }, lookup id s.in_flight)

-- `s.queue[1:]` when the queue is full. `max_queue` is above 0, as `New` sets it, so that the slice
-- is in range.
abbrev pub make_room : ℕ → List Queued → List Queued
make_room max_queue queue = if leb max_queue (length queue) then drop 1 queue else queue

-- The session afterwards, and false if the message was dropped.
unfoldable pub enqueue : Queued → Session → Session × Bool
enqueue msg s =
    if s.clean_session
    then (s, false)
    else (record s { queue = make_room s.max_queue s.queue ++ (msg ∷ []) }, true)

unfoldable pub drain_queue : Session → Session × List Queued
drain_queue s = (record s { queue = [] }, s.queue)

unfoldable pub clear : Session → Session
clear s = record s { out_flight = []; in_flight = []; queue = []; will_set = false }
