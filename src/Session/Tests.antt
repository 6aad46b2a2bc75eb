-- ===== src/Session/Tests.antt =====
-- Runs of the session, and the theorems at concrete sessions.
use broker.Prelude.{
  ℕ, ◌+◌, ◌*◌, ◌≤◌, ◌==◌, leb, codes, [], ◌∷◌, ◌++◌, false, not, ◌&&◌, none, some, ◌≡◌, refl, arith,
  nat_eq, bytes_eq_instance,
}
use broker.Prelude.Maps.{lookup}
use broker.Session.{
  Session, InFlight, Queued, qos2_published, next_packet_id, tracked, add_out_flight_limited,
  drain_queue, prepare_disconnect_expiry, should_expire_disconnected, second, never,
}
use broker.Session.PacketIds.{IsPacketId, next_packet_id_total}
use broker.Session.Window.{add_out_flight_limited-tracked}
use broker.Session.Queue.{newest, enqueue_all, drain_queue-enqueue_all}
use broker.Session.Expiry.{should_expire_disconnected-prepare_disconnect_expiry}
use broker.Session.Store.{new_store, get_or_create}
use broker.Session.Store.Resumed.{Handed, IsAllocated, get_or_create-Handed}

abbrev message : InFlight
message = record {
  packet_id = 1;
  topic = codes "a/b";
  payload = codes "x";
  qos = 1;
  retain = false;
  sent_at = 0;
  retries = 0;
  qos2_phase = qos2_published;
}

abbrev queued : Queued
queued = record { topic = codes "a/b"; payload = codes "x"; qos = 1; retain = false }

-- A persistent session of a MQTT 5 client with one message in flight, before the counter wraps.
abbrev session : Session
session = record {
  client_id = codes "ann";
  clean_session = false;
  connected = false;
  connected_at = 0;
  last_seen = 0;
  keep_alive = 60;
  protocol_level = 5;
  session_expiry_sec = 30;
  disconnect_expire_at = 0;
  will_topic = [];
  will_payload = [];
  will_qos = 0;
  will_retain = false;
  will_set = false;
  next_pkt_id = 4294967295;
  out_flight = (1, message) ∷ [];
  in_flight = [];
  queue = queued ∷ [];
  max_queue = 1;
}

next_packet_id_total_example :
    (next : ℕ) × (id : ℕ) × (next_packet_id session
      ≡ some (record session { next_pkt_id = next }, id))
    × IsPacketId id
    × (lookup id session.out_flight ≡ none)
next_packet_id_total_example = next_packet_id_total session (omega arith)

within : tracked session.out_flight ≤ 1
unfolding tracked
within = omega arith

add_out_flight_limited-tracked_example :
    (tracked (add_out_flight_limited message 1 session).0.out_flight ≤ 1)
    × (1 ≤ message.qos
        → tracked session.out_flight ≡ 1
        → add_out_flight_limited message 1 session ≡ (session, false))
add_out_flight_limited-tracked_example =
    add_out_flight_limited-tracked message 1 session (omega arith) within

drain_queue-enqueue_all_example :
    drain_queue (enqueue_all (queued ∷ queued ∷ []) session)
    ≡ (record session { queue = [] }, newest 1 (session.queue ++ (queued ∷ queued ∷ [])))
drain_queue-enqueue_all_example =
    drain_queue-enqueue_all (queued ∷ queued ∷ []) session refl (omega arith) (omega arith)

should_expire_disconnected-prepare_disconnect_expiry_example :
    ((prepare_disconnect_expiry 100 session).1 ≡ (30 == 0))
    × (should_expire_disconnected 30000000100 (prepare_disconnect_expiry 100 session).0
        ≡ (not (30 == 0) && not (30 == never) && leb (100 + 30 * second) 30000000100))
should_expire_disconnected-prepare_disconnect_expiry_example =
    should_expire_disconnected-prepare_disconnect_expiry 100 30000000100 session refl refl refl

new_store-IsAllocated : IsAllocated new_store
unfolding lookup
new_store-IsAllocated = record { below = λ id p h. absurd cc }

get_or_create-Handed_example :
    Handed 7 (codes "ann") false new_store (get_or_create 7 (codes "ann") false new_store)
get_or_create-Handed_example =
    get_or_create-Handed 7 (codes "ann") false new_store new_store-IsAllocated
