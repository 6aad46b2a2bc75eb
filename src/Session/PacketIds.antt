-- ===== src/Session/PacketIds.antt =====
-- The identifiers that `NextPacketID` of internal/session/session.go gives.
use broker.Prelude.{
  ℕ, zero, suc, ◌+◌, ◌-◌, ◌%◌, ◌^◌, ◌≤◌, ◌<◌, List, [], ◌∷◌, Option, none, some, length, ◌≡◌, refl,
  arith, Option-cases, inl, inr, nat_eq,
}
use broker.Prelude.Maps.{lookup, delete, lookup-delete, length-delete-le}
use broker.Session.{
  Session, InFlight, packet_id_of, next_packet_id_loop, packet_id_fuel, with_counter,
  next_packet_id,
}

-- A message identifier that MQTT allows.
abbrev pub IsPacketId : ℕ → Type 0
IsPacketId id = (1 ≤ id) × (id < 65536)

packet_id_of-IsPacketId : (next : ℕ) → IsPacketId (packet_id_of next)
unfolding packet_id_of
packet_id_of-IsPacketId next = (ground arith, ground arith)

-- What a run of the loop gives.
abbrev Found : List (ℕ × InFlight) → Option (ℕ × ℕ) → Type 0
Found out none = ⊥
Found out (some (next, id)) = IsPacketId id × (lookup id out ≡ none)

packet_id_of-step :
    (counter id : ℕ)
    → IsPacketId id
    → (counter + 1) % 65536 ≡ id
    → packet_id_of ((counter + 1) % 2 ^ 32) ≡ id
unfolding packet_id_of
packet_id_of-step counter id allowed there = ground arith

closer :
    (counter d id : ℕ)
    → 1 ≤ d
    → (counter + d) % 65536 ≡ id
    → ((counter + 1) % 2 ^ 32 + (d - 1)) % 65536 ≡ id
closer counter d id ahead there = omega arith

-- The free identifier stands `d` steps ahead of the counter.
next_packet_id_loop-Found :
    (fuel d counter id : ℕ) (out : List (ℕ × InFlight))
    → IsPacketId id
    → lookup id out ≡ none
    → 1 ≤ d
    → d ≤ fuel
    → (counter + d) % 65536 ≡ id
    → Found out (next_packet_id_loop fuel counter out)
unfolding next_packet_id_loop
next_packet_id_loop-Found zero d counter id out allowed free ahead fits there = absurd (omega arith)
next_packet_id_loop-Found (suc fuel) d counter id out allowed free ahead fits there =
    let next = (counter + 1) % 2 ^ 32 in
    elim (Option-cases (lookup (packet_id_of next) out)) [
      | inl unused ↦ rw (unused, next_packet_id_loop) (packet_id_of-IsPacketId next, unused)
      | inr (msg, used) ↦
          rw (used, next_packet_id_loop)
            (next_packet_id_loop-Found fuel (d - 1) next id out allowed free
              (ground (arith, packet_id_of-step counter id allowed)) (omega arith)
              (closer counter d id ahead there))
    ]

next_packet_id_loop-free :
    (counter id : ℕ) (out : List (ℕ × InFlight))
    → IsPacketId id
    → lookup id out ≡ none
    → Found out (next_packet_id_loop packet_id_fuel counter out)
next_packet_id_loop-free counter id out allowed free =
    next_packet_id_loop-Found packet_id_fuel (65536 - (counter + 65536 - id) % 65536) counter id out
      allowed free (omega arith) (omega arith) (omega arith)

delete_found :
    (id : ℕ) (msg : InFlight) (out : List (ℕ × InFlight))
    → lookup id out ≡ some msg
    → length (delete id out) + 1 ≤ length out
unfolding lookup delete
delete_found id msg [] h = cc
delete_found id msg ((j, m) ∷ out) h =
    ground (arith, delete_found id msg out, length-delete-le {V = InFlight} id out)

-- Of the identifiers up to `k`, one is free if fewer than `k` messages are in flight.
free_id :
    (k : ℕ) (out : List (ℕ × InFlight))
    → length out < k
    → (id : ℕ) × (1 ≤ id) × (id ≤ k) × (lookup id out ≡ none)
free_id zero out few = absurd (omega arith)
free_id (suc k) out few = elim (Option-cases (lookup (suc k) out)) [
  | inl free ↦ (suc k, omega arith, omega arith, free)
  | inr (msg, used) ↦
      let (id, low, high, free) =
        free_id k (delete (suc k) out) (omega (arith, delete_found (suc k) msg out used)) in
      (id, low, omega arith, ground (arith, lookup-delete {V = InFlight} (suc k) id out))
]

with_counter-Found :
    (s : Session) (o : Option (ℕ × ℕ))
    → Found s.out_flight o
    → (next : ℕ) × (id : ℕ) × (with_counter s o ≡ some (record s { next_pkt_id = next }, id))
      × IsPacketId id
      × (lookup id s.out_flight ≡ none)
with_counter-Found s none h = absurd h
with_counter-Found s (some (next, id)) (allowed, free) = (next, id, refl, allowed, free)

-- With fewer than 65535 messages in flight, the loop of `NextPacketID` ends within 65536 rounds,
-- whatever the counter is: it gives an identifier from 1 to 65535 that no message in flight has,
-- and only the counter of the session changes.
pub next_packet_id_total :
    (s : Session)
    → length s.out_flight < 65535
    → (next : ℕ) × (id : ℕ) × (next_packet_id s ≡ some (record s { next_pkt_id = next }, id))
      × IsPacketId id
      × (lookup id s.out_flight ≡ none)
unfolding next_packet_id
next_packet_id_total s few =
    let (id, low, high, free) = free_id 65535 s.out_flight few in
    with_counter-Found s _
      (next_packet_id_loop-free s.next_pkt_id id s.out_flight (low, omega arith) free)
