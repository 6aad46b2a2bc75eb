-- ===== src/Server/Released.antt =====
-- PUBREL packets that come again, in `handlePubrel` of internal/broker/client.go.
use broker.Prelude.{ℕ, Bytes, List, Option, none, some, ◌≡◌, sym, ap, ◌∙◌, nat_eq, ==_iff, arith}
use mathlib.Core.Path.{subst}
use broker.Prelude.Maps.{lookup, delete, lookup-delete, delete_absent}
use broker.Protocol.Result.{Result}
use broker.Protocol.Codes.PacketType
use broker.Protocol.Ack.{decode_packet_id}
use broker.Session.{Session, InFlight, ack_in_flight}
use broker.Server.{Broker}
use broker.Server.Actions.{Outcome, done, run, modify_at, update_session, deref, continue}
use broker.Server.Inbound.{enqueue_pub_ack, release, publish_released, handle_pubrel, with_session}
use broker.Server.Effects.{Ends, Leaves, run-Ends, continue-Ends}
use broker.Server.Quiet.{session-cases, publish-Quiet}
use broker.Server.Waiting.{
  Waiting, Waiting-Quiet, written-Waiting, found_session, Holds, Holds-ack, Leaves-map,
  some_injective, modify_at_same,
}

module _ {E : Type 0} where
  publish_released-Waiting :
      (i p now : ℕ) (m : List (ℕ × InFlight)) (w : Option InFlight) (b : Broker E)
      → Waiting i p m b
      → Leaves (Waiting i p m) (publish_released now w b)
  publish_released-Waiting i p now m none b h = h
  publish_released-Waiting i p now m (some w) b h =
      publish-Quiet (Waiting i p m) (Waiting-Quiet i p m) now w.topic w.payload w.qos w.retain b h

  release-Holds :
      (now i id p : ℕ) (s : Session) (b : Broker E)
      → (b.conns i).sess ≡ some p
      → deref p b ≡ some s
      → Ends (Holds i id none) (release now id p s b)
  unfolding release ack_in_flight
  release-Holds now i id p s b pointer found =
      let left = delete id s.in_flight in
      let after = update_session p (λ t. record s { in_flight = left }) b in
      run-Ends (Holds i id none) (publish_released now (lookup id s.in_flight)) after (
        Leaves-map (Waiting i p left) (Holds i id none) _
          (λ c h. record {
            place = p;
            entries = left;
            waiting = h;
            entry = lookup-delete id id s.in_flight ∙ ground (arith, ==_iff id id);
          })
          (publish_released-Waiting i p now left (lookup id s.in_flight) after
            (written-Waiting i p (λ t. record s { in_flight = left }) s b pointer found)))

  handle_pubrel-Holds :
      (now i id : ℕ) (body : Bytes) (b : Broker E)
      → decode_packet_id body ≡ Result.ok id
      → Ends (Holds i id none) (handle_pubrel now i body b)
  unfolding handle_pubrel
  handle_pubrel-Holds now i id body b decoded = rw decoded (
      continue-Ends (Unit {0}) (Unit {0}) (Holds i id none)
        (λ _. run (enqueue_pub_ack i PacketType.pubcomp id)) (with_session i (release now id) b)
        (session-cases i b
          (λ r.
            Ends (Holds i id none) (elim r [ none ↦ none | some (p, s) ↦ release now id p s b ]))
          tt (λ p s pointer found. release-Holds now i id p s b pointer found))
        (λ a c h.
          run-Ends (Holds i id none) (enqueue_pub_ack i PacketType.pubcomp id) c
            (Holds-ack i id PacketType.pubcomp id none c h)))

  release_nothing :
      (later i id : ℕ) (b : Broker E)
      → Holds i id none b
      → with_session i (release later id) b ≡ some (b, done tt)
  unfolding release ack_in_flight update_session
  release_nothing later i id b h =
      let (s, found, same, there) = found_session i h.place h.entries b h.waiting in
      let none_left : lookup id s.in_flight ≡ none = ap (lookup id) same ∙ h.entry in
      let kept : modify_at h.place (λ t. record s { in_flight = delete id s.in_flight })
            b.sessions.heap
          ≡ b.sessions.heap =
        modify_at_same h.place _ b.sessions.heap (λ t e.
          ap (λ x. record s { in_flight = x }) (delete_absent id s.in_flight none_left)
          ∙ some_injective (sym found ∙ e)) in
      ap (λ r. elim r [ none ↦ none | some (p, u) ↦ release later id p u b ]) there
      ∙ ap
          (λ w.
            run (publish_released later w)
              (update_session h.place (λ t. record s { in_flight = delete id s.in_flight }) b))
          none_left
      ∙ ap (λ heap. some (record b { sessions = record b.sessions { heap = heap } }, done tt)) kept

  -- After a PUBREL that `handlePubrel` has handled, whatever it published and to whom, a PUBREL
  -- with the same identifier that comes next does nothing to the broker but to send its PUBCOMP.
  pub handle_pubrel-again :
      (now later i id : ℕ) (body : Bytes) (b b' : Broker E) (o : Outcome E (Unit {0}))
      → decode_packet_id body ≡ Result.ok id
      → handle_pubrel now i body b ≡ some (b', o)
      → handle_pubrel later i body b' ≡ run (enqueue_pub_ack i PacketType.pubcomp id) b'
  unfolding handle_pubrel
  handle_pubrel-again now later i id body b b' o decoded e =
      let settled =
        subst (Ends (Holds i id none)) e (handle_pubrel-Holds now i id body b decoded) in
      rw decoded (
        ap (continue (λ _. run (enqueue_pub_ack i PacketType.pubcomp id)))
          (release_nothing later i id b' settled))
