-- ===== src/Server/Invariants/Handlers.antt =====
-- The handlers of internal/broker/client.go, and a round of `readLoop`.
use broker.Prelude.{
  ℕ, ltb, ◌==◌, if◌then◌else◌, Bytes, [], Bool, not, ◌&&◌, Option, none, some, ◌≡◌, refl, nat_eq,
}
use broker.Prelude.Maps.{lookup}
use broker.Protocol.Codes.PacketType
use broker.Protocol.Codes.{v50}
use broker.Protocol.Result
use broker.Protocol.Result.{Result}
use broker.Protocol.Ack.{decode_packet_id, encode_ack_v5}
use broker.Protocol.VarInt.{FixedHeader}
use broker.Protocol.Publish.{PublishPacket, decode_publish}
use broker.Protocol.Disconnect.{DisconnectPacket, decode_disconnect}
use broker.Session.{
  Session, InFlight, ack_in_flight, qos2_received, set_out_flight_phase, ack_out_flight,
}
use broker.Protocol.Topic.{is_empty}
use broker.Server.Deliver.{publish}
use broker.Auth.{can_publish}
use broker.Server.{Broker, Client, HandleError, graceful_disconnect}
use broker.Server.Actions.{
  Action, pure, raise, modify, run, decode, gets, ◌>>=◌, update_session, session_of_client,
}
use broker.Server.Inbound.{
  with_session, enqueue_pub_ack, resolve_publish_topic, known_topic, resolved_topic, accept_publish,
  deny_publish, if_permitted, check_publish, handle_publish, handle_puback, handle_pubrec, release,
  publish_released, handle_pubrel, handle_pubcomp, handle_disconnect, is_expired, end_gracefully,
  graceful, store_received, received_of,
}
use broker.Server.Effects.{Ends, Leaves, if-Holds, run-Ends, continue-Ends}
use broker.Server.Invariants.{
  Invariant, update_session-Invariant, enqueue_any-Leaves, publish-Leaves,
}

abbrev SameQueue : Client → Client × Result Bytes → Type 0
SameQueue c r = r.0.write_q ≡ c.write_q

known_topic-SameQueue : (alias : ℕ) (c : Client) → SameQueue c (known_topic alias c)
unfolding known_topic
known_topic-SameQueue alias c = by-cases (lookup alias c.topic_aliases)
  where
    by-cases :
        (r : Option Bytes)
        → SameQueue c (elim r [
          | none ↦ (c, Result.err Result.protocol_violation)
          | some topic ↦ (c, Result.ok topic)
        ])
    by-cases none = refl
    by-cases (some topic) = refl

resolve-SameQueue : (pkt : PublishPacket) (c : Client) → SameQueue c (resolve_publish_topic pkt c)
unfolding resolve_publish_topic
resolve-SameQueue pkt c =
    let max = c.negotiated_topic_alias_max in
    let alias = pkt.topic_alias in
    if-Holds (SameQueue c) (not (c.version == v50)) _ _ refl (
      if-Holds (SameQueue c) (ltb 0 alias && ltb 0 max && ltb max alias) _ _ refl (
        if-Holds (SameQueue c) ((max == 0) && ltb 0 alias) _ _ refl (
          if-Holds (SameQueue c) (is_empty pkt.topic) _ _ (known_topic-SameQueue alias c)
            (if-Holds (SameQueue c) (ltb 0 alias && ltb 0 max) _ _ refl refl))))

module _ {E : Type 0} where
  -- A call that keeps a property.
  pub record Keeps {A : Type 0} (P : Broker E → Type 0) (m : Action E A) : Type 0 where
    pub keeps : (b : Broker E) → P b → Ends P (m b)

  pub then-Keeps :
      (A B : Type 0) (P : Broker E → Type 0) (m : Action E A) (f : A → Action E B)
      → Keeps P m
      → ((a : A) → Keeps P (f a))
      → Keeps P (m >>= f)
  then-Keeps A B P m f h k = record {
    keeps = λ b u. continue-Ends A B P f (m b) (h.keeps b u) (λ a b₁ u₁. (k a).keeps b₁ u₁);
  }

  pub pure-Keeps : (A : Type 0) (P : Broker E → Type 0) (a : A) → Keeps P (pure {E = E} a)
  pure-Keeps A P a = record { keeps = λ b u. u }

  pub raise-Keeps :
      (A : Type 0) (P : Broker E → Type 0) (e : HandleError E) → Keeps P (raise {A = A} e)
  raise-Keeps A P e = record { keeps = λ b u. u }

  pub decode-Keeps : (A : Type 0) (P : Broker E → Type 0) (r : Result A) → Keeps P (decode r)
  decode-Keeps A P (Result.ok a) = record { keeps = λ b u. u }
  decode-Keeps A P (Result.err e) = record { keeps = λ b u. u }
  decode-Keeps A P Result.panic = record { keeps = λ b u. tt }
  decode-Keeps A P Result.hang = record { keeps = λ b u. tt }

  pub gets-Keeps : (A : Type 0) (P : Broker E → Type 0) (f : Broker E → A) → Keeps P (gets f)
  gets-Keeps A P f = record { keeps = λ b u. u }

  pub run-Keeps :
      (P : Broker E → Type 0) (f : Broker E → Option (Broker E))
      → ((b : Broker E) → P b → Leaves P (f b))
      → Keeps P (run f)
  run-Keeps P f h = record { keeps = λ b u. run-Ends P f b (h b u) }

  pub if-Keeps :
      (A : Type 0) (P : Broker E → Type 0) (c : Bool) (m k : Action E A)
      → Keeps P m
      → Keeps P k
      → Keeps P (if c then m else k)
  if-Keeps A P c m k hm hk = if-Holds (Keeps P) c m k hm hk

module _ {E : Type 0} (i : ℕ) (P : Broker E → Type 0) (inv : Invariant i P) where
  pub enqueue_pub_ack-Leaves : (t id : ℕ) (b : Broker E) → P b → Leaves P (enqueue_pub_ack i t id b)
  unfolding enqueue_pub_ack
  enqueue_pub_ack-Leaves t id b h =
      if-Holds (Leaves P) ((b.conns i).version == v50) _ _
        (enqueue_any-Leaves P inv.passive i (encode_ack_v5 t id 0 []) b h)
        (inv.stable.enqueue i _ b h)

  pub with_session-Keeps :
      (A : Type 0) (f : ℕ → Session → Action E A)
      → ((p : ℕ) (s : Session) → Keeps P (f p s))
      → Keeps P (with_session i f)
  with_session-Keeps A f h = record { keeps = λ b u. by-cases b u (session_of_client i b) }
    where
      by-cases :
          (b : Broker E) (u : P b) (r : Option (ℕ × Session))
          → Ends P (elim r [ none ↦ none | some (p, s) ↦ f p s b ])
      by-cases b u none = tt
      by-cases b u (some (p, s)) = (h p s).keeps b u

  pub modify_session-Keeps : (p : ℕ) (f : Session → Session) → Keeps P (modify (update_session p f))
  modify_session-Keeps p f = record {
    keeps = λ b u. update_session-Invariant P inv.passive p f b u;
  }

  resolved_topic-Keeps : (pkt : PublishPacket) → Keeps P (resolved_topic i pkt)
  unfolding resolved_topic
  resolved_topic-Keeps pkt = record {
    keeps = λ b u. (decode-Keeps Bytes P (resolve_publish_topic pkt (b.conns i)).1).keeps _ (
        inv.stable.client (λ _. (resolve_publish_topic pkt (b.conns i)).0) b
          (resolve-SameQueue pkt (b.conns i)) u);
  }

  publish-Keeps :
      (now : ℕ) (topic payload : Bytes) (qos : ℕ) (retain : Bool)
      → Keeps P (run (publish now topic payload qos retain))
  publish-Keeps now topic payload qos retain =
      run-Keeps P _ λ b u. publish-Leaves P inv.passive now topic payload qos retain b u

  pub_ack-Keeps : (t id : ℕ) → Keeps P (run (enqueue_pub_ack i t id))
  pub_ack-Keeps t id = run-Keeps P _ λ b u. enqueue_pub_ack-Leaves t id b u

  accept_publish-Keeps :
      (now : ℕ) (topic : Bytes) (pkt : PublishPacket) → Keeps P (accept_publish now i topic pkt)
  unfolding accept_publish
  accept_publish-Keeps now topic pkt =
      if-Keeps _ P (pkt.qos == 0) _ _ (publish-Keeps now topic _ _ _) (
        if-Keeps _ P (pkt.qos == 1) _ _
          (then-Keeps _ _ P _ _ (publish-Keeps now topic _ _ _)
            λ _. pub_ack-Keeps PacketType.puback pkt.packet_id)
          (if-Keeps _ P (pkt.qos == 2) _ _
            (with_session-Keeps _ _ λ p s.
              then-Keeps _ _ P _ _
                (modify_session-Keeps p (store_received (received_of now topic pkt)))
                λ _. pub_ack-Keeps PacketType.pubrec pkt.packet_id)
            (pure-Keeps _ P tt)))

  deny_publish-Keeps : (pkt : PublishPacket) → Keeps P (deny_publish i pkt)
  unfolding deny_publish
  deny_publish-Keeps pkt =
      if-Keeps _ P (pkt.qos == 1) _ _ (pub_ack-Keeps PacketType.puback pkt.packet_id)
        (pure-Keeps _ P tt)

  if_permitted-Keeps :
      (e : Option E) (m : Action E (Unit {0})) → Keeps P m → Keeps P (if_permitted e m)
  if_permitted-Keeps none m h = h
  if_permitted-Keeps (some e) m h = pure-Keeps _ P tt

  check_publish-Keeps :
      (now : ℕ) (topic : Bytes) (pkt : PublishPacket) → Keeps P (check_publish now i topic pkt)
  unfolding check_publish
  check_publish-Keeps now topic pkt = record {
    keeps = λ b u.
        if-Holds (Ends P) (not (can_publish (b.conns i).client_id topic b.authn)) _ _
          ((deny_publish-Keeps pkt).keeps b u)
          ((if_permitted-Keeps _ _ (accept_publish-Keeps now topic pkt)).keeps b u);
  }

  pub handle_publish-Keeps :
      (now later : ℕ) (fh : FixedHeader) (body : Bytes)
      → Keeps P (handle_publish now later i fh body)
  unfolding handle_publish
  handle_publish-Keeps now later fh body =
      then-Keeps _ _ P _ _ (gets-Keeps _ P (λ b. (b.conns i).version)) λ version.
        then-Keeps _ _ P _ _ (decode-Keeps _ P (decode_publish now version fh body)) λ pkt.
          then-Keeps _ _ P _ _ (resolved_topic-Keeps pkt) λ topic.
            if-Keeps _ P (is_expired later pkt) _ _ (pure-Keeps _ P tt)
              (check_publish-Keeps later topic pkt)

  pub handle_puback-Keeps : (body : Bytes) → Keeps P (handle_puback i body)
  unfolding handle_puback
  handle_puback-Keeps body =
      then-Keeps _ _ P _ _ (decode-Keeps _ P (decode_packet_id body))
        λ id. with_session-Keeps _ _ λ p s. modify_session-Keeps p (λ t. (ack_out_flight id t).0)

  pub handle_pubcomp-Keeps : (body : Bytes) → Keeps P (handle_pubcomp i body)
  unfolding handle_pubcomp
  handle_pubcomp-Keeps body =
      then-Keeps _ _ P _ _ (decode-Keeps _ P (decode_packet_id body))
        λ id. with_session-Keeps _ _ λ p s. modify_session-Keeps p (λ t. (ack_out_flight id t).0)

  pub handle_pubrec-Keeps : (body : Bytes) → Keeps P (handle_pubrec i body)
  unfolding handle_pubrec
  handle_pubrec-Keeps body = then-Keeps _ _ P _ _ (decode-Keeps _ P (decode_packet_id body)) λ id.
      then-Keeps _ _ P _ _
        (with_session-Keeps _ _
          λ p s. modify_session-Keeps p (set_out_flight_phase id qos2_received))
        λ _. pub_ack-Keeps PacketType.pubrel id

  publish_released-Leaves :
      (now : ℕ) (m : Option InFlight) (b : Broker E) → P b → Leaves P (publish_released now m b)
  publish_released-Leaves now none b u = u
  publish_released-Leaves now (some m) b u =
      publish-Leaves P inv.passive now m.topic m.payload _ _ b u

  release-Keeps : (now id p : ℕ) (s : Session) → Keeps P (release now id p s)
  unfolding release
  release-Keeps now id p s =
      then-Keeps _ _ P _ _ (modify_session-Keeps p (λ t. (ack_in_flight id s).0))
        λ _. run-Keeps P _ λ b u. publish_released-Leaves now (ack_in_flight id s).1 b u

  pub handle_pubrel-Keeps : (now : ℕ) (body : Bytes) → Keeps P (handle_pubrel now i body)
  unfolding handle_pubrel
  handle_pubrel-Keeps now body =
      then-Keeps _ _ P _ _ (decode-Keeps _ P (decode_packet_id body)) λ id.
        then-Keeps _ _ P _ _ (with_session-Keeps _ _ λ p s. release-Keeps now id p s)
          λ _. pub_ack-Keeps PacketType.pubcomp id

  end_gracefully-Keeps : (pkt : DisconnectPacket) → Keeps P (modify (end_gracefully i pkt))
  end_gracefully-Keeps pkt = record { keeps = λ b u. by-cases b u (session_of_client i b) }
    where
      by-cases :
          (b : Broker E) (u : P b) (r : Option (ℕ × Session))
          → P (elim r [ none ↦ b | some (p, s) ↦ update_session p (graceful pkt) b ])
      by-cases b u none = u
      by-cases b u (some (p, s)) = update_session-Invariant P inv.passive p _ b u

  pub handle_disconnect-Keeps : (body : Bytes) → Keeps P (handle_disconnect i body)
  unfolding handle_disconnect
  handle_disconnect-Keeps body =
      then-Keeps _ _ P _ _ (gets-Keeps _ P (λ b. (b.conns i).version)) λ version.
        then-Keeps _ _ P _ _ (decode-Keeps _ P (decode_disconnect version body)) λ pkt.
          then-Keeps _ _ P _ _ (end_gracefully-Keeps pkt) λ _. raise-Keeps _ P graceful_disconnect
