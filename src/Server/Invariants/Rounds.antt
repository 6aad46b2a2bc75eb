-- ===== src/Server/Invariants/Rounds.antt =====
-- `handleConnect`, the dispatch and a round of `readLoop` of
-- internal/broker/client.go.
use broker.Prelude.{
  ℕ, ◌==◌, if◌then◌else◌, Bytes, [], Bool, true, false, not, ◌&&◌, Option, none, some, ◌≡◌, refl,
  bytes_eq_instance,
}
use broker.Prelude.Maps.{lookup}
use broker.Protocol.Codes.PacketType
use broker.Protocol.Codes.{v50}
use broker.Protocol.Result.{Result}
use broker.Protocol.Topic.{is_empty}
use broker.Protocol.Ack.{pingresp, encode_disconnect_v311}
use broker.Protocol.VarInt.{FixedHeader, read_fixed}
use broker.Protocol.Subscribe.{}
use broker.Protocol.Disconnect.{encode_disconnect_v5}
use broker.Protocol.Connack.{encode_connack, encode_connack_v5}
use broker.Protocol.Connect.{ConnectPacket, decode_connect}
use broker.Session.{touch}
use broker.Session.Store.{get_or_create}
use broker.Server.{
  BrokerConfig, Task, restore_session, drain_offline_queue, Broker, Client, rate_limited,
  unexpected_packet, is_handshaking,
}
use broker.Server.Actions
use broker.Server.Actions.{
  Action, Outcome, done, failed, pure, raise, modify, run, decode, gets, ◌>>=◌, ◌>>◌, continue,
  update_client, update_session, session_of_client, add_task,
}
use broker.Server.Lifecycle.{takeover, close_conn, register, without_will}
use broker.Server.Connect.{negotiated, prepared, connack_v5_from_config}
use broker.Server.Handshake.{
  Crypto, handle_connect, accept_client, establish, established, established_session, send_connack,
  start_tasks,
}
use broker.Server.Subscriptions.{}
use broker.Server.Handle.{
  Round, stop, read_body, send_quota_exceeded, handle_pingreq, dispatch, handle, after_handler,
  read_packet, read_round, reason_quota_exceeded,
}
use broker.Server.Effects.{
  Ends, Leaves, if-Holds, decoded_connect-Ends, auth_certificate-Ends, auth_credentials-Ends,
  choose_client_id-Ends, ask_hooks-Ends,
}
use broker.Server.Invariants.{
  Invariant, update_session-Invariant, enqueue_any-Leaves, session-Leaves,
}
use broker.Server.Invariants.Handlers.{
  Keeps, then-Keeps, run-Keeps, if-Keeps, raise-Keeps, with_session-Keeps, modify_session-Keeps,
  handle_publish-Keeps, handle_puback-Keeps, handle_pubrec-Keeps, handle_pubrel-Keeps,
  handle_pubcomp-Keeps, handle_disconnect-Keeps,
}
use broker.Server.Invariants.Subscriptions.{
  LeavesWith, handle_subscribe-Keeps, handle_unsubscribe-Keeps,
}

negotiated-write_q :
    (bc : BrokerConfig) (pkt : ConnectPacket) (c : Client)
    → (negotiated bc pkt c).write_q ≡ c.write_q
unfolding negotiated
negotiated-write_q bc pkt c =
    if-Holds {X = Client} (λ d. d.write_q ≡ c.write_q) (pkt.version == v50) _ _ refl refl

module _ {E : Type 0} (i : ℕ) (P : Broker E → Type 0) (inv : Invariant i P) where
  takeover-Leaves : (client_id : Bytes) (b : Broker E) → P b → Leaves P (takeover client_id b)
  unfolding takeover
  takeover-Leaves client_id b h = by-cases (lookup client_id b.clients)
    where
      by-cases :
          (r : Option ℕ)
          → Leaves P (elim r [
            | none ↦ some b
            | some j ↦ elim (session_of_client j b) [
              | none ↦ none
              | some (p, s) ↦ some (update_client j close_conn (update_session p without_will b))
            ]
          ])
      by-cases none = h
      by-cases (some j) =
          session-Leaves P inv.passive j b none _ tt
            λ p s. inv.close j _ (update_session-Invariant P inv.passive p without_will b h)

  establish-Invariant :
      (now : ℕ) (client_id : Bytes) (pkt : ConnectPacket) (b : Broker E)
      → P b
      → P (establish now i client_id pkt b).0
  unfolding establish register
  establish-Invariant now client_id pkt b h =
      let found = get_or_create now client_id pkt.conn_flags.clean_session b.sessions in
      inv.clients _ _ (
        inv.stable.client (λ c. established pkt found.1 (negotiated b.cfg pkt c)) _
          (negotiated-write_q b.cfg pkt _)
          (update_session-Invariant P inv.passive found.1 (prepared now pkt) _
            (inv.passive.sessions found.0 b h)))

  send_connack-Leaves : (present : Bool) (b : Broker E) → P b → Leaves P (send_connack i present b)
  unfolding send_connack
  send_connack-Leaves present b h =
      if-Holds (Leaves P) ((b.conns i).version == v50) _ _
        (enqueue_any-Leaves P inv.passive i
          (encode_connack_v5 present 0
            (connack_v5_from_config b.cfg (b.conns i).negotiated_topic_alias_max))
          b h)
        (inv.stable.enqueue i (encode_connack present 0) b h)

  add_task-Invariant : (t : Task) (b : Broker E) → P b → P (add_task t b)
  add_task-Invariant t b h = inv.tasks _ b h

  start_tasks-Invariant : (resumed : Bool) (b : Broker E) → P b → P (start_tasks i resumed b)
  unfolding start_tasks
  start_tasks-Invariant true b h =
      add_task-Invariant (drain_offline_queue i) _ (add_task-Invariant (restore_session i) b h)
  start_tasks-Invariant false b h = add_task-Invariant (drain_offline_queue i) b h

  start_tasks-Keeps : (resumed : Bool) → Keeps P (modify (start_tasks i resumed))
  start_tasks-Keeps resumed = record { keeps = λ b u. start_tasks-Invariant resumed b u }

  established_session-Keeps :
      (now : ℕ) (client_id : Bytes) (pkt : ConnectPacket)
      → Keeps P (established_session now i client_id pkt)
  established_session-Keeps now client_id pkt = record {
    keeps = λ b u. establish-Invariant now client_id pkt b u;
  }

  accept_client-Keeps :
      (now : ℕ) (client_id : Bytes) (pkt : ConnectPacket)
      → Keeps P (accept_client now i client_id pkt)
  unfolding accept_client
  accept_client-Keeps now client_id pkt =
      then-Keeps _ _ P _ _ (run-Keeps P (takeover client_id) (takeover-Leaves client_id)) λ _.
        then-Keeps _ _ P _ _ (established_session-Keeps now client_id pkt) λ present.
          then-Keeps _ _ P _ _ (run-Keeps P (send_connack i present) (send_connack-Leaves present))
            λ _. start_tasks-Keeps (present && not pkt.conn_flags.clean_session)

  modify_client-Keeps :
      (f : Client → Client)
      → ((b : Broker E) → (f (b.conns i)).write_q ≡ (b.conns i).write_q)
      → Keeps P (modify (update_client i f))
  modify_client-Keeps f same = record { keeps = λ b u. inv.stable.client f b (same b) u }

  handle_connect-Keeps :
      (crypto : Crypto) (now : ℕ) (body : Bytes) → Keeps P (handle_connect crypto now i body)
  unfolding handle_connect
  handle_connect-Keeps crypto now body =
      then-Keeps _ _ P _ _
        (record {
          keeps = λ b u. decoded_connect-Ends i P inv.stable body (decode_connect body) b u;
        })
        λ pkt.
          then-Keeps _ _ P _ _
            (modify_client-Keeps (λ c. record c { version = pkt.version }) (λ b. refl))
            λ _.
              then-Keeps _ _ P _ _
                (record { keeps = λ b u. auth_certificate-Ends i P inv.stable b u })
                λ _.
                  then-Keeps _ _ P _ _
                    (record {
                      keeps = λ b u. auth_credentials-Ends i P inv.stable crypto now pkt b u;
                    })
                    λ _.
                      then-Keeps _ _ P _ _
                        (record { keeps = λ b u. choose_client_id-Ends i P inv.stable now pkt b u })
                        λ client_id.
                          then-Keeps _ _ P _ _
                            (modify_client-Keeps (λ c. record c { client_id = client_id })
                              (λ b. refl))
                            λ _.
                              then-Keeps _ _ P _ _
                                (record {
                                  keeps = λ b u. ask_hooks-Ends i P inv.stable client_id b u;
                                })
                                λ _. accept_client-Keeps now client_id pkt

  modify_enqueue-Keeps : (packet : Bytes) → Keeps P (modify (Actions.enqueue i packet))
  modify_enqueue-Keeps packet = record { keeps = λ b u. inv.stable.enqueue i packet b u }

  handle_pingreq-Keeps : (now : ℕ) → Keeps P (handle_pingreq now i)
  unfolding handle_pingreq
  handle_pingreq-Keeps now =
      then-Keeps _ _ P _ _ (modify_enqueue-Keeps pingresp)
        λ _. with_session-Keeps i P inv _ _ λ p s. modify_session-Keeps i P inv p (touch now)

  dispatch-Keeps :
      (crypto : Crypto) (r : Round) (fh : FixedHeader) (body : Bytes)
      → Keeps P (dispatch crypto r i fh body)
  unfolding dispatch
  dispatch-Keeps crypto r fh body =
      let t = fh.packet_type in
      if-Keeps _ P (t == PacketType.connect) _ _ (handle_connect-Keeps crypto r.now body) (
        if-Keeps _ P (t == PacketType.publish) _ _
          (handle_publish-Keeps i P inv r.now r.later fh body)
          (if-Keeps _ P (t == PacketType.puback) _ _ (handle_puback-Keeps i P inv body) (
            if-Keeps _ P (t == PacketType.pubrec) _ _ (handle_pubrec-Keeps i P inv body) (
              if-Keeps _ P (t == PacketType.pubrel) _ _ (handle_pubrel-Keeps i P inv r.now body) (
                if-Keeps _ P (t == PacketType.pubcomp) _ _ (handle_pubcomp-Keeps i P inv body) (
                  if-Keeps _ P (t == PacketType.subscribe) _ _ (handle_subscribe-Keeps i P inv body)
                    (if-Keeps _ P (t == PacketType.unsubscribe) _ _
                      (handle_unsubscribe-Keeps i P inv body)
                      (if-Keeps _ P (t == PacketType.pingreq) _ _ (handle_pingreq-Keeps r.now) (
                        if-Keeps _ P (t == PacketType.disconnect) _ _
                          (handle_disconnect-Keeps i P inv body)
                          (raise-Keeps _ P unexpected_packet))))))))))

  send_quota_exceeded-Leaves : (b : Broker E) → P b → Leaves P (send_quota_exceeded i b)
  unfolding send_quota_exceeded
  send_quota_exceeded-Leaves b h =
      if-Holds (Leaves P) ((b.conns i).version == v50) _ _
        (enqueue_any-Leaves P inv.passive i (encode_disconnect_v5 reason_quota_exceeded []) b h)
        (inv.stable.enqueue i encode_disconnect_v311 b h)

  handle-Keeps :
      (crypto : Crypto) (r : Round) (fh : FixedHeader) (body : Bytes)
      → Keeps P (handle crypto r i fh body)
  unfolding handle
  handle-Keeps crypto r fh body = record {
    keeps = λ b u.
        if-Holds (Ends P) (not (is_empty (b.conns i).client_id) && not r.allowed) _ _
          ((then-Keeps _ _ P _ _ (run-Keeps P (send_quota_exceeded i) send_quota_exceeded-Leaves)
              λ _. raise-Keeps (Unit {0}) P rate_limited).keeps
            b u)
          ((dispatch-Keeps crypto r fh body).keeps b u);
  }

  -- The broker that a round leaves.
  after_handler-LeavesWith :
      (r : Round) (rest : Bytes) (x : Option (Broker E × Outcome E (Unit {0})))
      → Ends P x
      → LeavesWith P (after_handler r rest x)
  after_handler-LeavesWith r rest none h = tt
  after_handler-LeavesWith r rest (some (b, done a)) h = h
  after_handler-LeavesWith r rest (some (b, failed e)) h = h

  read_packet-LeavesWith :
      (crypto : Crypto) (r : Round) (fh : FixedHeader) (stream : Bytes) (b : Broker E)
      → P b
      → LeavesWith P (read_packet crypto r i fh stream b)
  unfolding read_packet
  read_packet-LeavesWith crypto r fh stream b h =
      by-cases (read_body b.cfg.max_packet_size fh.remaining_length stream)
    where
      by-cases :
          (x : Option (Bytes × Bytes))
          → LeavesWith P (elim x [
            | none ↦ some (b, stop)
            | some (body, rest) ↦
                if is_handshaking (b.conns i).state && not (fh.packet_type == PacketType.connect)
                then some (b, stop)
                else after_handler r rest (handle crypto r i fh body b)
          ])
      by-cases none = h
      by-cases (some (body, rest)) =
          if-Holds (LeavesWith P)
            (is_handshaking (b.conns i).state && not (fh.packet_type == PacketType.connect)) _ _ h
            (after_handler-LeavesWith r rest _ ((handle-Keeps crypto r fh body).keeps b h))

  pub read_round-LeavesWith :
      (crypto : Crypto) (r : Round) (stream : Bytes) (b : Broker E)
      → P b
      → LeavesWith P (read_round crypto r i stream b)
  unfolding read_round
  read_round-LeavesWith crypto r stream b h = by-cases (read_fixed stream)
    where
      by-cases :
          (x : Result (FixedHeader × Bytes))
          → LeavesWith P (elim x [
            | Result.ok (fh, rest) ↦ read_packet crypto r i fh rest b
            | Result.err e ↦ some (b, stop)
            | Result.panic ↦ none
            | Result.hang ↦ none
          ])
      by-cases (Result.ok (fh, rest)) = read_packet-LeavesWith crypto r fh rest b h
      by-cases (Result.err e) = h
      by-cases Result.panic = tt
      by-cases Result.hang = tt
