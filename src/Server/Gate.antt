-- ===== src/Server/Gate.antt =====
-- The handshake: what `readLoop` of internal/broker/client.go takes from a connection that has not
-- sent a CONNECT.
use broker.Prelude.{
  ℕ, ◌==◌, if◌then◌else◌, Bytes, [], ◌∷◌, Bool, true, false, not, ◌&&◌, Option, none, some, ◌≡◌,
  refl, ap, length, ltb, ◌++◌,
}
use mathlib.Core.Path.{subst}
use broker.Protocol.Codes.PacketType
use broker.Protocol.Codes.{v50}
use broker.Protocol.Result.{Result}
use broker.Protocol.Topic.{is_empty}
use broker.Protocol.VarInt.{FixedHeader, read_fixed}
use broker.Protocol.Connack.{encode_connack, encode_connack_v5}
use broker.Protocol.Connect.{ConnectPacket, decode_connect}
use broker.Session.Store.{get_or_create}
use broker.Server.{Broker, Client, handshaking, connected, is_handshaking, is_closed, rate_limited}
use broker.Server.Actions
use broker.Server.Actions.{
  Action, Outcome, done, failed, raise, continue, modify, run, push, update_client, ◌>>=◌, ◌>>◌,
}
use broker.Server.Lifecycle.{takeover, register}
use broker.Server.Connect.{connack_v5_from_config, negotiated, prepared}
use broker.Server.Handshake.{
  Crypto, decoded_connect, auth_certificate, auth_credentials, choose_client_id, ask_hooks,
  establish, established, send_connack, start_tasks, accept_client, handle_connect,
}
use broker.Server.Handle.{
  Round, Next, stop, again, read_body, dispatch, handle, after_handler, read_packet, read_round,
  send_quota_exceeded,
}
use broker.Server.Effects.{Leaves, if-Holds, updated}

module _ {E : Type 0} where
  -- The connection `i` has had its CONNECT accepted.
  abbrev IsOpen : ℕ → Broker E → Type 0
  IsOpen i b = (b.conns i).state ≡ connected

  abbrev IfDone : {A : Type 0} → (Broker E → Type 0) → Option (Broker E × Outcome E A) → Type 0
  IfDone P none = Unit
  IfDone P (some (b, done a)) = P b
  IfDone P (some (b, failed e)) = Unit

  continue-IfDone :
      (A B : Type 0) (P : Broker E → Type 0) (f : A → Action E B)
      (r : Option (Broker E × Outcome E A))
      → ((a : A) (b : Broker E) → IfDone P (f a b))
      → IfDone P (continue f r)
  continue-IfDone A B P f none h = tt
  continue-IfDone A B P f (some (b, done a)) h = h a b
  continue-IfDone A B P f (some (b, failed e)) h = tt

  run-IfDone :
      (P : Broker E → Type 0) (r : Option (Broker E)) (k : Action E (Unit {0}))
      → Leaves P r
      → ((b : Broker E) → P b → IfDone P (k b))
      → IfDone P (
          continue {A = Unit {0}} {B = Unit {0}}
            (λ _. k)
            (elim r [ none ↦ none | some b' ↦ some (b', done tt) ]))
  run-IfDone P none k h hk = tt
  run-IfDone P (some b) k h hk = hk b h

  enqueue-IsOpen :
      (i : ℕ) (packet : Bytes) (b : Broker E) → IsOpen i b → IsOpen i (Actions.enqueue i packet b)
  unfolding Actions.enqueue push
  enqueue-IsOpen i packet b h =
      let W : Client → Type 0 = λ c. c.state ≡ connected in
      updated W i i (push b.cfg.write_queue_size packet) b
        (λ e. if-Holds W (is_closed (b.conns i).state) _ _ h (
          if-Holds W (ltb (length (b.conns i).write_q) b.cfg.write_queue_size)
            (record (b.conns i) { write_q = (b.conns i).write_q ++ (packet ∷ []) }) (b.conns i) h
            h))
        (λ apart. h)

  enqueue_packet-IsOpen :
      (i : ℕ) (packet : Option Bytes) (b : Broker E)
      → IsOpen i b
      → Leaves (IsOpen i) (Actions.enqueue_packet i packet b)
  enqueue_packet-IsOpen i none b h = tt
  enqueue_packet-IsOpen i (some packet) b h = enqueue-IsOpen i packet b h

  send_connack-IsOpen :
      (i : ℕ) (present : Bool) (b : Broker E)
      → IsOpen i b
      → Leaves (IsOpen i) (send_connack i present b)
  unfolding send_connack
  send_connack-IsOpen i present b h =
      if-Holds (Leaves (IsOpen i)) ((b.conns i).version == v50) _ _
        (enqueue_packet-IsOpen i
          (encode_connack_v5 present 0
            (connack_v5_from_config b.cfg (b.conns i).negotiated_topic_alias_max))
          b h)
        (enqueue-IsOpen i (encode_connack present 0) b h)

  establish-IsOpen :
      (now i : ℕ) (client_id : Bytes) (pkt : ConnectPacket) (b : Broker E)
      → IsOpen i (establish now i client_id pkt b).0
  unfolding establish register Actions.update_session
  establish-IsOpen now i client_id pkt b =
      let found = get_or_create now client_id pkt.conn_flags.clean_session b.sessions in
      updated (λ c. c.state ≡ connected) i i (λ c. established pkt found.1 (negotiated b.cfg pkt c))
        (Actions.update_session found.1 (prepared now pkt) (record b { sessions = found.0 }))
        (λ e. refl) (λ differs. elim (differs refl) [ ])

  start_tasks-IsOpen :
      (i : ℕ) (resumed : Bool) (b : Broker E) → IsOpen i b → IsOpen i (start_tasks i resumed b)
  unfolding start_tasks
  start_tasks-IsOpen i true b h = h
  start_tasks-IsOpen i false b h = h

  accept_client-IfDone :
      (now i : ℕ) (client_id : Bytes) (pkt : ConnectPacket) (b : Broker E)
      → IfDone (IsOpen i) (accept_client now i client_id pkt b)
  unfolding accept_client
  accept_client-IfDone now i client_id pkt b =
      continue-IfDone _ _ (IsOpen i) _ (run (takeover client_id) b) λ _ b₁.
        let (b₂, present) = establish now i client_id pkt b₁ in
        run-IfDone (IsOpen i) (send_connack i present b₂)
          (modify (start_tasks i (present && not pkt.conn_flags.clean_session)))
          (send_connack-IsOpen i present b₂ (establish-IsOpen now i client_id pkt b₁))
          λ b₃ h. start_tasks-IsOpen i (present && not pkt.conn_flags.clean_session) b₃ h

  handle_connect-IfDone :
      (crypto : Crypto) (now i : ℕ) (body : Bytes) (b : Broker E)
      → IfDone (IsOpen i) (handle_connect crypto now i body b)
  unfolding handle_connect
  handle_connect-IfDone crypto now i body b =
      continue-IfDone _ _ (IsOpen i) _ (decoded_connect i body (decode_connect body) b) λ pkt b₁.
        continue-IfDone _ _ (IsOpen i) _
          (auth_certificate i (update_client i (λ c. record c { version = pkt.version }) b₁))
          λ _ b₂. continue-IfDone _ _ (IsOpen i) _ (auth_credentials crypto now i pkt b₂) λ _ b₃.
            continue-IfDone _ _ (IsOpen i) _ (choose_client_id now i pkt b₃) λ client_id b₄.
              continue-IfDone _ _ (IsOpen i) _
                (ask_hooks i client_id
                  (update_client i (λ c. record c { client_id = client_id }) b₄))
                λ _ b₅. accept_client-IfDone now i client_id pkt b₅

  -- The round goes on only if the connection is open.
  abbrev OpenIfAgain : ℕ → Option (Broker E × Next) → Type 0
  OpenIfAgain i none = Unit
  OpenIfAgain i (some (b, stop)) = Unit
  OpenIfAgain i (some (b, again rest)) = IsOpen i b

  after_handler-OpenIfAgain :
      (i : ℕ) (r : Round) (rest : Bytes) (x : Option (Broker E × Outcome E (Unit {0})))
      → IfDone (IsOpen i) x
      → OpenIfAgain i (after_handler r rest x)
  after_handler-OpenIfAgain i r rest none h = tt
  after_handler-OpenIfAgain i r rest (some (b, failed e)) h = tt
  after_handler-OpenIfAgain i r rest (some (b, done a)) h = if_cancelled r.cancelled
    where
      if_cancelled : (c : Bool) → OpenIfAgain i (some (b, if c then stop else again rest))
      if_cancelled true = tt
      if_cancelled false = h

  handle-IfDone :
      (crypto : Crypto) (r : Round) (i : ℕ) (fh : FixedHeader) (body : Bytes) (b : Broker E)
      → (fh.packet_type == PacketType.connect) ≡ true
      → IfDone (IsOpen i) (handle crypto r i fh body b)
  unfolding handle dispatch
  handle-IfDone crypto r i fh body b connect =
      if-Holds (IfDone (IsOpen i)) (not (is_empty (b.conns i).client_id) && not r.allowed) _ _
        (continue-IfDone _ _ (IsOpen i) (λ _. raise rate_limited) (run (send_quota_exceeded i) b)
          λ _ b₁. tt)
        (rw connect (handle_connect-IfDone crypto r.now i body b))

  gated :
      (i : ℕ) (waiting c : Bool) (b : Broker E) (x : Option (Broker E × Next))
      → waiting ≡ true
      → (c ≡ true → OpenIfAgain i x)
      → OpenIfAgain i (if waiting && not c then some (b, stop) else x)
  gated i waiting true b x e h = if-Holds (OpenIfAgain i) (waiting && not true) _ _ tt (h refl)
  gated i waiting false b x e h = rw e tt

  read_packet-OpenIfAgain :
      (crypto : Crypto) (r : Round) (i : ℕ) (fh : FixedHeader) (stream : Bytes) (b : Broker E)
      → (b.conns i).state ≡ handshaking
      → OpenIfAgain i (read_packet crypto r i fh stream b)
  unfolding read_packet
  read_packet-OpenIfAgain crypto r i fh stream b fresh =
      by-cases (read_body b.cfg.max_packet_size fh.remaining_length stream)
    where
      by-cases :
          (x : Option (Bytes × Bytes))
          → OpenIfAgain i (elim x [
            | none ↦ some (b, stop)
            | some (body, rest) ↦
                if is_handshaking (b.conns i).state && not (fh.packet_type == PacketType.connect)
                then some (b, stop)
                else after_handler r rest (handle crypto r i fh body b)
          ])
      by-cases none = tt
      by-cases (some (body, rest)) =
          gated i (is_handshaking (b.conns i).state) (fh.packet_type == PacketType.connect) b _
            (ap is_handshaking fresh)
            λ connect.
              after_handler-OpenIfAgain i r rest _ (handle-IfDone crypto r i fh body b connect)

  -- If a connection that waits for its CONNECT is still read from after a round of the read loop,
  -- then that round has accepted its CONNECT: the connection is connected.
  pub read_round-IsOpen :
      (crypto : Crypto) (r : Round) (i : ℕ) (stream rest : Bytes) (b b' : Broker E)
      → (b.conns i).state ≡ handshaking
      → read_round crypto r i stream b ≡ some (b', again rest)
      → (b'.conns i).state ≡ connected
  unfolding read_round
  read_round-IsOpen crypto r i stream rest b b' fresh e =
      subst (OpenIfAgain i) e (by-cases (read_fixed stream))
    where
      by-cases :
          (x : Result (FixedHeader × Bytes))
          → OpenIfAgain i (elim x [
            | Result.ok (fh, left) ↦ read_packet crypto r i fh left b
            | Result.err error ↦ some (b, stop)
            | Result.panic ↦ none
            | Result.hang ↦ none
          ])
      by-cases (Result.ok (fh, left)) = read_packet-OpenIfAgain crypto r i fh left b fresh
      by-cases (Result.err error) = tt
      by-cases Result.panic = tt
      by-cases Result.hang = tt
