-- ===== src/Server/Handshake.antt =====
-- `handleConnect` of internal/broker/client.go. bcrypt and the token library are parameters.
use broker.Prelude.{
  ℕ, ◌*◌, ◌==◌, ltb, if◌then◌else◌, Bytes, [], Bool, not, ◌&&◌, Option, none, some,
}
use broker.Protocol.Result.{Result, invalid_client_id}
use broker.Protocol.Codes.{v50, connack_reason_v5_from_v311, connack_reason_v5_for_decode_error}
use broker.Protocol.Connack.{encode_connack, encode_connack_v5}
use broker.Protocol.Connect.{ConnectPacket, decode_connect}
use broker.Protocol.Topic.{is_empty}
use broker.Auth
use broker.Auth.{AuthError, Certificate, Identity, auth_x509, auth_password}
use broker.Auth.Tokens
use broker.Auth.Tokens.{Parsed, Verdict, auth_jwt}
use broker.Plugin
use broker.Session.{second}
use broker.Session.Store.{get_or_create}
use broker.Server.{
  Broker, Client, HandleError, decode_error, auth_error, plugin_error, restore_session,
  drain_offline_queue, connected,
}
use broker.Server.Actions.{
  Action, pure, raise, modify, run, ◌>>=◌, ◌>>◌, update_client, update_session, add_task, enqueue,
  enqueue_packet,
}
use broker.Server.Connect.{
  refused_protocol, refused_id_rejected, refused_bad_credentials, refused_not_authorized,
  send_connack_failure, connack_v5_from_config, auto_id, negotiated, prepared,
}
use broker.Server.Lifecycle.{register, takeover}

-- `bcrypt.CompareHashAndPassword` and `jwt.ParseWithClaims`.
pub record Crypto : Type 0 where
  pub compare : Bytes → Bytes → Bool
  pub parse : Bytes → ℕ → Parsed

-- What is known of a connection once its CONNECT is accepted.
abbrev pub established : ConnectPacket → ℕ → Client → Client
established pkt p c = record c {
  sess = some p;
  state = connected;
  keep_alive = if ltb 0 pkt.keep_alive then pkt.keep_alive * second else c.keep_alive;
}

module _ {E A : Type 0} where
  -- A refusal with the two reason codes that belong together.
  abbrev pub refuse : ℕ → ℕ → HandleError E → Action E A
  refuse i reason e = do
    run (send_connack_failure i reason (connack_reason_v5_from_v311 reason) [])
    raise e

module _ {E : Type 0} where
  abbrev pub set_username : ℕ → Bytes → Broker E → Broker E
  set_username i name b = update_client i (λ c. record c { username = name }) b

  -- A decoded packet, or the refusal of a body that does not decode.
  unfoldable pub decoded_connect : ℕ → Bytes → Result ConnectPacket → Action E ConnectPacket
  decoded_connect i body (Result.ok pkt) = pure pkt
  decoded_connect i body (Result.err e) = do
    run (send_connack_failure i refused_protocol (connack_reason_v5_for_decode_error e) body)
    raise (decode_error e)
  decoded_connect i body Result.panic = λ b. none
  decoded_connect i body Result.hang = λ b. none

  -- What `AuthX509` says.
  unfoldable pub identify : ℕ → Identity → Action E (Unit {0})
  identify i (Auth.identified name) = modify (set_username i name)
  identify i (Auth.rejected e) = refuse i refused_bad_credentials (auth_error e)

  -- The certificate of a TLS connection.
  unfoldable pub auth_certificate : ℕ → Action E (Unit {0})
  unfolding identify
  auth_certificate i b = elim (b.conns i).certificate [
    | none ↦ pure tt b
    | some cert ↦ identify i (auth_x509 (some cert) b.authn) b
  ]

  -- What `AuthPassword` says.
  unfoldable pub admit_user : ℕ → Bytes → Option AuthError → Action E (Unit {0})
  admit_user i name none = modify (set_username i name)
  admit_user i name (some e) = refuse i refused_bad_credentials (auth_error e)

  -- What `AuthJWT` says.
  unfoldable pub admit_token : ℕ → Verdict → Action E (Unit {0})
  admit_token i (Tokens.accepted claims) = modify (set_username i claims.username)
  admit_token i (Tokens.refused e) = refuse i refused_bad_credentials (auth_error e)

  unfoldable pub auth_token : Crypto → ℕ → ℕ → Bytes → Action E (Unit {0})
  unfolding admit_token
  auth_token crypto now i token b =
      let (cache, verdict) = auth_jwt crypto.parse now token b.token_cache in
      admit_token i verdict (record b { token_cache = cache })

  -- The user name and the password, or a token in the place of the password.
  unfoldable pub auth_credentials : Crypto → ℕ → ℕ → ConnectPacket → Action E (Unit {0})
  unfolding admit_user auth_token
  auth_credentials crypto now i pkt b =
      if is_empty (b.conns i).username && pkt.conn_flags.has_username
      then admit_user i pkt.username
          (auth_password crypto.compare pkt.username pkt.password b.authn) b
      else if not (is_empty pkt.password)
      then auth_token crypto now i pkt.password b
      else pure tt b

  -- The client identifier, given or made up.
  unfoldable pub choose_client_id : ℕ → ℕ → ConnectPacket → Action E Bytes
  choose_client_id now i pkt b =
      if not (is_empty pkt.client_id)
      then pure pkt.client_id b
      else if pkt.conn_flags.clean_session
      then pure (auto_id (b.conns i).remote_addr now) b
      else refuse i refused_id_rejected (decode_error invalid_client_id) b

  -- What the hooks say of a connect.
  unfoldable pub admit_hooks : ℕ → Option E → Action E (Unit {0})
  admit_hooks i none = pure tt
  admit_hooks i (some e) = refuse i refused_not_authorized (plugin_error e)

  unfoldable pub ask_hooks : ℕ → Bytes → Action E (Unit {0})
  unfolding admit_hooks
  ask_hooks i client_id b =
      admit_hooks i (Plugin.on_client_connect E client_id (b.conns i).username b.plugins) b

  -- The session, the limits and the registry; the result is whether the session was resumed.
  unfoldable pub establish : ℕ → ℕ → Bytes → ConnectPacket → Broker E → Broker E × Bool
  unfolding get_or_create
  establish now i client_id pkt b =
      let (sessions, p, present) =
        get_or_create now client_id pkt.conn_flags.clean_session b.sessions in
      let b₁ = update_session p (prepared now pkt) (record b { sessions = sessions }) in
      let b₂ = update_client i (λ c. established pkt p (negotiated b.cfg pkt c)) b₁ in
      (register client_id i b₂, present)

  abbrev pub established_session : ℕ → ℕ → Bytes → ConnectPacket → Action E Bool
  established_session now i client_id pkt b =
      let (b', present) = establish now i client_id pkt b in pure present b'

  -- The CONNACK of success.
  unfoldable pub send_connack : ℕ → Bool → Broker E → Option (Broker E)
  send_connack i present b =
      let c = b.conns i in
      if c.version == v50
      then enqueue_packet i
          (encode_connack_v5 present 0 (connack_v5_from_config b.cfg c.negotiated_topic_alias_max))
          b
      else some (enqueue i (encode_connack present 0) b)

  -- The two goroutines at the end.
  unfoldable pub start_tasks : ℕ → Bool → Broker E → Broker E
  start_tasks i resumed b =
      add_task (drain_offline_queue i) (if resumed then add_task (restore_session i) b else b)

  -- What follows the decisions: nothing refuses the client any more.
  unfoldable pub accept_client : ℕ → ℕ → Bytes → ConnectPacket → Action E (Unit {0})
  unfolding establish send_connack start_tasks
  accept_client now i client_id pkt = do
    run (takeover client_id)
    present ← established_session now i client_id pkt
    run (send_connack i present)
    modify (start_tasks i (present && not pkt.conn_flags.clean_session))

  unfoldable pub handle_connect : Crypto → ℕ → ℕ → Bytes → Action E (Unit {0})
  unfolding decoded_connect auth_certificate auth_credentials choose_client_id ask_hooks
      accept_client
  handle_connect crypto now i body = do
    pkt ← decoded_connect i body (decode_connect body)
    modify (update_client i (λ c. record c { version = pkt.version }))
    auth_certificate i
    auth_credentials crypto now i pkt
    client_id ← choose_client_id now i pkt
    modify (update_client i (λ c. record c { client_id = client_id }))
    ask_hooks i client_id
    accept_client now i client_id pkt
