-- ===== src/Server/Effects.antt =====
-- What a call of package broker does to a property of the broker: the combinators, and the part of
-- `handleConnect` of internal/broker/client.go that may refuse a client.
use broker.Prelude.{
  ℕ, if◌then◌else◌, Bytes, Bool, true, false, not, ◌&&◌, [], Option, none, some, ◌≡◌, refl, sym,
  ◌==◌, ==_iff, Bool-cases, inl, inr, arith,
}
use mathlib.Core.Path.{subst}
use broker.Protocol.Result.{Result}
use broker.Protocol.Connect.{ConnectPacket}
use broker.Auth
use broker.Auth.{Identity, AuthError, Certificate, auth_x509}
use broker.Auth.Tokens
use broker.Auth.Tokens.{Verdict, TokenCache}
use broker.Protocol.Topic.{is_empty}
use broker.Server.{Broker, Client, HandleError, decode_error}
use broker.Server.Actions.{
  Action, Outcome, done, failed, pure, raise, modify, run, continue, update_client, enqueue,
  enqueue_packet,
}
use broker.Protocol.Connack.{encode_connack_v5}
use broker.Server.Lifecycle.{takeover}
use broker.Server.Connect.{send_connack_failure, uses_v5, no_options}
use broker.Server.Handshake.{
  Crypto, refuse, set_username, decoded_connect, identify, auth_certificate, admit_user,
  admit_token, auth_token, auth_credentials, choose_client_id, admit_hooks, ask_hooks,
  accept_client, establish, send_connack, start_tasks,
}

pub if-Holds :
    {X : Type 0} → (P : X → Type 0) (c : Bool) (x y : X) → P x → P y → P (if c then x else y)
if-Holds P true x y hx hy = hx
if-Holds P false x y hx hy = hy

module _ {E : Type 0} where
  -- Whatever the call returns, the broker it leaves has the property.
  abbrev pub Ends : {A : Type 0} → (Broker E → Type 0) → Option (Broker E × Outcome E A) → Type 0
  Ends P none = Unit
  Ends P (some (b, o)) = P b

  -- The same for a call that ends in an error.
  abbrev pub EndsIfFailed :
      {A : Type 0} → (Broker E → Type 0) → Option (Broker E × Outcome E A) → Type 0
  EndsIfFailed P none = Unit
  EndsIfFailed P (some (b, done a)) = Unit
  EndsIfFailed P (some (b, failed e)) = P b

  pub continue-EndsIfFailed :
      {A B : Type 0}
      → (P : Broker E → Type 0) (f : A → Action E B) (r : Option (Broker E × Outcome E A))
      → Ends P r
      → ((a : A) (b : Broker E) → P b → EndsIfFailed P (f a b))
      → EndsIfFailed P (continue f r)
  continue-EndsIfFailed P f none h k = tt
  continue-EndsIfFailed P f (some (b, done a)) h k = k a b h
  continue-EndsIfFailed P f (some (b, failed e)) h k = h

  abbrev pub Leaves : (Broker E → Type 0) → Option (Broker E) → Type 0
  Leaves P none = Unit
  Leaves P (some b) = P b

  pub run-Ends :
      (P : Broker E → Type 0) (f : Broker E → Option (Broker E)) (b : Broker E)
      → Leaves P (f b)
      → Ends P (run f b)
  run-Ends P f b h = by-cases (f b) h
    where
      by-cases :
          (r : Option (Broker E))
          → Leaves P r
          → Ends P (elim r [ none ↦ none | some b' ↦ some (b', done tt) ])
      by-cases none h = tt
      by-cases (some b') h = h

  pub run-EndsIfFailed :
      (A : Type 0) (P : Broker E → Type 0) (r : Option (Broker E)) (k : Action E A)
      → ((b : Broker E) → EndsIfFailed P (k b))
      → EndsIfFailed P (
          continue {A = Unit {0}} {B = A}
            (λ _. k)
            (elim r [ none ↦ none | some b' ↦ some (b', done tt) ]))
  run-EndsIfFailed A P none k h = tt
  run-EndsIfFailed A P (some b) k h = h b

  pub accept_client-EndsIfFailed :
      (P : Broker E → Type 0) (now i : ℕ) (client_id : Bytes) (pkt : ConnectPacket) (b : Broker E)
      → EndsIfFailed P (accept_client now i client_id pkt b)
  unfolding accept_client
  accept_client-EndsIfFailed P now i client_id pkt b =
      run-EndsIfFailed _ P (takeover client_id b) _ λ b₁.
        let (b₂, present) = establish now i client_id pkt b₁ in
        run-EndsIfFailed (Unit {0}) P (send_connack i present b₂)
          (modify (start_tasks i (present && not pkt.conn_flags.clean_session))) λ b₃. tt {0}

  pub continue-Ends :
      (A B : Type 0) (P : Broker E → Type 0) (f : A → Action E B)
      (r : Option (Broker E × Outcome E A))
      → Ends P r
      → ((a : A) (b : Broker E) → P b → Ends P (f a b))
      → Ends P (continue f r)
  continue-Ends A B P f none h k = tt
  continue-Ends A B P f (some (b, done a)) h k = k a b h
  continue-Ends A B P f (some (b, failed e)) h k = h

  -- A refusal, whatever it says to the client.
  pub refusal-Ends :
      (A : Type 0) (P : Broker E → Type 0) (e : HandleError E) (r : Option (Broker E))
      → Leaves P r
      → Ends P (
          continue {A = Unit {0}} {B = A}
            (λ _. raise e)
            (elim r [ none ↦ none | some b' ↦ some (b', done tt) ]))
  refusal-Ends A P e none h = tt
  refusal-Ends A P e (some b) h = h

  -- A connection after a change to the connection `i`.
  pub updated :
      (W : Client → Type 0) (i j : ℕ) (f : Client → Client) (b : Broker E)
      → (j ≡ i → W (f (b.conns i)))
      → (¬ (j ≡ i) → W (b.conns j))
      → W ((update_client i f b).conns j)
  updated W i j f b own other = elim (Bool-cases (j == i)) [
    | inl same ↦
        let e : j ≡ i = ground (arith, ==_iff j i) in
        rw same (subst (λ k. W (f (b.conns k))) (sym e) (own e))
    | inr differs ↦ rw differs (other (λ e. ground (arith, ==_iff j i)))
  ]

  -- A property that the connection `i` may be changed under, before a CONNECT is accepted.
  pub record Stable (i : ℕ) (P : Broker E → Type 0) : Type 0 where
    pub enqueue : (j : ℕ) (packet : Bytes) (b : Broker E) → P b → P (enqueue j packet b)
    pub client :
        (f : Client → Client) (b : Broker E)
        → (f (b.conns i)).write_q ≡ (b.conns i).write_q
        → P b
        → P (update_client i f b)
    pub cache : (cache : TokenCache) (b : Broker E) → P b → P (record b { token_cache = cache })

module _ {E : Type 0} (i : ℕ) (P : Broker E → Type 0) (stable : Stable i P) where
  pub enqueue_packet-Leaves :
      (packet : Option Bytes) (b : Broker E) → P b → Leaves P (enqueue_packet i packet b)
  enqueue_packet-Leaves none b h = tt
  enqueue_packet-Leaves (some packet) b h = stable.enqueue i packet b h

  pub send_connack_failure-Leaves :
      (reason reason_v5 : ℕ) (body : Bytes) (b : Broker E)
      → P b
      → Leaves P (send_connack_failure i reason reason_v5 body b)
  unfolding send_connack_failure
  send_connack_failure-Leaves reason reason_v5 body b h =
      if-Holds (Leaves P) (uses_v5 (b.conns i).version body) _ _
        (enqueue_packet-Leaves (encode_connack_v5 false reason_v5 no_options) b h)
        (stable.enqueue i _ b h)

  pub decoded_connect-Ends :
      (body : Bytes) (r : Result ConnectPacket) (b : Broker E)
      → P b
      → Ends P (decoded_connect i body r b)
  unfolding decoded_connect
  decoded_connect-Ends body (Result.ok pkt) b h = h
  decoded_connect-Ends body (Result.err e) b h =
      refusal-Ends _ P (decode_error e) _ (send_connack_failure-Leaves _ _ body b h)
  decoded_connect-Ends body Result.panic b h = tt
  decoded_connect-Ends body Result.hang b h = tt

  pub refuse-Ends :
      (A : Type 0) (reason : ℕ) (e : HandleError E) (b : Broker E)
      → P b
      → Ends P (refuse {A = A} i reason e b)
  refuse-Ends A reason e b h = refusal-Ends _ P e _ (send_connack_failure-Leaves _ _ [] b h)

  pub set_username-Stable : (name : Bytes) (b : Broker E) → P b → P (set_username i name b)
  set_username-Stable name b h = stable.client (λ c. record c { username = name }) b refl h

  pub identify-Ends : (who : Identity) (b : Broker E) → P b → Ends P (identify i who b)
  unfolding identify
  identify-Ends (Auth.identified name) b h = set_username-Stable _ b h
  identify-Ends (Auth.rejected e) b h = refuse-Ends _ _ _ b h

  pub auth_certificate-Ends : (b : Broker E) → P b → Ends P (auth_certificate i b)
  unfolding auth_certificate
  auth_certificate-Ends b h = by-cases (b.conns i).certificate
    where
      by-cases :
          (cert : Option Certificate)
          → Ends P (elim cert [
            | none ↦ pure tt b
            | some cert ↦ identify i (auth_x509 (some cert) b.authn) b
          ])
      by-cases none = h
      by-cases (some cert) = identify-Ends (auth_x509 (some cert) b.authn) b h

  pub admit_user-Ends :
      (name : Bytes) (e : Option AuthError) (b : Broker E) → P b → Ends P (admit_user i name e b)
  unfolding admit_user
  admit_user-Ends name none b h = set_username-Stable _ b h
  admit_user-Ends name (some e) b h = refuse-Ends _ _ _ b h

  pub admit_token-Ends : (v : Verdict) (b : Broker E) → P b → Ends P (admit_token i v b)
  unfolding admit_token
  admit_token-Ends (Tokens.accepted claims) b h = set_username-Stable _ b h
  admit_token-Ends (Tokens.refused e) b h = refuse-Ends _ _ _ b h

  pub auth_token-Ends :
      (crypto : Crypto) (now : ℕ) (token : Bytes) (b : Broker E)
      → P b
      → Ends P (auth_token crypto now i token b)
  unfolding auth_token
  auth_token-Ends crypto now token b h = admit_token-Ends _ _ (stable.cache _ b h)

  pub auth_credentials-Ends :
      (crypto : Crypto) (now : ℕ) (pkt : ConnectPacket) (b : Broker E)
      → P b
      → Ends P (auth_credentials crypto now i pkt b)
  unfolding auth_credentials
  auth_credentials-Ends crypto now pkt b h =
      if-Holds (Ends P) (is_empty (b.conns i).username && pkt.conn_flags.has_username) _ _
        (admit_user-Ends pkt.username _ b h)
        (if-Holds (Ends P) (not (is_empty pkt.password)) _ _
          (auth_token-Ends crypto now pkt.password b h) h)

  pub choose_client_id-Ends :
      (now : ℕ) (pkt : ConnectPacket) (b : Broker E) → P b → Ends P (choose_client_id now i pkt b)
  unfolding choose_client_id
  choose_client_id-Ends now pkt b h =
      if-Holds (Ends P) (not (is_empty pkt.client_id)) _ _ h
        (if-Holds (Ends P) pkt.conn_flags.clean_session _ _ h (refuse-Ends _ _ _ b h))

  pub admit_hooks-Ends : (e : Option E) (b : Broker E) → P b → Ends P (admit_hooks i e b)
  unfolding admit_hooks
  admit_hooks-Ends none b h = h
  admit_hooks-Ends (some e) b h = refuse-Ends _ _ _ b h

  pub ask_hooks-Ends : (client_id : Bytes) (b : Broker E) → P b → Ends P (ask_hooks i client_id b)
  unfolding ask_hooks
  ask_hooks-Ends client_id b h = admit_hooks-Ends _ b h
