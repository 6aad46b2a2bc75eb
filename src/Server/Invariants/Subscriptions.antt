-- ===== src/Server/Invariants/Subscriptions.antt =====
-- `handleSubscribe` and `handleUnsubscribe` of internal/broker/client.go.
use broker.Prelude.{
  ℕ, ◌==◌, if◌then◌else◌, Bytes, List, [], ◌∷◌, Option, none, some, bytes_eq_instance,
}
use broker.Protocol.Codes.SubackDeny
use broker.Protocol.Codes.{v50, suback_reason_byte, unsuback_reason_byte}
use broker.Protocol.Ack.{encode_unsuback}
use broker.Protocol.Subscribe.{
  Subscription, decode_subscribe, decode_unsubscribe, encode_suback, encode_suback_v5,
  encode_unsuback_v5,
}
use broker.Server.{Broker}
use broker.Server.Actions.{}
use broker.Server.Handshake.{}
use broker.Server.Subscriptions.{
  granted_qos, subscribe_reason, grant, add_code, subscribe_each, send_suback, subscribe_all,
  handle_subscribe, unsubscribe_reason, withdraw, unsubscribe_each, send_unsuback,
  unsubscribe_filters, handle_unsubscribe,
}
use broker.Server.Handle.{}
use broker.Server.Effects.{Leaves, if-Holds}
use broker.Server.Invariants.{Invariant, enqueue_any-Leaves, session-Leaves}
use broker.Server.Invariants.Handlers.{Keeps, then-Keeps, gets-Keeps, decode-Keeps, run-Keeps}

-- The broker of a result with something beside it.
module _ {E : Type 0} where
  abbrev pub LeavesWith : {A : Type 0} → (Broker E → Type 0) → Option (Broker E × A) → Type 0
  LeavesWith P none = Unit
  LeavesWith P (some (b, a)) = P b

  add_code-LeavesWith :
      (P : Broker E → Type 0) (code : ℕ) (r : Option (Broker E × Bytes))
      → LeavesWith P r
      → LeavesWith P (add_code code r)
  add_code-LeavesWith P code none h = tt
  add_code-LeavesWith P code (some (b, codes)) h = h

  then-LeavesWith :
      (A : Type 0) (P : Broker E → Type 0) (r : Option (Broker E))
      (k : Broker E → Option (Broker E × A))
      → Leaves P r
      → ((b : Broker E) → P b → LeavesWith P (k b))
      → LeavesWith P (elim r [ none ↦ none | some b ↦ k b ])
  then-LeavesWith A P none k hr hk = tt
  then-LeavesWith A P (some b) k hr hk = hk b hr

  after-LeavesWith :
      (A : Type 0) (P : Broker E → Type 0) (r : Option (Broker E × A))
      (k : Broker E → A → Option (Broker E))
      → LeavesWith P r
      → ((b : Broker E) (a : A) → P b → Leaves P (k b a))
      → Leaves P (elim r [ none ↦ none | some (b, a) ↦ k b a ])
  after-LeavesWith A P none k hr hk = tt
  after-LeavesWith A P (some (b, a)) k hr hk = hk b a hr

module _ {E : Type 0} (i : ℕ) (P : Broker E → Type 0) (inv : Invariant i P) where
  grant-Leaves : (filter : Bytes) (qos : ℕ) (b : Broker E) → P b → Leaves P (grant i filter qos b)
  unfolding grant
  grant-Leaves filter qos b h =
      session-Leaves P inv.passive i b none _ tt λ p s. inv.tasks _ _ (inv.passive.router _ b h)

  subscribe_each-LeavesWith :
      (subs : List Subscription) (b : Broker E) → P b → LeavesWith P (subscribe_each i subs b)
  unfolding subscribe_each
  subscribe_each-LeavesWith [] b h = h
  subscribe_each-LeavesWith (sub ∷ subs) b h =
      let qos = granted_qos b.cfg sub.qos in
      let reason = subscribe_reason (b.conns i).client_id sub.filter qos b in
      add_code-LeavesWith P (suback_reason_byte (b.conns i).version qos reason) _ (
        then-LeavesWith _ P
          (if reason == SubackDeny.granted then grant i sub.filter qos b else some b)
          (subscribe_each i subs)
          (if-Holds (Leaves P) (reason == SubackDeny.granted) _ _ (grant-Leaves sub.filter qos b h)
            h)
          λ d hd. subscribe_each-LeavesWith subs d hd)

  send_suback-Leaves :
      (id : ℕ) (codes : Bytes) (b : Broker E) → P b → Leaves P (send_suback i id codes b)
  unfolding send_suback
  send_suback-Leaves id codes b h =
      if-Holds (Leaves P) ((b.conns i).version == v50) _ _
        (enqueue_any-Leaves P inv.passive i (encode_suback_v5 id [] codes) b h)
        (enqueue_any-Leaves P inv.passive i (encode_suback id codes) b h)

  pub handle_subscribe-Keeps : (body : Bytes) → Keeps P (handle_subscribe i body)
  unfolding handle_subscribe
  handle_subscribe-Keeps body =
      then-Keeps _ _ P _ _ (gets-Keeps _ P (λ b. (b.conns i).version)) λ version.
        then-Keeps _ _ P _ _ (decode-Keeps _ P (decode_subscribe version body)) λ request.
          run-Keeps P (subscribe_all i request.0 request.1) λ b u.
            after-LeavesWith _ P (subscribe_each i request.1 b)
              (λ b' codes. send_suback i request.0 codes b')
              (subscribe_each-LeavesWith request.1 b u)
              λ b' codes u'. send_suback-Leaves request.0 codes b' u'

  withdraw-Leaves : (filter : Bytes) (b : Broker E) → P b → Leaves P (withdraw i filter b)
  unfolding withdraw
  withdraw-Leaves filter b h =
      session-Leaves P inv.passive i b none _ tt λ p s. inv.passive.router _ b h

  unsubscribe_each-LeavesWith :
      (filters : List Bytes) (b : Broker E) → P b → LeavesWith P (unsubscribe_each i filters b)
  unfolding unsubscribe_each
  unsubscribe_each-LeavesWith [] b h = h
  unsubscribe_each-LeavesWith (filter ∷ filters) b h =
      let reason = unsubscribe_reason (b.conns i).client_id filter b in
      add_code-LeavesWith P (unsuback_reason_byte reason) _ (
        then-LeavesWith _ P (if reason == 0 then withdraw i filter b else some b)
          (unsubscribe_each i filters)
          (if-Holds (Leaves P) (reason == 0) _ _ (withdraw-Leaves filter b h) h)
          λ d hd. unsubscribe_each-LeavesWith filters d hd)

  send_unsuback-Leaves :
      (id : ℕ) (codes : Bytes) (b : Broker E) → P b → Leaves P (send_unsuback i id codes b)
  unfolding send_unsuback
  send_unsuback-Leaves id codes b h =
      if-Holds (Leaves P) ((b.conns i).version == v50) _ _
        (enqueue_any-Leaves P inv.passive i (encode_unsuback_v5 id [] codes) b h)
        (inv.stable.enqueue i (encode_unsuback id) b h)

  pub handle_unsubscribe-Keeps : (body : Bytes) → Keeps P (handle_unsubscribe i body)
  unfolding handle_unsubscribe
  handle_unsubscribe-Keeps body =
      then-Keeps _ _ P _ _ (gets-Keeps _ P (λ b. (b.conns i).version)) λ version.
        then-Keeps _ _ P _ _ (decode-Keeps _ P (decode_unsubscribe version body)) λ request.
          run-Keeps P (unsubscribe_filters i request.0 request.1) λ b u.
            after-LeavesWith _ P (unsubscribe_each i request.1 b)
              (λ b' codes. send_unsuback i request.0 codes b')
              (unsubscribe_each-LeavesWith request.1 b u)
              λ b' codes u'. send_unsuback-Leaves request.0 codes b' u'
