-- ===== src/Server/Answers.antt =====
-- The answers to a SUBSCRIBE, in `handleSubscribe` of internal/broker/client.go.
use broker.Prelude.{
  ℕ, ◌==◌, if◌then◌else◌, Bytes, List, [], ◌∷◌, ◌++◌, Option, none, some, ◌≡◌, refl, sym, ap, ◌∙◌,
  Bool-cases, inl, inr, true, ◌≤◌, ◌%◌, ◌^◌, bit_and, ◌↔◌, arith,
}
use mathlib.Core.Path.{subst}
use broker.Protocol.Codes.SubackDeny
use broker.Protocol.Codes.{suback_reason_byte}
use broker.Protocol.Subscribe.{Subscription}
use broker.Protocol.Topic.{valid_topic_filter}
use broker.Auth.{can_subscribe}
use broker.Plugin
use broker.Router.Publish.{match_filter}
use broker.Router.Engine
use broker.Router.Engine.{Router}
use broker.Session.{Session}
use broker.Server.{Broker, Task, send_retained_to}
use broker.Server.Actions.{session_at, session_of_client, add_task}
use broker.Server.Subscriptions.{
  hook_reason, server_max_qos, granted_qos, subscribe_reason, subscriber_of, grant, add_code,
  subscribe_each,
}

-- What a SUBSCRIBE is to do, each entry judged by the broker as it is at the start.
module _ {E : Type 0} (i : ℕ) (b : Broker E) where
  abbrev pub verdict : Subscription → ℕ
  verdict sub = subscribe_reason (b.conns i).client_id sub.filter (granted_qos b.cfg sub.qos) b

  abbrev pub answers : List Subscription → Bytes
  answers [] = []
  answers (sub ∷ subs) =
      suback_reason_byte (b.conns i).version (granted_qos b.cfg sub.qos) (verdict sub)
      ∷ answers subs

  abbrev pub routed : List Subscription → Router → Router
  routed [] r = r
  routed (sub ∷ subs) r = routed subs (
      if verdict sub == SubackDeny.granted
      then Engine.subscribe sub.filter
          (subscriber_of i (b.conns i).client_id (granted_qos b.cfg sub.qos)) r
      else r)

  -- What the code demands of an entry: a valid filter, the rules on the filter inside a share, and
  -- no hook that objects.
  pub record Permitted (sub : Subscription) : Type 0 where
    pub valid : valid_topic_filter sub.filter ≡ true
    pub allowed : can_subscribe (b.conns i).client_id (match_filter sub.filter) b.authn ≡ true
    pub unopposed :
        Plugin.on_subscribe E (b.conns i).client_id sub.filter (granted_qos b.cfg sub.qos) b.plugins
        ≡ none

  -- The QoS of an entry is within 2, the maximum of the server and what was asked for.
  pub record Capped (sub : Subscription) : Type 0 where
    pub level : granted_qos b.cfg sub.qos ≤ 2
    pub server : granted_qos b.cfg sub.qos ≤ b.cfg.server_maximum_qos % 2 ^ 8
    pub asked : granted_qos b.cfg sub.qos ≤ bit_and sub.qos 0x03

  unopposed_if_granted : (o : Option E) → hook_reason o ≡ SubackDeny.granted → o ≡ none
  unopposed_if_granted none h = refl
  unopposed_if_granted (some e) h = absurd (ground arith)

  granted-Permitted : (sub : Subscription) → (verdict sub ≡ SubackDeny.granted) ↔ Permitted sub
  unfolding subscribe_reason
  granted-Permitted sub = (
    λ h.
        let valid : valid_topic_filter sub.filter ≡ true = ground (arith, h) in
        let allowed : can_subscribe (b.conns i).client_id (match_filter sub.filter) b.authn ≡ true =
          ground (arith, h, valid) in
        record {
          valid = valid;
          allowed = allowed;
          unopposed = unopposed_if_granted _ (rw (valid, allowed) at h);
        },
    λ permitted.
        rw (permitted.valid, subscribe_reason)
          (rw permitted.allowed (ap hook_reason permitted.unopposed)),
  )

  granted_qos-Capped : (sub : Subscription) → Capped sub
  unfolding granted_qos server_max_qos
  granted_qos-Capped sub = record {
    level = ground arith;
    server = ground arith;
    asked = ground arith;
  }

  -- What a SUBSCRIBE leaves, from a router `r`.
  pub record Answered (r : Router) (subs : List Subscription) (b' : Broker E) (codes : Bytes)
      : Type 0 where
    pub answer : codes ≡ answers subs
    pub router : b'.router ≡ routed subs r
    pub clients : b'.clients ≡ b.clients
    pub sessions : b'.sessions ≡ b.sessions
    pub permitted : (sub : Subscription) → (verdict sub ≡ SubackDeny.granted) ↔ Permitted sub
    pub capped : (sub : Subscription) → Capped sub

  -- A result of the loop from a router.
  abbrev pub Returns : Router → List Subscription → Option (Broker E × Bytes) → Type 0
  Returns r subs x =
      (b' : Broker E) × (codes : Bytes) × (x ≡ some (b', codes)) × Answered r subs b' codes

  add_code-Returns :
      (r r' : Router) (sub : Subscription) (subs : List Subscription)
      (x : Option (Broker E × Bytes))
      → routed (sub ∷ subs) r ≡ routed subs r'
      → Returns r' subs x
      → Returns r (sub ∷ subs) (
          add_code
            (suback_reason_byte (b.conns i).version (granted_qos b.cfg sub.qos) (verdict sub))
            x)
  add_code-Returns r r' sub subs x same (b', codes, e, h) =
      let code = suback_reason_byte (b.conns i).version (granted_qos b.cfg sub.qos) (verdict sub) in
      (
        b',
        code ∷ codes,
        ap (add_code code) e,
        record {
          answer = ap (λ cs. code ∷ cs) h.answer;
          router = h.router ∙ sym same;
          clients = h.clients;
          sessions = h.sessions;
          permitted = h.permitted;
          capped = h.capped;
        },
      )

  -- The broker inside the loop: the router and the tasks change.
  abbrev within : Router → List Task → Broker E
  within r ts = record b { router = r; tasks = ts }

  abbrev after_grant : Bytes → ℕ → Router → List Task → Option (ℕ × Session) → Option (Broker E)
  after_grant filter qos r ts none = none
  after_grant filter qos r ts (some (p, s)) = some (
      add_task (send_retained_to filter i qos)
        (within (Engine.subscribe filter (subscriber_of i (b.conns i).client_id qos) r) ts))

  session_at-within :
      (q : Option ℕ) (r : Router) (ts : List Task) → session_at q (within r ts) ≡ session_at q b
  session_at-within none r ts = refl
  session_at-within (some q) r ts = refl

  module _ (p : ℕ) (s : Session) (logged_in : session_of_client i b ≡ some (p, s)) where
    grant-Returns :
        (filter : Bytes) (qos : ℕ) (subs : List Subscription) (r : Router) (ts : List Task)
        → ((us : List Task)
            → Returns (Engine.subscribe filter (subscriber_of i (b.conns i).client_id qos) r) subs (
                subscribe_each i subs (
                  within
                    (Engine.subscribe filter (subscriber_of i (b.conns i).client_id qos) r)
                    us)))
        → Returns
            (Engine.subscribe filter (subscriber_of i (b.conns i).client_id qos) r)
            subs
            (elim (after_grant filter qos r ts (session_of_client i (within r ts))) [
              | none ↦ none
              | some d ↦ subscribe_each i subs d
            ])
    grant-Returns filter qos subs r ts rest =
        subst
          (λ x.
            Returns (Engine.subscribe filter (subscriber_of i (b.conns i).client_id qos) r) subs
              (elim (after_grant filter qos r ts x) [
                | none ↦ none
                | some d ↦ subscribe_each i subs d
              ]))
          (sym (session_at-within (b.conns i).sess r ts ∙ logged_in))
          (rest (ts ++ (send_retained_to filter i qos ∷ [])))

    subscribe_each-Returns :
        (subs : List Subscription) (r : Router) (ts : List Task)
        → Returns r subs (subscribe_each i subs (within r ts))
    unfolding subscribe_each subscribe_reason grant
    subscribe_each-Returns [] r ts = (
      within r ts,
      [],
      refl,
      record {
        answer = refl;
        router = refl;
        clients = refl;
        sessions = refl;
        permitted = granted-Permitted;
        capped = granted_qos-Capped;
      },
    )
    subscribe_each-Returns (sub ∷ subs) r ts =
        elim (Bool-cases (verdict sub == SubackDeny.granted)) [
          | inr refused ↦
              add_code-Returns r r sub subs _ (rw refused refl)
                (rw refused (subscribe_each-Returns subs r ts))
          | inl granted ↦
              let qos = granted_qos b.cfg sub.qos in
              let r' = Engine.subscribe sub.filter (subscriber_of i (b.conns i).client_id qos) r in
              add_code-Returns r r' sub subs _ (rw granted refl) (
                rw granted
                  (grant-Returns sub.filter qos subs r ts (subscribe_each-Returns subs r')))
        ]

module _ {E : Type 0} where
  -- For a connection with a session the loop of `handleSubscribe` returns: its codes answer the
  -- entries one for one, each judged by the broker as it was at the start, and the router is the
  -- one before with exactly the granted entries subscribed in their order; the registry and the
  -- sessions are as they were. An entry is granted exactly if its filter is valid, the access
  -- rules allow the filter inside its share, and no hook objects, and its QoS is within 2, the
  -- maximum of the server and the QoS that was asked for.
  pub subscribe_each-Answered :
      (i p : ℕ) (s : Session) (subs : List Subscription) (b : Broker E)
      → session_of_client i b ≡ some (p, s)
      → Returns i b b.router subs (subscribe_each i subs b)
  subscribe_each-Answered i p s subs b logged_in =
      subscribe_each-Returns i b p s logged_in subs b.router b.tasks
