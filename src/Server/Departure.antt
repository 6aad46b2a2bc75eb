-- ===== src/Server/Departure.antt =====
-- What `cleanup` of internal/broker/client.go leaves behind.
use broker.Prelude.{
  ℕ, Bytes, true, false, Option, none, some, ◌≡◌, refl, sym, ◌∙◌, bytes_eq_self, bytes_eq_instance,
  ltb, length, [], ◌∷◌, ◌++◌, Bool-cases, inl, inr,
}
use mathlib.Core.Path.{subst}
use broker.Prelude.Maps.{lookup, lookup-delete}
use broker.Protocol.Topic.{is_empty}
use broker.Session.{Session}
use broker.Server.{Broker, Client, is_closed}
use broker.Server.Actions
use broker.Server.Actions.{update_client, session_at, push}
use broker.Server.Lifecycle.{finish, unregister, end_session, publish_will, cleanup_once, cleanup}
use broker.Server.Effects.{Leaves, if-Holds, updated}
use broker.Server.Invariants.{Passive}
use broker.Server.Invariants.Endings.{end_session-Invariant, publish_will-Leaves}

module _ {E : Type 0} (P : Broker E → Type 0) (passive : Passive P) where
  -- What holds once the client is out of the registry holds at the end.
  after_unregister :
      (now i : ℕ) (b : Broker E)
      → is_empty (b.conns i).client_id ≡ false
      → P (unregister (b.conns i).client_id (update_client i finish b))
      → Leaves P (cleanup_once now i b)
  unfolding cleanup_once
  after_unregister now i b named h = rw named (
      by-cases
        (session_at (b.conns i).sess (unregister (b.conns i).client_id (update_client i finish b))))
    where
      by-cases :
          (r : Option (ℕ × Session))
          → Leaves P (elim r [
            | none ↦ some (unregister (b.conns i).client_id (update_client i finish b))
            | some (p, s) ↦ publish_will now s (
                end_session now
                  (b.conns i).client_id
                  p
                  s
                  (unregister (b.conns i).client_id (update_client i finish b)))
          ])
      by-cases none = h
      by-cases (some (p, s)) =
          publish_will-Leaves P passive now s _
            (end_session-Invariant P passive now (b.conns i).client_id p s _ h)

module _ {E : Type 0} where
  abbrev Unregistered : Bytes → Broker E → Type 0
  Unregistered client_id b = lookup client_id b.clients ≡ none

  Unregistered-Passive : (client_id : Bytes) → Passive (Unregistered client_id)
  unfolding Actions.enqueue
  Unregistered-Passive client_id = record {
    enqueue = λ j packet b h. h;
    router = λ r b h. h;
    sessions = λ st b h. h;
  }

  cleanup_running :
      (now i : ℕ) (b : Broker E)
      → (b.conns i).finished ≡ false
      → cleanup now i b ≡ cleanup_once now i b
  unfolding cleanup
  cleanup_running now i b running = rw running refl

  -- `cleanup` of a connection that was not cleaned up before and that has a client identifier, if
  -- it returns, leaves nobody in the registry under that identifier, also if it stood there for a
  -- later connection.
  pub lookup-cleanup :
      (now i : ℕ) (b b' : Broker E)
      → (b.conns i).finished ≡ false
      → is_empty (b.conns i).client_id ≡ false
      → cleanup now i b ≡ some b'
      → lookup (b.conns i).client_id b'.clients ≡ none
  unfolding unregister
  lookup-cleanup now i b b' running named e =
      let client_id = (b.conns i).client_id in
      let gone : lookup client_id (unregister client_id (update_client i finish b)).clients ≡ none =
        lookup-delete client_id client_id b.clients ∙ rw (bytes_eq_self client_id) refl in
      subst (Leaves (Unregistered client_id)) (sym (cleanup_running now i b running) ∙ e) (
        after_unregister (Unregistered client_id) (Unregistered-Passive client_id) now i b named
          gone)

  abbrev Finished : ℕ → Broker E → Type 0
  Finished i b = (b.conns i).finished ≡ true

  enqueue-Finished :
      (i j : ℕ) (packet : Bytes) (b : Broker E)
      → Finished i b
      → Finished i (Actions.enqueue j packet b)
  unfolding Actions.enqueue push
  enqueue-Finished i j packet b h =
      updated (λ c. c.finished ≡ true) j i (push b.cfg.write_queue_size packet) b
        (λ e.
          let same : (b.conns j).finished ≡ true = rw (← e) h in
          if-Holds {X = Client} (λ c. c.finished ≡ true) (is_closed (b.conns j).state) _ _ same
            (if-Holds {X = Client} (λ c. c.finished ≡ true)
              (ltb (length (b.conns j).write_q) b.cfg.write_queue_size)
              (record (b.conns j) { write_q = (b.conns j).write_q ++ (packet ∷ []) }) (b.conns j)
              same same))
        λ apart. h

  Finished-Passive : (i : ℕ) → Passive (Finished i)
  Finished-Passive i = record {
    enqueue = enqueue-Finished i;
    router = λ r b h. h;
    sessions = λ st b h. h;
  }

  finish-Finished : (i : ℕ) (b : Broker E) → Finished i (update_client i finish b)
  finish-Finished i b =
      updated (λ c. c.finished ≡ true) i i finish b (λ e. refl) (λ differs. elim (differs refl) [ ])

  cleanup-Finished : (now i : ℕ) (b : Broker E) → Leaves (Finished i) (cleanup now i b)
  unfolding cleanup cleanup_once unregister
  cleanup-Finished now i b = elim (Bool-cases (b.conns i).finished) [
    | inl over ↦ rw over over
    | inr running ↦ rw running (elim (Bool-cases (is_empty (b.conns i).client_id)) [
      | inl unnamed ↦ rw (unnamed, cleanup_once) (finish-Finished i b)
      | inr named ↦
          after_unregister (Finished i) (Finished-Passive i) now i b named (finish-Finished i b)
    ])
  ]

  -- A second `cleanup` of a connection does nothing.
  cleanup-cleanup :
      (now later i : ℕ) (b b' : Broker E) → cleanup now i b ≡ some b' → cleanup later i b' ≡ some b'
  unfolding cleanup
  cleanup-cleanup now later i b b' e =
      let over : (b'.conns i).finished ≡ true =
        subst (Leaves (Finished i)) e (cleanup-Finished now i b) in
      rw over refl
