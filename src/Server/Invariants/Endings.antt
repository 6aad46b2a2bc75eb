-- ===== src/Server/Invariants/Endings.antt =====
-- `cleanup` of internal/broker/client.go, the tasks that wait, and the sweep and the messages from
-- outside of internal/broker/server.go.
use broker.Prelude.{ℕ, Bytes, List, [], ◌∷◌, false, Option, none, some, refl}
use broker.Protocol.Topic.{is_empty}
use broker.Session.{
  Session, set_connected, prepare_disconnect_expiry, should_expire_disconnected, drain_queue,
}
use broker.Cluster
use broker.Server.{Broker, Task, restore_session, drain_offline_queue, send_retained_to}
use broker.Server.Actions.{update_client, session_at}
use broker.Server.Lifecycle.{
  finish, unregister, purge_persistent_session, end_session, publish_will, cleanup_once, cleanup,
  sweep_session, sweep_all, sweep, stored_sessions, without_will,
}
use broker.Server.Deliver.{drain_offline, drained}
use broker.Server.Subscriptions.{restore_subs, run_task}
use broker.Server.Background.{ClusterMsg, takes_cluster_msg, handle_cluster_msg, force_disconnect}
use broker.Server.Effects.{Leaves, if-Holds}
use broker.Server.Invariants.{
  Passive, Invariant, update_session-Invariant, session-Leaves, deliver_each-Leaves, publish-Leaves,
}

module _ {E : Type 0} (P : Broker E → Type 0) (inv : Passive P) where
  pub purge-Invariant :
      (client_id : Bytes) (b : Broker E) → P b → P (purge_persistent_session client_id b)
  unfolding purge_persistent_session
  purge-Invariant client_id b h = inv.sessions _ _ (inv.router _ b h)

  pub end_session-Invariant :
      (now : ℕ) (client_id : Bytes) (p : ℕ) (s : Session) (b : Broker E)
      → P b
      → P (end_session now client_id p s b)
  unfolding end_session
  end_session-Invariant now client_id p s b h =
      let h₁ = update_session-Invariant P inv p (set_connected now false) b h in
      let expiry = prepare_disconnect_expiry now (set_connected now false s) in
      let h₂ = update_session-Invariant P inv p (λ t. expiry.0) _ h₁ in
      if-Holds P s.clean_session _ _ (purge-Invariant client_id _ h₁)
        (if-Holds P expiry.1 _ _ (purge-Invariant client_id _ h₂) h₂)

  pub publish_will-Leaves :
      (now : ℕ) (s : Session) (b : Broker E) → P b → Leaves P (publish_will now s b)
  unfolding publish_will
  publish_will-Leaves now s b h =
      if-Holds (Leaves P) s.will_set _ _
        (publish-Leaves P inv now s.will_topic s.will_payload s.will_qos s.will_retain b h) h

  sweep_all-Invariant :
      (now : ℕ) (sessions : List Session) (b : Broker E) → P b → P (sweep_all now sessions b)
  unfolding sweep_all sweep_session
  sweep_all-Invariant now [] b h = h
  sweep_all-Invariant now (s ∷ rest) b h =
      sweep_all-Invariant now rest _
        (if-Holds P (should_expire_disconnected now s) _ _ (purge-Invariant s.client_id b h) h)

  pub sweep-Invariant : (now : ℕ) (b : Broker E) → P b → P (sweep now b)
  unfolding sweep
  sweep-Invariant now b h =
      sweep_all-Invariant now (stored_sessions b.sessions.data_of b.sessions.heap) b h

  restore_subs-Invariant :
      (j : ℕ) (rows : List (Bytes × ℕ)) (b : Broker E) → P b → P (restore_subs j rows b)
  unfolding restore_subs
  restore_subs-Invariant j [] b h = h
  restore_subs-Invariant j ((filter, qos) ∷ rows) b h =
      restore_subs-Invariant j rows _ (inv.router _ b h)

  drain_offline-Leaves : (now j : ℕ) (b : Broker E) → P b → Leaves P (drain_offline now j b)
  unfolding drain_offline
  drain_offline-Leaves now j b h = session-Leaves P inv j b (some b) _ h λ p s.
      deliver_each-Leaves P inv now (drained j (drain_queue s).1) _
        (update_session-Invariant P inv p (λ t. (drain_queue s).0) b h)

  pub run_task-Leaves :
      (now : ℕ) (rows : Option (List (Bytes × ℕ))) (t : Task) (b : Broker E)
      → P b
      → Leaves P (run_task now rows t b)
  unfolding run_task
  run_task-Leaves now none (restore_session j) b h = h
  run_task-Leaves now (some rows) (restore_session j) b h = restore_subs-Invariant j rows b h
  run_task-Leaves now none (drain_offline_queue j) b h = drain_offline-Leaves now j b h
  run_task-Leaves now (some rows) (drain_offline_queue j) b h = drain_offline-Leaves now j b h
  run_task-Leaves now none (send_retained_to filter j qos) b h = deliver_each-Leaves P inv now _ b h
  run_task-Leaves now (some rows) (send_retained_to filter j qos) b h =
      deliver_each-Leaves P inv now _ b h

  pub handle_cluster_msg-Leaves :
      (now : ℕ) (broker_id : Bytes) (m : Cluster.Manager) (msg : ClusterMsg) (b : Broker E)
      → P b
      → Leaves P (handle_cluster_msg now broker_id m msg b)
  unfolding handle_cluster_msg
  handle_cluster_msg-Leaves now broker_id m msg b h =
      if-Holds (Leaves P) (takes_cluster_msg broker_id m msg) _ _
        (publish-Leaves P inv now msg.topic msg.payload msg.qos msg.retain b h) h

module _ {E : Type 0} (i : ℕ) (P : Broker E → Type 0) (inv : Invariant i P) where
  cleanup_once-Leaves : (now : ℕ) (b : Broker E) → P b → Leaves P (cleanup_once now i b)
  unfolding cleanup_once unregister
  cleanup_once-Leaves now b h =
      let c = b.conns i in
      let h₁ = inv.stable.client finish b refl h in
      let h₂ = inv.clients _ _ h₁ in
      if-Holds (Leaves P) (is_empty c.client_id) _ _ h₁ (
        by-cases (unregister c.client_id (update_client i finish b)) h₂
          (session_at c.sess (unregister c.client_id (update_client i finish b))))
    where
      by-cases :
          (b₂ : Broker E) (h₂ : P b₂) (r : Option (ℕ × Session))
          → Leaves P (elim r [
            | none ↦ some b₂
            | some (p, s) ↦ publish_will now s (end_session now (b.conns i).client_id p s b₂)
          ])
      by-cases b₂ h₂ none = h₂
      by-cases b₂ h₂ (some (p, s)) =
          publish_will-Leaves P inv.passive now s _
            (end_session-Invariant P inv.passive now (b.conns i).client_id p s b₂ h₂)

  pub cleanup-Leaves : (now : ℕ) (b : Broker E) → P b → Leaves P (cleanup now i b)
  unfolding cleanup
  cleanup-Leaves now b h =
      if-Holds (Leaves P) (b.conns i).finished _ _ h (cleanup_once-Leaves now b h)

  pub force_disconnect-Leaves : (j : ℕ) (b : Broker E) → P b → Leaves P (force_disconnect j b)
  unfolding force_disconnect
  force_disconnect-Leaves j b h =
      session-Leaves P inv.passive j b none _ tt
        λ p s. inv.close j _ (update_session-Invariant P inv.passive p without_will b h)
