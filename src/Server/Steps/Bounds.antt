-- ===== src/Server/Steps/Bounds.antt =====
-- The capacity of the write queues and of the semaphore of internal/broker.
use broker.Prelude.{
  ℕ, ◌<◌, ◌≤◌, ltb, Bytes, List, [], ◌∷◌, ◌++◌, Option, ◌≡◌, ap, length, length-append, ltb→lt,
  Bool-cases, inl, inr, arith,
}
use mathlib.Core.Path.{subst}
use broker.Auth.{Certificate}
use broker.Server.{Broker, Client, is_closed, new_client}
use broker.Server.Actions
use broker.Server.Actions.{update_client, push}
use broker.Server.Lifecycle.{close_conn}
use broker.Server.Background.{Acceptor, accept, release_slot}
use broker.Server.Effects.{Leaves, if-Holds, updated}
use broker.Server.Invariants.{Invariant, publish-Leaves}
use broker.Server.Invariants.Subscriptions.{LeavesWith}
use broker.Server.Invariants.Rounds.{read_round-LeavesWith}
use broker.Server.Invariants.Endings.{
  cleanup-Leaves, sweep-Invariant, run_task-Leaves, handle_cluster_msg-Leaves,
  force_disconnect-Leaves,
}
use broker.Server.Handshake.{Crypto}
use broker.Server.Steps
use broker.Server.Steps.{System, Step, Reach, written, started}

push-fits :
    (size : ℕ) (packet : Bytes) (c : Client)
    → length c.write_q ≤ size
    → length (push size packet c).write_q ≤ size
unfolding push
push-fits size packet c h =
    let Fits : Client → Type 0 = λ d. length d.write_q ≤ size in
    if-Holds Fits (is_closed c.state) _ _ h (elim (Bool-cases (ltb (length c.write_q) size)) [
      | inl room ↦ rw room (
          ground
            (arith, ltb→lt (length c.write_q) size room, length-append c.write_q (packet ∷ [])))
      | inr full ↦ rw full h
    ])

module _ {E : Type 0} where
  -- No write queue is over its capacity.
  pub record IsBounded (b : Broker E) : Type 0 where
    pub bounded : (j : ℕ) → length (b.conns j).write_q ≤ b.cfg.write_queue_size

  update_client-IsBounded :
      (i : ℕ) (f : Client → Client) (b : Broker E)
      → length (f (b.conns i)).write_q ≤ b.cfg.write_queue_size
      → IsBounded b
      → IsBounded (update_client i f b)
  update_client-IsBounded i f b fits h = record {
    bounded = λ j.
        updated (λ c. length c.write_q ≤ b.cfg.write_queue_size) i j f b (λ e. fits)
          λ differs. h.bounded j;
  }

  pub IsBounded-Invariant : (i : ℕ) → Invariant i IsBounded
  unfolding Actions.enqueue
  IsBounded-Invariant i = record {
    stable = record {
      enqueue = λ j packet b h.
          update_client-IsBounded j (push b.cfg.write_queue_size packet) b
            (push-fits b.cfg.write_queue_size packet (b.conns j) (h.bounded j)) h;
      client = λ f b same h. update_client-IsBounded i f b (rw same (h.bounded i)) h;
      cache = λ cache b h. record { bounded = h.bounded };
    };
    passive = record {
      enqueue = λ j packet b h.
          update_client-IsBounded j (push b.cfg.write_queue_size packet) b
            (push-fits b.cfg.write_queue_size packet (b.conns j) (h.bounded j)) h;
      router = λ r b h. record { bounded = h.bounded };
      sessions = λ st b h. record { bounded = h.bounded };
    };
    close = λ j b h. update_client-IsBounded j close_conn b (h.bounded j) h;
    clients = λ cs b h. record { bounded = h.bounded };
    tasks = λ ts b h. record { bounded = h.bounded };
  }

-- Strictly falling numbers below `n`.
abbrev pub IsBelow : ℕ → List ℕ → Type 0
IsBelow n [] = Unit
IsBelow n (i ∷ is) = (i < n) × IsBelow i is

IsBelow-weaken : (is : List ℕ) (i n : ℕ) → i < n → IsBelow i is → IsBelow n is
IsBelow-weaken [] i n less h = tt
IsBelow-weaken (j ∷ is) i n less (below, h) = (omega arith, h)

IsBelow-remove :
    (before after : List ℕ) (n i : ℕ)
    → IsBelow n (before ++ (i ∷ after))
    → IsBelow n (before ++ after)
IsBelow-remove [] after n i (below, h) = IsBelow-weaken after i n below h
IsBelow-remove (j ∷ before) after n i (below, h) = (below, IsBelow-remove before after j i h)

module _ {E : Type 0} (crypto : Crypto) (max_connections : ℕ) where
  -- The queues; the connections whose `Run` has not ended, which are different ones; and their
  -- number, which is that of the places in use.
  pub record IsWithinLimits (s : System E) : Type 0 where
    pub queues : IsBounded s.broker
    pub apart : IsBelow s.acceptor.next s.live
    pub counted : length s.live ≡ s.acceptor.in_use
    pub slots : length s.live ≤ max_connections

  accept-IsWithinLimits :
      (certificate : Option Certificate) (addr : Bytes) (a : Acceptor) (live : List ℕ)
      (b : Broker E)
      → IsWithinLimits (record { acceptor = a; live = live; broker = b })
      → IsWithinLimits (record {
        acceptor = (accept max_connections certificate addr a b).0.0;
        live = started a.next (accept max_connections certificate addr a b).1 live;
        broker = (accept max_connections certificate addr a b).0.1;
      })
  unfolding accept new_client
  accept-IsWithinLimits certificate addr a live b h =
      elim (Bool-cases (ltb a.in_use max_connections)) [
        | inl room ↦ rw room (record {
          queues =
              update_client-IsBounded a.next (λ c. new_client certificate addr) b (omega arith)
                h.queues;
          apart = (omega arith, h.apart);
          counted = omega (arith, h.counted);
          slots = omega (arith, h.counted, ltb→lt a.in_use max_connections room);
        })
        | inr full ↦ rw full h
      ]

  step-IsWithinLimits :
      (s t : System E) → Step crypto max_connections s t → IsWithinLimits s → IsWithinLimits t
  unfolding release_slot
  step-IsWithinLimits s t (Steps.accepted certificate addr a live b) h =
      accept-IsWithinLimits certificate addr a live b h
  step-IsWithinLimits s t (Steps.received i r stream next before after a b b' e) h = record {
    queues =
        subst (LeavesWith IsBounded) e
          (read_round-LeavesWith i IsBounded (IsBounded-Invariant i) crypto r stream b h.queues);
    apart = h.apart;
    counted = h.counted;
    slots = h.slots;
  }
  step-IsWithinLimits s t (Steps.ended i now before after a b b' e) h = record {
    queues =
        subst (Leaves IsBounded) e
          (cleanup-Leaves i IsBounded (IsBounded-Invariant i) now b h.queues);
    apart = IsBelow-remove before after a.next i h.apart;
    counted =
        omega (arith, h.counted, length-append before (i ∷ after), length-append before after);
    slots = omega (arith, h.slots, length-append before (i ∷ after), length-append before after);
  }
  step-IsWithinLimits s t (Steps.sent i packet rest a live b e) h = record {
    queues =
        update_client-IsBounded i (written rest) b (omega (arith, h.queues.bounded i, ap length e))
          h.queues;
    apart = h.apart;
    counted = h.counted;
    slots = h.slots;
  }
  step-IsWithinLimits s t (Steps.ran now rows before after task a live b b' e ran) h = record {
    queues = subst (Leaves IsBounded) ran (
        run_task-Leaves IsBounded ((IsBounded-Invariant 0).passive) now rows task
          (record b { tasks = before ++ after }) (record { bounded = h.queues.bounded }));
    apart = h.apart;
    counted = h.counted;
    slots = h.slots;
  }
  step-IsWithinLimits s t (Steps.swept now a live b) h = record {
    queues = sweep-Invariant IsBounded ((IsBounded-Invariant 0).passive) now b h.queues;
    apart = h.apart;
    counted = h.counted;
    slots = h.slots;
  }
  step-IsWithinLimits s t (Steps.clustered now broker_id m msg a live b b' e) h = record {
    queues = subst (Leaves IsBounded) e (
        handle_cluster_msg-Leaves IsBounded ((IsBounded-Invariant 0).passive) now broker_id m msg b
          h.queues);
    apart = h.apart;
    counted = h.counted;
    slots = h.slots;
  }
  step-IsWithinLimits s t (Steps.injected now topic payload qos retain a live b b' e) h = record {
    queues = subst (Leaves IsBounded) e (
        publish-Leaves IsBounded ((IsBounded-Invariant 0).passive) now topic payload qos retain b
          h.queues);
    apart = h.apart;
    counted = h.counted;
    slots = h.slots;
  }
  step-IsWithinLimits s t (Steps.forced i a live b b' e) h = record {
    queues =
        subst (Leaves IsBounded) e
          (force_disconnect-Leaves 0 IsBounded (IsBounded-Invariant 0) i b h.queues);
    apart = h.apart;
    counted = h.counted;
    slots = h.slots;
  }

  -- Whatever happens to the broker, connections that arrive, rounds of the read loop of the
  -- connections that run, ends of these connections, goroutines in any order, sweeps, cluster
  -- messages and API calls: if at first no write queue is over its capacity, the running
  -- connections are different ones, as many as the places of the semaphore in use, and within the
  -- limit, then all this holds at every later moment.
  pub Reach-IsWithinLimits :
      (s t : System E) → Reach crypto max_connections s t → IsWithinLimits s → IsWithinLimits t
  Reach-IsWithinLimits s t Steps.here h = h
  Reach-IsWithinLimits s t (Steps.further u v path step) h =
      step-IsWithinLimits u v step (Reach-IsWithinLimits s u path h)
