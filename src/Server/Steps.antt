-- ===== src/Server/Steps.antt =====
-- The broker as a state machine: what may happen next in internal/broker/server.go and
-- internal/broker/client.go, one atomic call after another. `Run` ends with `cleanup`, and then gives
-- its place in the semaphore back.
pub mod Bounds
use broker.Prelude.{ℕ, if◌then◌else◌, Bytes, List, [], ◌∷◌, ◌++◌, Bool, Option, none, some, ◌≡◌}
use broker.Auth.{Certificate}
use broker.Cluster
use broker.Server.{Broker, Client, Task}
use broker.Server.Actions.{update_client}
use broker.Server.Handshake.{Crypto}
use broker.Server.Handle.{Round, Next, read_round}
use broker.Server.Lifecycle.{cleanup, sweep}
use broker.Server.Deliver.{publish}
use broker.Server.Subscriptions.{run_task}
use broker.Server.Background.{
  Acceptor, accept, release_slot, ClusterMsg, handle_cluster_msg, force_disconnect,
}

-- The acceptor, the connections whose `Run` has not ended, the latest first, and the broker.
pub record System (E : Type 0) : Type 0 where
  pub acceptor : Acceptor
  pub live : List ℕ
  pub broker : Broker E

-- The connections after `accept`, which starts `Run` for a connection that it takes.
abbrev pub started : ℕ → Bool → List ℕ → List ℕ
started i taken live = if taken then i ∷ live else live

-- `writeLoop` takes a packet.
abbrev pub written : List Bytes → Client → Client
written rest c = record c { write_q = rest }

module _ {E : Type 0} (crypto : Crypto) (max_connections : ℕ) where
  pub data Step : System E → System E → Type 0 where
    -- A connection arrives; it is taken if there is room.
    accepted :
        (certificate : Option Certificate) (addr : Bytes) (a : Acceptor) (live : List ℕ)
        (b : Broker E)
        → Step
            (record { acceptor = a; live = live; broker = b })
            (record {
              acceptor = (accept max_connections certificate addr a b).0.0;
              live = started a.next (accept max_connections certificate addr a b).1 live;
              broker = (accept max_connections certificate addr a b).0.1;
            })
    -- A round of the read loop of a connection.
    received :
        (i : ℕ) (r : Round) (stream : Bytes) (next : Next) (before after : List ℕ) (a : Acceptor)
        (b b' : Broker E)
        → read_round crypto r i stream b ≡ some (b', next)
        → Step
            (record { acceptor = a; live = before ++ (i ∷ after); broker = b })
            (record { acceptor = a; live = before ++ (i ∷ after); broker = b' })
    -- `Run` ends: `cleanup`, and the place in the semaphore is given back.
    ended :
        (i now : ℕ) (before after : List ℕ) (a : Acceptor) (b b' : Broker E)
        → cleanup now i b ≡ some b'
        → Step
            (record { acceptor = a; live = before ++ (i ∷ after); broker = b })
            (record { acceptor = release_slot a; live = before ++ after; broker = b' })
    -- The write loop takes a packet.
    sent :
        (i : ℕ) (packet : Bytes) (rest : List Bytes) (a : Acceptor) (live : List ℕ) (b : Broker E)
        → (b.conns i).write_q ≡ packet ∷ rest
        → Step
            (record { acceptor = a; live = live; broker = b })
            (record { acceptor = a; live = live; broker = update_client i (written rest) b })
    -- A goroutine that waits runs, in any order.
    ran :
        (now : ℕ) (rows : Option (List (Bytes × ℕ))) (before after : List Task) (t : Task)
        (a : Acceptor) (live : List ℕ) (b b' : Broker E)
        → b.tasks ≡ before ++ (t ∷ after)
        → run_task now rows t (record b { tasks = before ++ after }) ≡ some b'
        → Step
            (record { acceptor = a; live = live; broker = b })
            (record { acceptor = a; live = live; broker = b' })
    -- A tick of the sweep.
    swept :
        (now : ℕ) (a : Acceptor) (live : List ℕ) (b : Broker E)
        → Step
            (record { acceptor = a; live = live; broker = b })
            (record { acceptor = a; live = live; broker = sweep now b })
    -- A message of the cluster.
    clustered :
        (now : ℕ) (broker_id : Bytes) (m : Cluster.Manager) (msg : ClusterMsg) (a : Acceptor)
        (live : List ℕ) (b b' : Broker E)
        → handle_cluster_msg now broker_id m msg b ≡ some b'
        → Step
            (record { acceptor = a; live = live; broker = b })
            (record { acceptor = a; live = live; broker = b' })
    -- A message of the API, or one that the broker publishes about itself.
    injected :
        (now : ℕ) (topic payload : Bytes) (qos : ℕ) (retain : Bool) (a : Acceptor) (live : List ℕ)
        (b b' : Broker E)
        → publish now topic payload qos retain b ≡ some b'
        → Step
            (record { acceptor = a; live = live; broker = b })
            (record { acceptor = a; live = live; broker = b' })
    -- The API closes a connection.
    forced :
        (i : ℕ) (a : Acceptor) (live : List ℕ) (b b' : Broker E)
        → force_disconnect i b ≡ some b'
        → Step
            (record { acceptor = a; live = live; broker = b })
            (record { acceptor = a; live = live; broker = b' })

  pub data Reach (s : System E) : System E → Type 0 where
    here : Reach s s
    further : (t u : System E) → Reach s t → Step t u → Reach s u
