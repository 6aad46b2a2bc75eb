-- ===== src/Server/Isolation.antt =====
-- What a packet of one connection cannot do to the others, over a round of `readLoop` of
-- internal/broker/client.go.
use broker.Prelude.{ℕ, ltb, Bytes, [], ◌∷◌, ◌++◌, length, some, ◌≡◌, refl, sym, ◌∙◌}
use mathlib.Core.Path.{subst}
use broker.Server.{Broker, Client, is_closed}
use broker.Server.Actions
use broker.Server.Actions.{update_client, push}
use broker.Server.Lifecycle.{close_conn}
use broker.Server.Handshake.{Crypto}
use broker.Server.Handle.{Round, Next, read_round}
use broker.Server.Effects.{if-Holds, updated}
use broker.Server.Invariants.{Invariant}
use broker.Server.Invariants.Subscriptions.{LeavesWith}
use broker.Server.Invariants.Rounds.{read_round-LeavesWith}

-- The same connection but for its write queue and whether it is closed.
pub record SameClient (c d : Client) : Type 0 where
  pub client_id : d.client_id ≡ c.client_id
  pub username : d.username ≡ c.username
  pub version : d.version ≡ c.version
  pub state : d.state ≡ c.state
  pub sess : d.sess ≡ c.sess
  pub topic_aliases : d.topic_aliases ≡ c.topic_aliases
  pub peer_recv_max : d.peer_recv_max ≡ c.peer_recv_max
  pub peer_max_packet_size : d.peer_max_packet_size ≡ c.peer_max_packet_size

push-SameClient :
    (size : ℕ) (packet : Bytes) (c d : Client) → SameClient c d → SameClient c (push size packet d)
unfolding push
push-SameClient size packet c d h = if-Holds (SameClient c) (is_closed d.state) _ _ h (
    if-Holds (SameClient c) (ltb (length d.write_q) size)
      (record d { write_q = d.write_q ++ (packet ∷ []) }) d
      (record {
        client_id = h.client_id;
        username = h.username;
        version = h.version;
        state = h.state;
        sess = h.sess;
        topic_aliases = h.topic_aliases;
        peer_recv_max = h.peer_recv_max;
        peer_max_packet_size = h.peer_max_packet_size;
      })
      h)

close_conn-SameClient : (c d : Client) → SameClient c d → SameClient c (close_conn d)
close_conn-SameClient c d h = record {
  client_id = h.client_id;
  username = h.username;
  version = h.version;
  state = h.state;
  sess = h.sess;
  topic_aliases = h.topic_aliases;
  peer_recv_max = h.peer_recv_max;
  peer_max_packet_size = h.peer_max_packet_size;
}

SameClient-refl : (c : Client) → SameClient c c
SameClient-refl c = record {
  client_id = refl;
  username = refl;
  version = refl;
  state = refl;
  sess = refl;
  topic_aliases = refl;
  peer_recv_max = refl;
  peer_max_packet_size = refl;
}

module _ {E : Type 0} where
  -- What the connection `i` leaves alone.
  pub record Isolated (i : ℕ) (b b' : Broker E) : Type 0 where
    pub cfg : b'.cfg ≡ b.cfg
    pub authn : b'.authn ≡ b.authn
    pub plugins : b'.plugins ≡ b.plugins
    pub others : (j : ℕ) → ¬ (j ≡ i) → SameClient (b.conns j) (b'.conns j)

  update_client-Isolated :
      (i k : ℕ) (f : Client → Client) (b₀ b : Broker E)
      → (¬ (k ≡ i) → SameClient (b₀.conns k) (f (b.conns k)))
      → Isolated i b₀ b
      → Isolated i b₀ (update_client k f b)
  update_client-Isolated i k f b₀ b own h = record {
    cfg = h.cfg;
    authn = h.authn;
    plugins = h.plugins;
    others = λ j differs.
        updated (SameClient (b₀.conns j)) k j f b
          (λ e.
            subst (λ n. SameClient (b₀.conns n) (f (b.conns k))) (sym e)
              (own (λ d. differs (e ∙ d))))
          λ apart. h.others j differs;
  }

  Isolated-Invariant : (i : ℕ) (b₀ : Broker E) → Invariant i (Isolated i b₀)
  unfolding Actions.enqueue
  Isolated-Invariant i b₀ = record {
    stable = record {
      enqueue = λ k packet b h.
          update_client-Isolated i k (push b.cfg.write_queue_size packet) b₀ b
            (λ differs.
              push-SameClient b.cfg.write_queue_size packet (b₀.conns k) (b.conns k)
                (h.others k differs))
            h;
      client =
          λ f b same h. update_client-Isolated i i f b₀ b (λ differs. elim (differs refl) [ ]) h;
      cache = λ cache b h. record {
        cfg = h.cfg;
        authn = h.authn;
        plugins = h.plugins;
        others = h.others;
      };
    };
    passive = record {
      enqueue = λ k packet b h.
          update_client-Isolated i k (push b.cfg.write_queue_size packet) b₀ b
            (λ differs.
              push-SameClient b.cfg.write_queue_size packet (b₀.conns k) (b.conns k)
                (h.others k differs))
            h;
      router =
          λ r b h. record { cfg = h.cfg; authn = h.authn; plugins = h.plugins; others = h.others };
      sessions =
          λ st b h. record { cfg = h.cfg; authn = h.authn; plugins = h.plugins; others = h.others };
    };
    close = λ k b h.
        update_client-Isolated i k close_conn b₀ b
          (λ differs. close_conn-SameClient (b₀.conns k) (b.conns k) (h.others k differs)) h;
    clients =
        λ cs b h. record { cfg = h.cfg; authn = h.authn; plugins = h.plugins; others = h.others };
    tasks =
        λ ts b h. record { cfg = h.cfg; authn = h.authn; plugins = h.plugins; others = h.others };
  }

  -- A round of the read loop of one connection leaves the configuration, the access rules with the
  -- users and the hooks as they were, and of every other connection the client identifier, the
  -- user name, the version, the state, the session, the topic aliases and the limits that it
  -- announced.
  pub read_round-Isolated :
      (crypto : Crypto) (r : Round) (i : ℕ) (stream : Bytes) (b b' : Broker E) (next : Next)
      → read_round crypto r i stream b ≡ some (b', next)
      → Isolated i b b'
  read_round-Isolated crypto r i stream b b' next e = subst (LeavesWith (Isolated i b)) e (
      read_round-LeavesWith i (Isolated i b) (Isolated-Invariant i b) crypto r stream b (record {
        cfg = refl;
        authn = refl;
        plugins = refl;
        others = λ j differs. SameClient-refl (b.conns j);
      }))
