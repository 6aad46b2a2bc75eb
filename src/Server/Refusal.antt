-- ===== src/Server/Refusal.antt =====
-- CONNECT packets that `handleConnect` of internal/broker/client.go refuses.
use broker.Prelude.{ℕ, Bytes, some, ◌≡◌, refl}
use mathlib.Core.Path.{subst}
use broker.Protocol.Connect.{decode_connect}
use broker.Server.{Broker, Client, HandleError}
use broker.Server.Actions
use broker.Server.Actions.{Action, failed, modify, update_client, ◌>>=◌}
use broker.Server.Handshake.{Crypto, handle_connect}
use broker.Server.Invariants.Handlers.{Keeps}
use broker.Server.Effects.{
  EndsIfFailed, Stable, continue-EndsIfFailed, accept_client-EndsIfFailed, decoded_connect-Ends,
  auth_certificate-Ends, auth_credentials-Ends, choose_client_id-Ends, ask_hooks-Ends,
}

module _ {E : Type 0} where
  -- What a refusal leaves alone: all that other clients can see.
  pub record Untouched (b b' : Broker E) : Type 0 where
    pub router : b'.router ≡ b.router
    pub sessions : b'.sessions ≡ b.sessions
    pub clients : b'.clients ≡ b.clients
    pub tasks : b'.tasks ≡ b.tasks

  pub Untouched-refl : (b : Broker E) → Untouched b b
  Untouched-refl b = record { router = refl; sessions = refl; clients = refl; tasks = refl }

  pub Untouched-Stable : (i : ℕ) (b₀ : Broker E) → Stable i (Untouched b₀)
  unfolding Actions.enqueue
  Untouched-Stable i b₀ = record {
    enqueue = λ j packet b h. record {
      router = h.router;
      sessions = h.sessions;
      clients = h.clients;
      tasks = h.tasks;
    };
    client = λ f b same h. record {
      router = h.router;
      sessions = h.sessions;
      clients = h.clients;
      tasks = h.tasks;
    };
    cache = λ cache b h. record {
      router = h.router;
      sessions = h.sessions;
      clients = h.clients;
      tasks = h.tasks;
    };
  }

  -- A call that keeps a property if it fails.
  record Refuses {A : Type 0} (P : Broker E → Type 0) (m : Action E A) : Type 0 where
    refuses : (b : Broker E) → P b → EndsIfFailed P (m b)

  then-Refuses :
      (A B : Type 0) (P : Broker E → Type 0) (m : Action E A) (f : A → Action E B)
      → Keeps P m
      → ((a : A) → Refuses P (f a))
      → Refuses P (m >>= f)
  then-Refuses A B P m f h k = record {
    refuses = λ b u. continue-EndsIfFailed P f (m b) (h.keeps b u) (λ a b₁ u₁. (k a).refuses b₁ u₁);
  }

module _ {E : Type 0} (i : ℕ) (P : Broker E → Type 0) (stable : Stable i P) where
  modify_client-Keeps :
      (f : Client → Client)
      → ((b : Broker E) → (f (b.conns i)).write_q ≡ (b.conns i).write_q)
      → Keeps P (modify (update_client i f))
  modify_client-Keeps f same = record { keeps = λ b u. stable.client f b (same b) u }

  handle_connect-Refuses :
      (crypto : Crypto) (now : ℕ) (body : Bytes) → Refuses P (handle_connect crypto now i body)
  unfolding handle_connect
  handle_connect-Refuses crypto now body =
      then-Refuses _ _ P _ _
        (record { keeps = λ b u. decoded_connect-Ends i P stable body (decode_connect body) b u })
        λ pkt.
          then-Refuses _ _ P _ _
            (modify_client-Keeps (λ c. record c { version = pkt.version }) (λ b. refl))
            λ _.
              then-Refuses _ _ P _ _
                (record { keeps = λ b u. auth_certificate-Ends i P stable b u })
                λ _.
                  then-Refuses _ _ P _ _
                    (record { keeps = λ b u. auth_credentials-Ends i P stable crypto now pkt b u })
                    λ _.
                      then-Refuses _ _ P _ _
                        (record { keeps = λ b u. choose_client_id-Ends i P stable now pkt b u })
                        λ client_id.
                          then-Refuses _ _ P _ _
                            (modify_client-Keeps (λ c. record c { client_id = client_id })
                              (λ b. refl))
                            λ _.
                              then-Refuses _ _ P _ _
                                (record { keeps = λ b u. ask_hooks-Ends i P stable client_id b u })
                                λ _. record {
                                  refuses =
                                      λ b u. accept_client-EndsIfFailed P now i client_id pkt b;
                                }

module _ {E : Type 0} where
  -- A CONNECT that `handleConnect` ends with an error, for whatever reason, leaves the router, the
  -- sessions, the registry of the clients and the goroutines that wait as they were.
  pub handle_connect-Untouched :
      (crypto : Crypto) (now i : ℕ) (body : Bytes) (b b' : Broker E) (e : HandleError E)
      → handle_connect crypto now i body b ≡ some (b', failed e)
      → Untouched b b'
  handle_connect-Untouched crypto now i body b b' e refused =
      subst (EndsIfFailed (Untouched b)) refused (
        (handle_connect-Refuses i (Untouched b) (Untouched-Stable i b) crypto now body).refuses b
          (Untouched-refl b))
