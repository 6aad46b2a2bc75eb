-- ===== src/Server/Actions.antt =====
-- The handlers of package broker as state-passing calls. A call may end in a Go error, which leaves
-- what was written so far; `none` is a call that panics or never returns.
use broker.Prelude.{
  ℕ, zero, suc, ◌==◌, ltb, if◌then◌else◌, Bytes, List, [], ◌∷◌, ◌++◌, Option, none, some, length,
  get_elem?,
}
use broker.Protocol.Result.{Result}
use broker.Session.{Session}
use broker.Server.{Broker, Client, HandleError, decode_error, Task, is_closed}

pub data Outcome (E A : Type 0) : Type 0 where
  done : A → Outcome E A
  failed : HandleError E → Outcome E A

abbrev pub Action : Type 0 → Type 0 → Type 0
Action E A = Broker E → Option (Broker E × Outcome E A)

module _ {E A : Type 0} where
  abbrev pub pure : A → Action E A
  pure a b = some (b, done a)

  abbrev pub raise : HandleError E → Action E A
  raise e b = some (b, failed e)

  abbrev pub crash : Action E A
  crash b = none

  abbrev pub gets : (Broker E → A) → Action E A
  gets f b = some (b, done (f b))

  -- What a decoder returns.
  abbrev pub decode : Result A → Action E A
  decode (Result.ok a) = pure a
  decode (Result.err e) = raise (decode_error e)
  decode Result.panic = crash
  decode Result.hang = crash

-- What follows a call.
abbrev pub continue :
    {E A B : Type 0}
    → (A → Action E B)
    → Option (Broker E × Outcome E A)
    → Option (Broker E × Outcome E B)
continue f none = none
continue f (some (b, done a)) = f a b
continue f (some (b, failed e)) = some (b, failed e)

infixl 5 ◌>>=◌ ◌>>◌
abbrev pub ◌>>=◌ : {E A B : Type 0} → Action E A → (A → Action E B) → Action E B
◌>>=◌ m f b = continue f (m b)

abbrev pub ◌>>◌ : {E B : Type 0} → Action E (Unit {0}) → Action E B → Action E B
m >> k = m >>= λ _. k

module _ {E : Type 0} where
  abbrev pub modify : (Broker E → Broker E) → Action E (Unit {0})
  modify f b = some (f b, done tt)

  -- A call that gives no error.
  abbrev pub run : (Broker E → Option (Broker E)) → Action E (Unit {0})
  run f b = elim (f b) [ none ↦ none | some b' ↦ some (b', done tt) ]

  abbrev pub update_client : ℕ → (Client → Client) → Broker E → Broker E
  update_client i f b = record b { conns = λ j. if j == i then f (b.conns j) else b.conns j }

  abbrev pub add_task : Task → Broker E → Broker E
  add_task t b = record b { tasks = b.tasks ++ (t ∷ []) }

-- A write through a pointer to a session.
unfoldable pub modify_at : ℕ → (Session → Session) → List Session → List Session
modify_at p f [] = []
modify_at zero f (s ∷ heap) = f s ∷ heap
modify_at (suc p) f (s ∷ heap) = s ∷ modify_at p f heap

module _ {E : Type 0} where
  abbrev pub deref : ℕ → Broker E → Option Session
  deref p b = get_elem? b.sessions.heap p

  unfoldable pub update_session : ℕ → (Session → Session) → Broker E → Broker E
  unfolding modify_at
  update_session p f b = record b {
    sessions = record b.sessions { heap = modify_at p f b.sessions.heap };
  }

  -- `c.sess`; `none` is a nil pointer.
  abbrev pub session_at : Option ℕ → Broker E → Option (ℕ × Session)
  session_at none b = none
  session_at (some p) b = elim (deref p b) [ none ↦ none | some s ↦ some (p, s) ]

  abbrev pub session_of_client : ℕ → Broker E → Option (ℕ × Session)
  session_of_client i b = session_at (b.conns i).sess b

-- A send to the channel that does not block: a full buffer drops the packet.
unfoldable pub push : ℕ → Bytes → Client → Client
push size packet c =
    if is_closed c.state
    then c
    else if ltb (length c.write_q) size
    then record c { write_q = c.write_q ++ (packet ∷ []) }
    else c

module _ {E : Type 0} where
  -- `enqueue`
  unfoldable pub enqueue : ℕ → Bytes → Broker E → Broker E
  unfolding push
  enqueue i packet b = update_client i (push b.cfg.write_queue_size packet) b

  -- The same for a packet whose encoder may panic.
  abbrev pub enqueue_packet : ℕ → Option Bytes → Broker E → Option (Broker E)
  enqueue_packet i none b = none
  enqueue_packet i (some packet) b = some (enqueue i packet b)
