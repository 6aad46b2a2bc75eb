-- ===== src/Plugin.antt =====
-- `Hook` and `Manager` of internal/plugin/plugin.go. A hook is foreign code: here a record of
-- functions that answer nil, `none`, or an error of a type that is left open.
pub mod Order
mod Tests
use broker.Prelude.{ℕ, Bytes, codes, List, [], ◌∷◌, ◌++◌, Bool, Option, none, some}

module _ (E : Type 0) where
  pub record Hook : Type 0 where
    pub name : Bytes
    pub on_client_connect : Bytes → Bytes → Option E
    pub on_client_disconnect : Bytes → Bytes → Option E
    pub on_publish : Bytes → Bytes → Bytes → ℕ → Bool → Option E
    pub on_subscribe : Bytes → Bytes → ℕ → Option E

  abbrev pub noop_hook : Hook
  noop_hook = record {
    name = codes "noop";
    on_client_connect = λ client_id username. none;
    on_client_disconnect = λ client_id username. none;
    on_publish = λ client_id topic payload qos retain. none;
    on_subscribe = λ client_id filter qos. none;
  }

  pub record Manager : Type 0 where
    pub hooks : List Hook

  unfoldable pub new_manager : Manager
  new_manager = record { hooks = noop_hook ∷ [] }

  -- `none` is a nil hook.
  unfoldable pub register : Option Hook → Manager → Manager
  register none m = m
  register (some h) m = record { hooks = m.hooks ++ (h ∷ []) }

  -- The loop of `call`.
  unfoldable pub call_hooks : (Hook → Option E) → List Hook → Option E
  call_hooks fn [] = none
  call_hooks fn (h ∷ hooks) =
      let rest = call_hooks fn hooks in elim (fn h) [ none ↦ rest | some e ↦ some e ]

  unfoldable pub on_client_connect : Bytes → Bytes → Manager → Option E
  unfolding call_hooks
  on_client_connect client_id username m =
      call_hooks (λ h. h.on_client_connect client_id username) m.hooks

  unfoldable pub on_client_disconnect : Bytes → Bytes → Manager → Option E
  unfolding call_hooks
  on_client_disconnect client_id username m =
      call_hooks (λ h. h.on_client_disconnect client_id username) m.hooks

  unfoldable pub on_publish : Bytes → Bytes → Bytes → ℕ → Bool → Manager → Option E
  unfolding call_hooks
  on_publish client_id topic payload qos retain m =
      call_hooks (λ h. h.on_publish client_id topic payload qos retain) m.hooks

  unfoldable pub on_subscribe : Bytes → Bytes → ℕ → Manager → Option E
  unfolding call_hooks
  on_subscribe client_id filter qos m =
      call_hooks (λ h. h.on_subscribe client_id filter qos) m.hooks
