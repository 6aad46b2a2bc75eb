-- ===== src/Plugin/Tests.antt =====
-- The theorems on hooks at concrete ones.
use broker.Prelude.{ℕ, codes, [], ◌∷◌, false, Option, none, some, ◌≡◌, refl}
use broker.Plugin.{Hook, noop_hook, call_hooks}

-- A hook that answers every publish with the error 7.
abbrev strict : Hook ℕ
strict = record {
  name = codes "strict";
  on_client_connect = λ client_id username. none;
  on_client_disconnect = λ client_id username. none;
  on_publish = λ client_id topic payload qos retain. some 7;
  on_subscribe = λ client_id filter qos. none;
}

abbrev asked : Hook ℕ → Option ℕ
asked h = h.on_publish (codes "ann") (codes "a/b") (codes "x") 1 false

refused : call_hooks ℕ asked (noop_hook ℕ ∷ strict ∷ []) ≡ some 7
unfolding call_hooks
refused = refl
