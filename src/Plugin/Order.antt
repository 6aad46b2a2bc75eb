-- ===== src/Plugin/Order.antt =====
-- The order in which `call` of internal/plugin/plugin.go asks the hooks.
use broker.Prelude.{
  ℕ, Bytes, Bool, List, [], ◌∷◌, ◌++◌, Option, none, some, ◌≡◌, All, refl, ap, ◌∙◌, arith,
  Option-cases, inl, inr,
}
use broker.Plugin.{Hook, Manager, call_hooks, register, on_publish}

module _ (E : Type 0) where
  -- No hook of the list objects.
  abbrev pub Silent : (Hook E → Option E) → List (Hook E) → Type 0
  Silent fn hooks = All (λ h. fn h ≡ none) hooks

  -- If asking the hooks gives an error, it is the answer of one of the registered hooks, and every
  -- hook before that one has answered nil.
  pub call_hooks-first :
      (fn : Hook E → Option E) (hooks : List (Hook E)) (e : E)
      → call_hooks E fn hooks ≡ some e
      → (before : List (Hook E)) × (h : Hook E) × (after : List (Hook E)) × (hooks
          ≡ before ++ (h ∷ after))
        × Silent fn before
        × (fn h ≡ some e)
  unfolding call_hooks
  call_hooks-first fn [] e failed = absurd cc
  call_hooks-first fn (h ∷ hooks) e failed = elim (Option-cases (fn h)) [
    | inr (e', objects) ↦ ([], h, hooks, refl, tt, objects ∙ (rw (objects, call_hooks) at failed))
    | inl passes ↦
        let (before, k, after, split, silent, objects) =
          call_hooks-first fn hooks e ground (arith, passes) in
        (h ∷ before, k, after, ap (◌∷◌ h) split, (passes, silent), objects)
  ]

  call_hooks-append_last :
      (fn : Hook E → Option E) (hooks : List (Hook E)) (h : Hook E)
      → call_hooks E fn (hooks ++ (h ∷ []))
        ≡ elim (call_hooks E fn hooks) [ none ↦ fn h | some e ↦ some e ]
  unfolding call_hooks
  call_hooks-append_last fn [] h = elim (Option-cases (fn h)) [
    | inl passes ↦ rw passes
    | inr (e, objects) ↦ rw objects
  ]
  call_hooks-append_last fn (k ∷ hooks) h = elim (Option-cases (fn k)) [
    | inl passes ↦ rw passes (call_hooks-append_last fn hooks h)
    | inr (e, objects) ↦ rw objects
  ]

  -- After a hook is registered, `OnPublish` gives what it gave before if that was an error, and
  -- otherwise the answer of the new hook.
  pub on_publish-register :
      (client_id topic payload : Bytes) (qos : ℕ) (retain : Bool) (h : Hook E) (m : Manager E)
      → on_publish E client_id topic payload qos retain (register E (some h) m)
        ≡ elim (on_publish E client_id topic payload qos retain m) [
          | none ↦ h.on_publish client_id topic payload qos retain
          | some e ↦ some e
        ]
  unfolding on_publish register
  on_publish-register client_id topic payload qos retain h m =
      call_hooks-append_last (λ k. k.on_publish client_id topic payload qos retain) m.hooks h
