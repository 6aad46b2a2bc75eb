-- ===== src/Protocol/Result.antt =====
-- The errors of internal/protocol/packet.go (the Errors section), those of `io`, and Go's
-- (value, error) pair. `panic` is a run-time panic, such as a slice index out of range. `hang` is
-- no Go value: a loop of the model ran out of fuel.
use broker.Prelude.{Bytes, Bool, true, false, ◌≡◌}

pub data Error : Type 0 where
  eof unexpected_eof : Error
  malformed protocol_violation too_large invalid_var_int invalid_qos invalid_topic : Error
  unsupported_version invalid_client_id zero_packet_id : Error
  -- `fmt.Errorf("context: %w", err)`
  wrapped : Bytes → Error → Error

-- `errors.Is(err, ErrUnsupportedVersion)`, through any wrapping.
unfoldable pub is_unsupported_version : Error → Bool
is_unsupported_version unsupported_version = true
is_unsupported_version (wrapped c e) = is_unsupported_version e
is_unsupported_version _ = false

-- `errors.Is(err, ErrProtocolViolation)`
unfoldable pub is_protocol_violation : Error → Bool
is_protocol_violation protocol_violation = true
is_protocol_violation (wrapped c e) = is_protocol_violation e
is_protocol_violation _ = false

pub data Result {ℓ} (A : Type ℓ) : Type ℓ where
  ok : A → Result A
  err : Error → Result A
  panic : Result A
  hang : Result A

infixl 5 ◌>>=◌
abbrev pub ◌>>=◌ {ℓ κ} : {A : Type ℓ} {B : Type κ} → Result A → (A → Result B) → Result B
ok a >>= f = f a
err e >>= f = err e
panic >>= f = panic
hang >>= f = hang

infixl 5 ◌>>◌
abbrev pub ◌>>◌ {ℓ} : {B : Type ℓ} → Result (Unit {0}) → Result B → Result B
m >> k = m >>= λ _. k

-- `if cond { return nil, e }`
abbrev pub fail_if : Bool → Error → Result (Unit {0})
fail_if true e = err e
fail_if false e = ok tt

-- `if err != nil { return fmt.Errorf(context, err) }`
abbrev pub with_context {ℓ} : {A : Type ℓ} → Bytes → Result A → Result A
with_context c (ok a) = ok a
with_context c (err e) = err (wrapped c e)
with_context c panic = panic
with_context c hang = hang

-- The call returns: a value of which `P` holds, or an error.
abbrev pub Returns {ℓ} : {A : Type ℓ} → (A → Type 0) → Result A → Type 0
Returns P (ok a) = P a
Returns P (err e) = Unit {0}
Returns P panic = ⊥
Returns P hang = ⊥

pub Returns-bind {ℓ κ} :
    {A : Type ℓ} {B : Type κ} (P : A → Type 0) (Q : B → Type 0) (m : Result A) (f : A → Result B)
    → Returns P m
    → ((a : A) → P a → Returns Q (f a))
    → Returns Q (m >>= f)
Returns-bind P Q (ok a) f h k = k a h
Returns-bind P Q (err e) f h k = tt
Returns-bind P Q panic f h k = h
Returns-bind P Q hang f h k = h

pub Returns-mono {ℓ} :
    {A : Type ℓ} (P Q : A → Type 0) (m : Result A)
    → Returns P m
    → ((a : A) → P a → Q a)
    → Returns Q m
Returns-mono P Q (ok a) h k = k a h
Returns-mono P Q (err e) h k = tt
Returns-mono P Q panic h k = h
Returns-mono P Q hang h k = h

pub Returns-with_context {ℓ} :
    {A : Type ℓ} (P : A → Type 0) (c : Bytes) (m : Result A)
    → Returns P m
    → Returns P (with_context c m)
Returns-with_context P c (ok a) h = h
Returns-with_context P c (err e) h = tt
Returns-with_context P c panic h = h
Returns-with_context P c hang h = h

-- Behind a guard the guard's condition is false.
pub Returns-guard {ℓ} :
    {A : Type ℓ} (P : A → Type 0) (b : Bool) (e : Error) (m : Result A)
    → (b ≡ false → Returns P m)
    → Returns P (fail_if b e >> m)
Returns-guard P true e m h = tt
Returns-guard P false e m h = h (λ i. false)
