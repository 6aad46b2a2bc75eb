-- ===== src/Auth/Limiter.antt =====
-- `RateLimiter` of internal/auth/auth.go. Go's float64 is a parameter: a type with the operations
-- that the code uses. An instant is a number of nanoseconds.
use broker.Prelude.{
  ℕ, ◌+◌, ltb, if◌then◌else◌, Bytes, List, [], ◌∷◌, Bool, true, false, none, some, bytes_eq, ◌≡◌,
  arith, Bool-cases, inl, inr, bytes_eq_instance,
}
use broker.Prelude.Maps.{lookup, insert, lookup-insert}

-- `seconds now last` is `now.Sub(last).Seconds()`, and `below` is `<`.
pub record Floats (F : Type 0) : Type 0 where
  pub one : F
  pub plus : F → F → F
  pub minus : F → F → F
  pub times : F → F → F
  pub below : F → F → Bool
  pub seconds : ℕ → ℕ → F

module _ (F : Type 0) where
  pub record Bucket : Type 0 where
    pub tokens : F
    pub last : ℕ

  pub record RateLimiter : Type 0 where
    pub buckets : List (Bytes × Bucket)
    pub rate : F
    pub burst : F

module _ {F : Type 0} (fl : Floats F) where
  -- `NewRateLimiter`
  abbrev pub new_rate_limiter : F → F → RateLimiter F
  new_rate_limiter rate burst = record { buckets = []; rate = rate; burst = burst }

  -- The bucket of the client, a full one for a new client.
  unfoldable pub bucket_of : ℕ → Bytes → RateLimiter F → Bucket F
  bucket_of now client_id r = elim (lookup client_id r.buckets) [
    | none ↦ record { tokens = r.burst; last = now }
    | some b ↦ b
  ]

  -- The tokens after the time that has passed, at most the burst.
  unfoldable pub refill : ℕ → RateLimiter F → Bucket F → F
  refill now r b =
      let tokens = fl.plus b.tokens (fl.times (fl.seconds now b.last) r.rate) in
      if fl.below r.burst tokens then r.burst else tokens

  -- The limiter afterwards, and whether the packet may pass.
  unfoldable pub allow : ℕ → Bytes → RateLimiter F → RateLimiter F × Bool
  unfolding bucket_of refill
  allow now client_id r =
      let tokens = refill now r (bucket_of now client_id r) in
      if fl.below tokens fl.one
      then (
        record r { buckets = insert client_id (record { tokens = tokens; last = now }) r.buckets },
        false,
      )
      else (
        record r {
          buckets =
              insert client_id (record { tokens = fl.minus tokens fl.one; last = now }) r.buckets;
        },
        true,
      )

  -- The loop of `Cleanup`: a bucket that was last used before `now - max_age` goes.
  unfoldable pub keep_recent : ℕ → ℕ → List (Bytes × Bucket F) → List (Bytes × Bucket F)
  keep_recent now max_age [] = []
  keep_recent now max_age ((id, b) ∷ buckets) =
      let rest = keep_recent now max_age buckets in
      if ltb (b.last + max_age) now then rest else (id, b) ∷ rest

  unfoldable pub cleanup : ℕ → ℕ → RateLimiter F → RateLimiter F
  unfolding keep_recent
  cleanup now max_age r = record r { buckets = keep_recent now max_age r.buckets }

  -- No bucket holds more than the burst.
  pub record IsCapped (r : RateLimiter F) : Type 0 where
    pub capped :
        (id : Bytes) (b : Bucket F)
        → lookup id r.buckets ≡ some b
        → fl.below r.burst b.tokens ≡ false

  refill-capped :
      (now : ℕ) (r : RateLimiter F) (b : Bucket F)
      → fl.below r.burst r.burst ≡ false
      → fl.below r.burst (refill now r b) ≡ false
  unfolding refill
  refill-capped now r b irreflexive =
      elim (Bool-cases
        (fl.below r.burst (fl.plus b.tokens (fl.times (fl.seconds now b.last) r.rate)))) [
          | inl over ↦ rw over irreflexive
          | inr within ↦ rw within within
        ]

  insert-IsCapped :
      (client_id : Bytes) (b : Bucket F) (r : RateLimiter F)
      → fl.below r.burst b.tokens ≡ false
      → IsCapped r
      → IsCapped (record r { buckets = insert client_id b r.buckets })
  insert-IsCapped client_id b r within h = record {
    capped = λ id d found. elim (Bool-cases (bytes_eq client_id id)) [
      | inr other ↦ h.capped id d (ground (arith, lookup-insert client_id id b r.buckets))
      | inl same ↦
          let own : b ≡ d = ground (arith, lookup-insert client_id id b r.buckets) in
          rw (← own) within
    ];
  }

  -- `Allow` keeps every bucket from being over the burst, for numbers where the burst is not above
  -- itself and taking one token off does not lift a number above it.
  pub allow-IsCapped :
      (now : ℕ) (client_id : Bytes) (r : RateLimiter F)
      → fl.below r.burst r.burst ≡ false
      → ((x : F) → fl.below r.burst x ≡ false → fl.below r.burst (fl.minus x fl.one) ≡ false)
      → IsCapped r
      → IsCapped (allow now client_id r).0
  unfolding allow
  allow-IsCapped now client_id r irreflexive smaller h =
      let tokens : F = refill now r (bucket_of now client_id r) in
      let within = refill-capped now r (bucket_of now client_id r) irreflexive in
      elim (Bool-cases (fl.below tokens fl.one)) [
        | inl empty ↦ rw empty (insert-IsCapped client_id _ r within h)
        | inr full ↦ rw full (insert-IsCapped client_id _ r (smaller tokens within) h)
      ]

  -- A call leaves the buckets of the other clients alone.
  pub allow_other :
      (now : ℕ) (client_id other : Bytes) (r : RateLimiter F)
      → bytes_eq client_id other ≡ false
      → lookup other (allow now client_id r).0.buckets ≡ lookup other r.buckets
  unfolding allow
  allow_other now client_id other r different =
      let tokens : F = refill now r (bucket_of now client_id r) in
      elim (Bool-cases (fl.below tokens fl.one)) [
        | inl empty ↦ rw (
          empty,
          allow,
          lookup-insert client_id other (record { tokens = tokens; last = now }) r.buckets,
          different,
        )
        | inr full ↦ rw (
          full,
          allow,
          lookup-insert client_id other (record { tokens = fl.minus tokens fl.one; last = now })
              r.buckets,
          different,
        )
      ]
