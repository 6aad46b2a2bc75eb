-- ===== src/Auth/Tokens.antt =====
-- `AuthJWT` of internal/auth/auth.go with its cache. The parsing of a token is third-party code: a
-- function of the token and the time, which stands for the secret and the issuer too. The clock is
-- read once.
use broker.Prelude.{
  ℕ, ◌-◌, ◌≤◌, ◌<◌, ltb, ltb→lt, if◌then◌else◌, Bytes, List, [], ◌∷◌, Option, none, some, length,
  bytes_eq, bytes_eq_iff, bytes_eq_self, ◌≡◌, ◌⊎◌, refl, arith, Bool-cases, Option-cases, inl, inr,
  bytes_eq_instance,
}
use broker.Prelude.Maps.{
  lookup, insert, delete, lookup-insert, lookup-delete, length-insert-le, length-delete-le,
}
use broker.Auth.{AuthError, token_expired, token_invalid}

pub record Claims : Type 0 where
  pub client_id : Bytes
  pub username : Bytes
  pub roles : List Bytes
  pub expires_at : ℕ

-- What `jwt.ParseWithClaims` and the tests behind it say of a token.
pub data Parsed : Type 0 where
  parse_expired : Parsed
  parse_failed : Parsed
  parsed : Claims → Parsed

pub record CachedClaims : Type 0 where
  pub claims : Claims
  pub until : ℕ

abbrev pub TokenCache : Type 0
TokenCache = List (Bytes × CachedClaims)

pub data Verdict : Type 0 where
  accepted : Claims → Verdict
  refused : AuthError → Verdict

abbrev pub max_tokens : ℕ
max_tokens = 10000

Parsed-cases :
    (o : Parsed) → ((o ≡ parse_expired) ⊎ (o ≡ parse_failed)) ⊎ ((c : Claims) × (o ≡ parsed c))
Parsed-cases parse_expired = inl (inl refl)
Parsed-cases parse_failed = inl (inr refl)
Parsed-cases (parsed c) = inr (c, refl)

-- The loop with `break`: one entry goes, the first of the unspecified order.
unfoldable pub drop_one : TokenCache → TokenCache
drop_one [] = []
drop_one ((k, v) ∷ cache) = delete k ((k, v) ∷ cache)

unfoldable pub store_claims : Bytes → Claims → TokenCache → TokenCache
unfolding drop_one
store_claims token c cache =
    let stored = insert token (record { claims = c; until = c.expires_at }) cache in
    if ltb max_tokens (length stored) then drop_one stored else stored

-- A cached entry that has not expired.
unfoldable pub fresh_claims : ℕ → Bytes → TokenCache → Option Claims
fresh_claims now token cache = elim (lookup token cache) [
  | none ↦ none
  | some c ↦ if ltb now c.until then some c.claims else none
]

-- What follows the parsing.
unfoldable pub judge : Bytes → Parsed → TokenCache → TokenCache × Verdict
unfolding store_claims
judge token parse_expired cache = (cache, refused token_expired)
judge token parse_failed cache = (cache, refused token_invalid)
judge token (parsed c) cache = (store_claims token c cache, accepted c)

unfoldable pub auth_jwt : (Bytes → ℕ → Parsed) → ℕ → Bytes → TokenCache → TokenCache × Verdict
unfolding fresh_claims judge
auth_jwt parse now token cache = elim (fresh_claims now token cache) [
  | some c ↦ (cache, accepted c)
  | none ↦ judge token (parse token now) cache
]

length-drop_one : (cache : TokenCache) → length (drop_one cache) ≤ length cache - 1
unfolding drop_one delete
length-drop_one [] = omega arith
length-drop_one ((k, v) ∷ cache) =
    rw (bytes_eq_self k) (omega (arith, length-delete-le {V = CachedClaims} k cache))

lookup-drop_one :
    (token : Bytes) (c : CachedClaims) (cache : TokenCache)
    → lookup token (drop_one cache) ≡ some c
    → lookup token cache ≡ some c
unfolding drop_one
lookup-drop_one token c [] h = h
lookup-drop_one token c ((k, v) ∷ cache) h =
    ground (arith, lookup-delete {V = CachedClaims} k token ((k, v) ∷ cache))

length-store_claims :
    (token : Bytes) (c : Claims) (cache : TokenCache)
    → length cache ≤ max_tokens
    → length (store_claims token c cache) ≤ max_tokens
unfolding store_claims
length-store_claims token c cache h =
    let stored : TokenCache = insert token (record { claims = c; until = c.expires_at }) cache in
    elim (Bool-cases (ltb max_tokens (length stored))) [
      | inl full ↦ rw full (
          omega (
            arith,
            length-drop_one stored,
            length-insert-le token (record { claims = c; until = c.expires_at }) cache,
          ))
      | inr room ↦ rw room (ground (arith, room))
    ]

-- If the cache of tokens has at most 10000 entries, `AuthJWT` leaves at most 10000.
pub length-auth_jwt :
    (parse : Bytes → ℕ → Parsed) (now : ℕ) (token : Bytes) (cache : TokenCache)
    → length cache ≤ max_tokens
    → length (auth_jwt parse now token cache).0 ≤ max_tokens
unfolding auth_jwt judge
length-auth_jwt parse now token cache h = elim (Option-cases (fresh_claims now token cache)) [
  | inr (c, cached) ↦ rw (cached, auth_jwt) h
  | inl none_cached ↦ elim (Parsed-cases (parse token now)) [
    | inl (inl expired) ↦ rw (none_cached, auth_jwt, expired) h
    | inl (inr failed) ↦ rw (none_cached, auth_jwt, failed) h
    | inr (c, good) ↦ rw (none_cached, auth_jwt, good) (length-store_claims token c cache h)
  ]
]

auth_jwt_parses :
    (parse : Bytes → ℕ → Parsed) (now : ℕ) (token : Bytes) (cache : TokenCache)
    → fresh_claims now token cache ≡ none
    → auth_jwt parse now token cache ≡ judge token (parse token now) cache
unfolding auth_jwt
auth_jwt_parses parse now token cache h = rw (h, auth_jwt)

auth_jwt_cached :
    (parse : Bytes → ℕ → Parsed) (now : ℕ) (token : Bytes) (c : Claims) (cache : TokenCache)
    → fresh_claims now token cache ≡ some c
    → auth_jwt parse now token cache ≡ (cache, accepted c)
unfolding auth_jwt
auth_jwt_cached parse now token c cache h = rw (h, auth_jwt)

module _ (parse : Bytes → ℕ → Parsed) where
  -- Every entry was parsed, and expires with its claims.
  pub record IsVouched (cache : TokenCache) : Type 0 where
    pub vouched :
        (token : Bytes) (c : CachedClaims)
        → lookup token cache ≡ some c
        → (c.until ≡ c.claims.expires_at) × (at : ℕ) × (parse token at ≡ parsed c.claims)

  insert-IsVouched :
      (now : ℕ) (token : Bytes) (c : Claims) (cache : TokenCache)
      → parse token now ≡ parsed c
      → IsVouched cache
      → IsVouched (insert token (record { claims = c; until = c.expires_at }) cache)
  insert-IsVouched now token c cache good h = record {
    vouched = λ t d found. elim (Bool-cases (bytes_eq token t)) [
      | inr other ↦ h.vouched t d (
          ground (arith, lookup-insert token t (record { claims = c; until = c.expires_at }) cache))
      | inl same ↦
          let own : record { claims = c; until = c.expires_at } ≡ d =
            ground
              (arith, lookup-insert token t (record { claims = c; until = c.expires_at }) cache) in
          (rw (← own) refl, now, rw (← (bytes_eq_iff token t).0 same, ← own) good)
    ];
  }

  store_claims-IsVouched :
      (now : ℕ) (token : Bytes) (c : Claims) (cache : TokenCache)
      → parse token now ≡ parsed c
      → IsVouched cache
      → IsVouched (store_claims token c cache)
  unfolding store_claims
  store_claims-IsVouched now token c cache good h =
      let stored : TokenCache = insert token (record { claims = c; until = c.expires_at }) cache in
      let all : IsVouched stored = insert-IsVouched now token c cache good h in
      elim (Bool-cases (ltb max_tokens (length stored))) [
        | inl full ↦
            rw full
              (record { vouched = λ t d found. all.vouched t d (lookup-drop_one t d stored found) })
        | inr room ↦ rw room all
      ]

  -- What an answer of `AuthJWT` may be.
  abbrev pub IsLive : ℕ → Bytes → Verdict → Type 0
  IsLive now token (refused e) = Unit {0}
  IsLive now token (accepted c) = (now < c.expires_at) × (at : ℕ) × (parse token at ≡ parsed c)

  judge-IsLive :
      (now : ℕ) (token : Bytes) (o : Parsed) (cache : TokenCache)
      → ((c : Claims) → o ≡ parsed c → now < c.expires_at)
      → parse token now ≡ o
      → IsVouched cache
      → IsLive now token (judge token o cache).1 × IsVouched (judge token o cache).0
  unfolding judge
  judge-IsLive now token parse_expired cache required said h = (tt, h)
  judge-IsLive now token parse_failed cache required said h = (tt, h)
  judge-IsLive now token (parsed c) cache required said h =
      ((required c refl, now, said), store_claims-IsVouched now token c cache said h)

  fresh_claims-IsLive :
      (now : ℕ) (token : Bytes) (c : Claims) (cache : TokenCache)
      → fresh_claims now token cache ≡ some c
      → IsVouched cache
      → IsLive now token (accepted c)
  unfolding fresh_claims
  fresh_claims-IsLive now token c cache e h = elim (Option-cases (lookup token cache)) [
    | inl unknown ↦ absurd (ground (arith, unknown))
    | inr (d, found) ↦ elim (Bool-cases (ltb now d.until)) [
      | inr stale ↦ absurd (ground (arith, found, stale))
      | inl fresh ↦
          let (bound, at, good) = h.vouched token d found in
          let own : d.claims ≡ c = ground (arith, found, fresh) in
          (rw (← own) (ground (arith, ltb→lt now d.until fresh)), at, rw (← own) good)
    ]
  ]

  -- If the token library accepts only tokens that expire later, and every cache entry comes from
  -- an acceptance of its token, then `AuthJWT` accepts only claims that the library found in that
  -- very token and that have not expired, and the cache keeps its property.
  pub auth_jwt-IsLive :
      ((t : Bytes) (at : ℕ) (c : Claims) → parse t at ≡ parsed c → at < c.expires_at)
      → (now : ℕ) (token : Bytes) (cache : TokenCache) → IsVouched cache
      → IsLive now token (auth_jwt parse now token cache).1
        × IsVouched (auth_jwt parse now token cache).0
  auth_jwt-IsLive required now token cache h = elim (Option-cases (fresh_claims now token cache)) [
    | inl none_cached ↦
        rw (auth_jwt_parses parse now token cache none_cached)
          (judge-IsLive now token (parse token now) cache (required token now) refl h)
    | inr (c, cached) ↦
        rw (auth_jwt_cached parse now token c cache cached)
          (fresh_claims-IsLive now token c cache cached h, h)
  ]
