-- ===== src/Router/Trie/Merge.antt =====
-- `mergeSubscribers` of internal/router/router.go, entry by entry.
use broker.Prelude.{
  ℕ, ltb, ◌≤◌, if◌then◌else◌, Bytes, [], ◌∷◌, Option, none, some, bytes_eq, bytes_eq_iff,
  bytes_eq_self, ◌≡◌, ◌⊎◌, arith, Bool-cases, Option-cases, inl, inr, bytes_eq_instance,
}
use broker.Prelude.Maps.{lookup, lookup-insert, Unique}
use broker.Router.Trie.{Subscriber, Subscribers, merge_one, merge_subscribers}

-- The client has an entry of at least this QoS.
abbrev pub AtLeast : ℕ → Bytes → Subscribers → Type 0
AtLeast q c m = (s : Subscriber) × (lookup c m ≡ some s) × (q ≤ s.qos)

-- The better of an entry and a new subscriber; the entry wins a tie.
abbrev better : Option Subscriber → Subscriber → Subscriber
better none sub = sub
better (some existing) sub = if ltb existing.qos sub.qos then sub else existing

lookup-merge_one :
    (id c : Bytes) (sub : Subscriber) (dst : Subscribers)
    → lookup c (merge_one id sub dst)
      ≡ (if bytes_eq id c then some (better (lookup id dst) sub) else lookup c dst)
unfolding merge_one
lookup-merge_one id c sub dst = ground (arith, lookup-insert id c sub dst, bytes_eq_iff id c)

better-le : (o : Option Subscriber) (sub : Subscriber) → sub.qos ≤ (better o sub).qos
better-le none sub = omega arith
better-le (some e) sub = ground arith

merge_one-AtLeast :
    (id c : Bytes) (sub : Subscriber) (q : ℕ) (dst : Subscribers)
    → AtLeast q c dst
    → AtLeast q c (merge_one id sub dst)
merge_one-AtLeast id c sub q dst (s, found, high) = elim (Bool-cases (bytes_eq id c)) [
  | inr other ↦ (s, rw (lookup-merge_one id c sub dst, other) found, high)
  | inl own ↦
      let here : lookup id dst ≡ some s = rw ((bytes_eq_iff id c).0 own) found in
      (better (some s) sub, rw (lookup-merge_one id c sub dst, own, here), ground arith)
]

merge_one-AtLeast_self :
    (id : Bytes) (sub : Subscriber) (dst : Subscribers) → AtLeast sub.qos id (merge_one id sub dst)
merge_one-AtLeast_self id sub dst = (
  better (lookup id dst) sub,
  rw (lookup-merge_one id id sub dst, bytes_eq_self id),
  better-le (lookup id dst) sub,
)

merge_one-lookup :
    (id c : Bytes) (sub s : Subscriber) (dst : Subscribers)
    → lookup c (merge_one id sub dst) ≡ some s
    → (lookup c dst ≡ some s) ⊎ ((id ≡ c) × (sub ≡ s))
merge_one-lookup id c sub s dst h = elim (Bool-cases (bytes_eq id c)) [
  | inr other ↦ inl (ground (arith, lookup-merge_one id c sub dst))
  | inl own ↦ elim (Option-cases (lookup id dst)) [
    | inl missing ↦ inr ((bytes_eq_iff id c).0 own, ground (arith, lookup-merge_one id c sub dst))
    | inr (e, found) ↦ elim (Bool-cases (ltb e.qos sub.qos)) [
      | inl up ↦ inr ((bytes_eq_iff id c).0 own, ground (arith, lookup-merge_one id c sub dst))
      | inr stay ↦
          let kept : lookup id dst ≡ some s = ground (arith, lookup-merge_one id c sub dst) in
          inl (rw (← (bytes_eq_iff id c).0 own) kept)
    ]
  ]
]

-- Merging keeps what a client has, or betters it.
pub merge-AtLeast :
    (src : Subscribers) (c : Bytes) (q : ℕ) (dst : Subscribers)
    → AtLeast q c dst
    → AtLeast q c (merge_subscribers src dst)
unfolding merge_subscribers
merge-AtLeast [] c q dst h = h
merge-AtLeast ((id, sub) ∷ src) c q dst h =
    merge-AtLeast src c q (merge_one id sub dst) (merge_one-AtLeast id c sub q dst h)

-- Merging brings every entry of the source.
pub merge-AtLeast_source :
    (src : Subscribers) (c : Bytes) (s : Subscriber) (dst : Subscribers)
    → lookup c src ≡ some s
    → AtLeast s.qos c (merge_subscribers src dst)
unfolding merge_subscribers lookup
merge-AtLeast_source [] c s dst h = cc
merge-AtLeast_source ((id, sub) ∷ src) c s dst h = elim (Bool-cases (bytes_eq id c)) [
  | inr other ↦ merge-AtLeast_source src c s (merge_one id sub dst) (ground arith)
  | inl own ↦
      let same : sub ≡ s = ground arith in
      merge-AtLeast src c s.qos (merge_one id sub dst)
        (rw (← same, ← (bytes_eq_iff id c).0 own) (merge_one-AtLeast_self id sub dst))
]

-- Merging brings nothing else.
pub merge-lookup :
    (src : Subscribers) (c : Bytes) (s : Subscriber) (dst : Subscribers)
    → Unique src
    → lookup c (merge_subscribers src dst) ≡ some s
    → (lookup c dst ≡ some s) ⊎ (lookup c src ≡ some s)
unfolding merge_subscribers lookup
merge-lookup [] c s dst u h = inl h
merge-lookup ((id, sub) ∷ src) c s dst (fresh, u) h =
    elim (merge-lookup src c s (merge_one id sub dst) u h) [
      | inr later ↦ inr (ground (arith, bytes_eq_iff id c))
      | inl merged ↦ elim (merge_one-lookup id c sub s dst merged) [
        | inl before ↦ inl before
        | inr (own, same) ↦ inr (ground (arith, bytes_eq_iff id c))
      ]
    ]
