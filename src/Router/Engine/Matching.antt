-- ===== src/Router/Engine/Matching.antt =====
-- What `matchSubscribers` of internal/router/router.go finds, in terms of the abstract view.
use broker.Prelude.{
  ℕ, zero, suc, ◌<◌, ◌==◌, ==_iff, Bytes, List, true, some, ◌≡◌, arith, Bool-cases, inl, inr,
  bytes_eq_instance,
}
use broker.Prelude.Maps.{lookup, Unique}
use broker.Router.Segments.{split_filter, topic_matches_filter}
use broker.Router.Matches.{HashLast, Matches, match_segs_iff}
use broker.Router.Trie.{Subscriber, Node}
use broker.Router.Trie.Paths.{subs_at}
use broker.Router.Trie.Merge.{AtLeast}
use broker.Router.Trie.Matching.{match_node-AtLeast, match_node-found, match_node-source}
use broker.Router.Engine.{Router, num_shards, shard_for, match_shards, match_subscribers}
use broker.Router.Engine.Entries.{entry}
use broker.Router.Engine.Routed.{IsRouted}

module _ (c : Bytes) (s : Subscriber) (shards : ℕ → Node) where
  match_shards-found :
      {segs p : List Bytes} (m : Matches segs p) (k i : ℕ)
      → HashLast p
      → i < k
      → lookup c (subs_at p (shards i)) ≡ some s
      → AtLeast s.qos c (match_shards k shards segs)
  unfolding match_shards
  match_shards-found m zero i last below h = absurd (omega arith)
  match_shards-found {segs} m (suc k) i last below h = elim (Bool-cases (i == k)) [
    | inl here ↦
        match_node-found c s m (shards k) (match_shards k shards segs) last
          (rw (← (==_iff i k).0 here) h)
    | inr before ↦
        match_node-AtLeast c s.qos segs (shards k) (match_shards k shards segs)
          (match_shards-found m k i last (ground (arith, ==_iff i k)) h)
  ]

  match_shards-source :
      (segs : List Bytes) (k : ℕ)
      → ((i : ℕ) (p : List Bytes) → Unique (subs_at p (shards i)))
      → lookup c (match_shards k shards segs) ≡ some s
      → (i : ℕ) × (p : List Bytes) × Matches segs p × (lookup c (subs_at p (shards i)) ≡ some s)
  unfolding match_shards lookup
  match_shards-source segs zero u h = absurd cc
  match_shards-source segs (suc k) u h =
      elim (match_node-source c s segs (shards k) (match_shards k shards segs) (u k) h) [
        | inl before ↦ match_shards-source segs k u before
        | inr (p, m, own) ↦ (k, p, m, own)
      ]

shard_for-lt : (f : Bytes) → shard_for f < num_shards
unfolding shard_for
shard_for-lt f = omega arith

-- A client that has an entry for a filter that the topic matches, with `#` last in the filter if
-- at all, is found by `matchSubscribers` with at least the QoS of that entry.
pub match_subscribers-found :
    (topic f c : Bytes) (s : Subscriber) (r : Router)
    → HashLast (split_filter f)
    → topic_matches_filter topic f ≡ true
    → entry r f c ≡ some s
    → AtLeast s.qos c (match_subscribers topic r)
unfolding match_subscribers topic_matches_filter entry
match_subscribers-found topic f c s r last match h =
    match_shards-found c s r.shards ((match_segs_iff (split_filter topic) (split_filter f)).0 match)
      num_shards (shard_for f) last (shard_for-lt f) h

-- In a router that satisfies the invariant, whoever `matchSubscribers` finds for a topic has, with
-- exactly that subscriber record, an entry for some filter that the topic matches.
pub match_subscribers-source :
    (topic c : Bytes) (s : Subscriber) (r : Router)
    → IsRouted r
    → lookup c (match_subscribers topic r) ≡ some s
    → (f : Bytes) × (topic_matches_filter topic f ≡ true) × (entry r f c ≡ some s)
unfolding match_subscribers topic_matches_filter entry lookup
match_subscribers-source topic c s r ok h =
    let (i, p, m, own) =
      match_shards-source c s r.shards (split_filter topic) num_shards (λ i p. (ok.tidy i p).0) h in
    elim (ok.tidy i p).1 [
      | inl empty ↦ absurd (ground (arith, empty))
      | inr (f, at, here) ↦ (
        f,
        (match_segs_iff (split_filter topic) (split_filter f)).1 (rw at at m),
        rw (at, here) at own,
      )
    ]
