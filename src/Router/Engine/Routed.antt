-- ===== src/Router/Engine/Routed.antt =====
-- The invariant of the `Router` of internal/router/router.go: no client twice at a node, and each
-- plain subscription in the shard and at the path of a filter of its own.
use broker.Prelude.{
  ℕ, ◌==◌, ==_iff, Bytes, List, [], ◌≡◌, ◌⊎◌, refl, sym, Bool-cases, Option-cases, inl, inr,
  bytes_eq_instance,
}
use broker.Prelude.Maps.{delete, delete-nil, Unique, insert-Unique, delete-Unique}
use broker.Protocol.Topic.{parse_shared_topic_filter}
use broker.Router.Segments.{split_filter}
use broker.Router.Trie.{Subscriber, Subscribers, Node, new_node}
use broker.Router.Trie
use broker.Router.Trie.Paths.{subs_at, path_eq, path_eq_iff, subs_at-new_node}
use broker.Router.Trie.Updates.{
  subs_at-subscribe, subs_at-unsub_recursive, subs_at-remove_client_from_node,
}
use broker.Router.Engine.{
  Router, new_router, shard_for, update_shard, subscribe, unsubscribe, unsubscribe_all,
}

-- Where a subscription may stand.
abbrev pub Placed : ℕ → List Bytes → Type 0
Placed i p = (f : Bytes) × (p ≡ split_filter f) × (i ≡ shard_for f)

-- What holds of each shard `i` at each path `p`.
abbrev pub IsTidy : ℕ → List Bytes → Subscribers → Type 0
IsTidy i p subs = Unique subs × ((subs ≡ []) ⊎ Placed i p)

pub record IsRouted (r : Router) : Type 0 where
  pub tidy : (i : ℕ) (p : List Bytes) → IsTidy i p (subs_at p (r.shards i))

delete-IsTidy :
    (i : ℕ) (p : List Bytes) (id : Bytes) (m : Subscribers)
    → IsTidy i p m
    → IsTidy i p (delete id m)
delete-IsTidy i p id m (u, inl none_left) =
    (delete-Unique id m u, inl (rw none_left (delete-nil {V = Subscriber} id)))
delete-IsTidy i p id m (u, inr placed) = (delete-Unique id m u, inr placed)

pub new_router-IsRouted : IsRouted new_router
unfolding new_router
new_router-IsRouted = record { tidy = λ i p. rw (subs_at-new_node p) (tt, inl refl) }

-- A shard that is written, and the others.
update-IsTidy :
    (i j : ℕ) (n : Node) (shards : ℕ → Node)
    → ((p : List Bytes) → IsTidy i p (subs_at p n))
    → ((p : List Bytes) → IsTidy j p (subs_at p (shards j)))
    → (p : List Bytes) → IsTidy j p (subs_at p (update_shard i n shards j))
update-IsTidy i j n shards new old p = elim (Bool-cases (j == i)) [
  | inl same ↦ rw (same, update_shard, (==_iff j i).0 same) (new p)
  | inr other ↦ rw (other, update_shard) (old p)
]

-- `Subscribe` keeps the invariant of the router: no client stands twice at a node, and each plain
-- subscription stands in the shard and at the path of a filter of its own.
pub subscribe-IsRouted :
    (f : Bytes) (sub : Subscriber) (r : Router) → IsRouted r → IsRouted (subscribe f sub r)
unfolding subscribe
subscribe-IsRouted f sub r h = elim (Option-cases (parse_shared_topic_filter f)) [
  | inr ((share, inner), shared) ↦ rw (shared, subscribe) (record { tidy = h.tidy })
  | inl plain ↦
      rw (plain, subscribe)
        (record { tidy = λ j. update-IsTidy (shard_for f) j _ r.shards written (h.tidy j) })
]
  where
    written :
        (p : List Bytes)
        → IsTidy
            (shard_for f)
            p
            (subs_at p (Trie.subscribe (split_filter f) sub (r.shards (shard_for f))))
    written p = elim (Bool-cases (path_eq (split_filter f) p)) [
      | inl own ↦
          rw (subs_at-subscribe (split_filter f) p sub (r.shards (shard_for f)), own)
            (
              insert-Unique sub.client_id sub _ (h.tidy (shard_for f) p).0,
              inr (f, sym ((path_eq_iff (split_filter f) p).0 own), refl),
            )
      | inr other ↦
          rw (subs_at-subscribe (split_filter f) p sub (r.shards (shard_for f)), other)
            (h.tidy (shard_for f) p)
    ]

-- `Unsubscribe` keeps the invariant of the router: no client stands twice at a node, and each
-- plain subscription stands in the shard and at the path of a filter of its own.
pub unsubscribe-IsRouted : (f id : Bytes) (r : Router) → IsRouted r → IsRouted (unsubscribe f id r)
unfolding unsubscribe
unsubscribe-IsRouted f id r h = elim (Option-cases (parse_shared_topic_filter f)) [
  | inr ((share, inner), shared) ↦ rw (shared, unsubscribe) (record { tidy = h.tidy })
  | inl plain ↦
      rw (plain, unsubscribe)
        (record { tidy = λ j. update-IsTidy (shard_for f) j _ r.shards written (h.tidy j) })
]
  where
    written :
        (p : List Bytes)
        → IsTidy
            (shard_for f)
            p
            (subs_at p (Trie.unsub_recursive (split_filter f) id (r.shards (shard_for f))).0)
    written p = elim (Bool-cases (path_eq (split_filter f) p)) [
      | inl own ↦
          rw (subs_at-unsub_recursive (split_filter f) p id (r.shards (shard_for f)), own)
            (delete-IsTidy (shard_for f) p id _ (h.tidy (shard_for f) p))
      | inr other ↦
          rw (subs_at-unsub_recursive (split_filter f) p id (r.shards (shard_for f)), other)
            (h.tidy (shard_for f) p)
    ]

-- `UnsubscribeAll` keeps the invariant of the router: no client stands twice at a node, and each
-- plain subscription stands in the shard and at the path of a filter of its own.
pub unsubscribe_all-IsRouted :
    (id : Bytes) (r : Router) → IsRouted r → IsRouted (unsubscribe_all id r)
unfolding unsubscribe_all
unsubscribe_all-IsRouted id r h = record {
  tidy = λ i p.
      rw (subs_at-remove_client_from_node p id (r.shards i))
        (delete-IsTidy i p id (subs_at p (r.shards i)) (h.tidy i p));
}
