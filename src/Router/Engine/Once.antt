-- ===== src/Router/Engine/Once.antt =====
-- How often `matchSubscribers` of internal/router/router.go finds a client.
use broker.Prelude.{
  ℕ, zero, suc, Bytes, List, [], ◌∷◌, ltb, Option, none, some, Bool-cases, Option-cases, inl, inr,
  bytes_eq_instance,
}
use broker.Prelude.Maps.{lookup, Unique, insert-Unique}
use broker.Router.Segments.{split_filter}
use broker.Router.Trie.{
  Node, node, Children, child_at, Subscriber, Subscribers, subscribers, merge_one,
  merge_subscribers, merge_hash, match_node,
}
use broker.Router.Matches.{hash_seg, plus_seg}
use broker.Router.Trie.Matching.{visit, match_node-cons}
use broker.Router.Engine.{Router, num_shards, match_shards, match_subscribers}

merge_one-Unique :
    (id : Bytes) (sub : Subscriber) (dst : Subscribers) → Unique dst → Unique (merge_one id sub dst)
unfolding merge_one
merge_one-Unique id sub dst u = elim (Option-cases (lookup id dst)) [
  | inl missing ↦ rw (missing, merge_one) (insert-Unique id sub dst u)
  | inr (e, found) ↦ elim (Bool-cases (ltb e.qos sub.qos)) [
    | inl up ↦ rw (found, merge_one, up) (insert-Unique id sub dst u)
    | inr stay ↦ rw (found, merge_one, stay) u
  ]
]

merge_subscribers-Unique : (src dst : Subscribers) → Unique dst → Unique (merge_subscribers src dst)
unfolding merge_subscribers
merge_subscribers-Unique [] dst u = u
merge_subscribers-Unique ((id, sub) ∷ src) dst u =
    merge_subscribers-Unique src (merge_one id sub dst) (merge_one-Unique id sub dst u)

merge_hash-Unique : (ch : Children) (out : Subscribers) → Unique out → Unique (merge_hash ch out)
merge_hash-Unique ch out u = elim (Option-cases (child_at hash_seg ch)) [
  | inl missing ↦ rw (missing, merge_hash) u
  | inr (n, found) ↦ rw (found, merge_hash) (merge_subscribers-Unique (subscribers n) out u)
]

visit-Unique :
    (segs : List Bytes)
    → ((n : Node) (out : Subscribers) → Unique out → Unique (match_node segs n out))
    → (o : Option Node) (out : Subscribers) → Unique out
    → Unique (visit segs o out)
visit-Unique segs keep none out u = u
visit-Unique segs keep (some n) out u = keep n out u

match_node-Unique :
    (segs : List Bytes) (n : Node) (out : Subscribers) → Unique out → Unique (match_node segs n out)
match_node-Unique [] (node ch subs) out u =
    unfold match_node in
    merge_subscribers-Unique subs (merge_hash ch out) (merge_hash-Unique ch out u)
match_node-Unique (seg ∷ segs) (node ch subs) out u = rw (match_node-cons seg segs ch subs out) (
    visit-Unique segs (match_node-Unique segs) (child_at plus_seg ch) _
      (visit-Unique segs (match_node-Unique segs) (child_at seg ch) _ (merge_hash-Unique ch out u)))

match_shards-Unique :
    (k : ℕ) (shards : ℕ → Node) (segs : List Bytes) → Unique (match_shards k shards segs)
unfolding match_shards
match_shards-Unique zero shards segs = tt
match_shards-Unique (suc k) shards segs =
    match_node-Unique segs (shards k) (match_shards k shards segs)
      (match_shards-Unique k shards segs)

-- `matchSubscribers` finds every client at most once, however many of its subscriptions match the
-- topic.
pub match_subscribers-Unique : (topic : Bytes) (r : Router) → Unique (match_subscribers topic r)
unfolding match_subscribers
match_subscribers-Unique topic r = match_shards-Unique num_shards r.shards (split_filter topic)
