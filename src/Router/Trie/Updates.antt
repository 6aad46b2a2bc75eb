-- ===== src/Router/Trie/Updates.antt =====
-- `subscribe`, `unsubRecursive` and `removeClientFromNode` of internal/router/router.go, path by
-- path.
use broker.Prelude.{
  if◌then◌else◌, Bytes, List, [], ◌∷◌, Bool, true, false, none, some, bytes_eq, bytes_eq_iff, ◌≡◌,
  refl, sym, ◌∙◌, arith, Option-cases, inl, inr, bytes_eq_instance,
}
use broker.Prelude.Maps.{lookup, insert, delete, delete-nil, delete_absent}
use broker.Router.Trie.{
  Node, node, Children, no_child, child, child_at, Subscribers, Subscriber, subscribers, subscribe,
  or_new, unsub_recursive, prune_child, is_empty_node, remove_client_from_node,
  remove_client_from_children,
}
use broker.Router.Trie.Paths.{
  subs_at, subs_below, path_eq, child_at-put_child, child_at-delete_child, subs_at-or_new,
}

pub subs_at-subscribe :
    (segs p : List Bytes) (sub : Subscriber) (n : Node)
    → subs_at p (subscribe segs sub n)
      ≡ (if path_eq segs p then insert sub.client_id sub (subs_at p n) else subs_at p n)
unfolding subs_at subscribe path_eq
subs_at-subscribe [] [] sub (node ch subs) = refl
subs_at-subscribe [] (s ∷ p) sub (node ch subs) = refl
subs_at-subscribe (seg ∷ segs) [] sub (node ch subs) = refl
subs_at-subscribe (seg ∷ segs) (s ∷ p) sub (node ch subs) = ground (
  arith,
  bytes_eq_iff seg s,
  child_at-put_child seg s (subscribe segs sub (or_new (child_at seg ch))) ch,
  subs_at-subscribe segs p sub (or_new (child_at seg ch)),
  subs_at-or_new p (child_at seg ch),
)

is_empty_node-subs_at : (p : List Bytes) (n : Node) → is_empty_node n ≡ true → subs_at p n ≡ []
unfolding subs_at child_at
is_empty_node-subs_at [] (node no_child []) h = refl
is_empty_node-subs_at (s ∷ p) (node no_child []) h = refl
is_empty_node-subs_at p (node no_child (x ∷ subs)) h = cc
is_empty_node-subs_at p (node (child t n ch) subs) h = cc

-- Pruning an empty child, or putting it back, leaves what stands below it to be seen.
subs_at-prune_child :
    (seg s : Bytes) (p : List Bytes) (ch : Children) (subs : Subscribers) (c : Node) (empty : Bool)
    → (empty ≡ true → is_empty_node c ≡ true)
    → subs_at (s ∷ p) (prune_child seg ch subs (c, empty)).0
      ≡ (if bytes_eq seg s then subs_at p c else subs_below p (child_at s ch))
unfolding prune_child subs_at
subs_at-prune_child seg s p ch subs c true h =
    ground (arith, child_at-delete_child seg s ch, is_empty_node-subs_at p c)
subs_at-prune_child seg s p ch subs c false h = ground (arith, child_at-put_child seg s c ch)

prune_child-empty :
    (seg : Bytes) (ch : Children) (subs : Subscribers) (c : Node) (empty : Bool)
    → (prune_child seg ch subs (c, empty)).1 ≡ true
    → is_empty_node (prune_child seg ch subs (c, empty)).0 ≡ true
unfolding prune_child
prune_child-empty seg ch subs c true h = h
prune_child-empty seg ch subs c false h = cc

-- If `unsubRecursive` reports a node as one to prune, that node has no child and no subscriber
-- left.
pub unsub_recursive-empty :
    (segs : List Bytes) (id : Bytes) (n : Node)
    → (unsub_recursive segs id n).1 ≡ true
    → is_empty_node (unsub_recursive segs id n).0 ≡ true
unfolding unsub_recursive
unsub_recursive-empty [] id (node ch subs) h = h
unsub_recursive-empty (seg ∷ segs) id (node ch subs) h = elim (Option-cases (child_at seg ch)) [
  | inl missing ↦ ground arith
  | inr (c, found) ↦
      let (c', empty) = unsub_recursive segs id c in
      rw (found, unsub_recursive)
        (prune_child-empty seg ch subs c' empty (rw (found, unsub_recursive) at h))
]

drop_client :
    (id : Bytes) (subs : Subscribers)
    → elim (lookup id subs) as (λ o. Subscribers) [ none ↦ subs | some _ ↦ delete id subs ]
      ≡ delete id subs
drop_client id subs = ground (arith, delete_absent id subs)

-- `unsubRecursive` removes the client from the node at the end of its path, and the subscribers at
-- every other path are as they were, in spite of the nodes that are pruned.
pub subs_at-unsub_recursive :
    (segs p : List Bytes) (id : Bytes) (n : Node)
    → subs_at p (unsub_recursive segs id n).0
      ≡ (if path_eq segs p then delete id (subs_at p n) else subs_at p n)
unfolding unsub_recursive path_eq subs_at
subs_at-unsub_recursive [] [] id (node ch subs) = drop_client id subs
subs_at-unsub_recursive [] (s ∷ p) id (node ch subs) = refl
subs_at-unsub_recursive (seg ∷ segs) [] id (node ch subs) = elim (Option-cases (child_at seg ch)) [
  | inl missing ↦ rw (missing, unsub_recursive)
  | inr (c, found) ↦
      let (c', empty) = unsub_recursive segs id c in rw (found, unsub_recursive) (own c' empty)
]
  where
    own : (c' : Node) (empty : Bool) → subscribers (prune_child seg ch subs (c', empty)).0 ≡ subs
    own c' true = refl
    own c' false = refl
subs_at-unsub_recursive (seg ∷ segs) (s ∷ p) id (node ch subs) =
    elim (Option-cases (child_at seg ch)) [
      | inl missing ↦ rw (missing, unsub_recursive) (ground (arith, bytes_eq_iff seg s, gone))
      | inr (c, found) ↦
          let (c', empty) = unsub_recursive segs id c in
          rw (found, unsub_recursive)
            (subs_at-prune_child seg s p ch subs c' empty (unsub_recursive-empty segs id c)
              ∙ ground (arith, found, bytes_eq_iff seg s, subs_at-unsub_recursive segs p id c))
    ]
  where
    gone : delete {V = Subscriber} id [] ≡ []
    gone = delete-nil id

mutual
  unfolding subs_at remove_client_from_node child_at

  remove-subs_at :
      (n : Node) (p : List Bytes) (id : Bytes)
      → subs_at p (remove_client_from_node id n) ≡ delete id (subs_at p n)
  remove-subs_at (node ch subs) [] id = refl
  remove-subs_at (node ch subs) (s ∷ p) id = remove-subs_below ch p s id

  remove-subs_below :
      (ch : Children) (p : List Bytes) (s id : Bytes)
      → subs_below p (child_at s (remove_client_from_children id ch))
        ≡ delete id (subs_below p (child_at s ch))
  remove-subs_below no_child p s id = sym (delete-nil {V = Subscriber} id)
  remove-subs_below (child t n ch) p s id =
      ground (arith, remove-subs_at n p id, remove-subs_below ch p s id)

-- The whole client is gone, and nobody else.
pub subs_at-remove_client_from_node :
    (p : List Bytes) (id : Bytes) (n : Node)
    → subs_at p (remove_client_from_node id n) ≡ delete id (subs_at p n)
subs_at-remove_client_from_node p id n = remove-subs_at n p id
