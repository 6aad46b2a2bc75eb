-- ===== src/Router/Trie.antt =====
-- The topic trie of internal/router/router.go: `Subscriber`, `node`, `shard` and the functions on
-- them. A node that the code changes in place is a new node here. The mutexes make each operation
-- atomic for the node that it holds; the model runs the operations one after the other.
pub mod Paths
pub mod Updates
pub mod Merge
pub mod Matching
use broker.Prelude.{
  ℕ, ltb, if◌then◌else◌, Bytes, codes, List, [], ◌∷◌, ◌++◌, Bool, true, false, ◌&&◌, Option, none,
  some, bytes_eq, bytes_eq_instance,
}
use broker.Prelude.Maps.{lookup, insert, delete}
use broker.Protocol.Topic.{is_empty}

-- `deliver` names the closure that the subscriber registered; `none` is nil.
pub record Subscriber : Type 0 where
  pub client_id : Bytes
  pub qos : ℕ
  pub deliver : Option ℕ

abbrev pub Subscribers : Type 0
Subscribers = List (Bytes × Subscriber)

mutual
  pub data Node : Type 0 where
    node : Children → Subscribers → Node

  -- The map from a segment to a child.
  pub data Children : Type 0 where
    no_child : Children
    child : Bytes → Node → Children → Children

abbrev pub new_node : Node
new_node = node no_child []

abbrev pub children : Node → Children
children (node ch subs) = ch

abbrev pub subscribers : Node → Subscribers
subscribers (node ch subs) = subs

-- `len(n.children) == 0`
abbrev pub has_no_child : Children → Bool
has_no_child no_child = true
has_no_child (child seg n ch) = false

-- `n.children[seg]`
unfoldable pub child_at : Bytes → Children → Option Node
child_at seg no_child = none
child_at seg (child s n ch) = if bytes_eq s seg then some n else child_at seg ch

-- `n.children[seg] = c`
unfoldable pub put_child : Bytes → Node → Children → Children
put_child seg c no_child = child seg c no_child
put_child seg c (child s n ch) =
    if bytes_eq s seg then child seg c ch else child s n (put_child seg c ch)

-- `delete(n.children, seg)`
unfoldable pub delete_child : Bytes → Children → Children
delete_child seg no_child = no_child
delete_child seg (child s n ch) =
    if bytes_eq s seg then delete_child seg ch else child s n (delete_child seg ch)

abbrev pub or_new : Option Node → Node
or_new none = new_node
or_new (some n) = n

-- `shard.subscribe`, from a node down.
unfoldable pub subscribe : List Bytes → Subscriber → Node → Node
unfolding child_at put_child
subscribe [] sub (node ch subs) = node ch (insert sub.client_id sub subs)
subscribe (seg ∷ segs) sub (node ch subs) =
    node (put_child seg (subscribe segs sub (or_new (child_at seg ch))) ch) subs

abbrev pub is_empty_node : Node → Bool
is_empty_node (node ch subs) = has_no_child ch && is_empty subs

-- What follows the recursive call of `unsubRecursive` on the child `c'`.
unfoldable pub prune_child : Bytes → Children → Subscribers → Node × Bool → Node × Bool
unfolding put_child delete_child
prune_child seg ch subs (c', empty) =
    if empty
    then (node (delete_child seg ch) subs, is_empty_node (node (delete_child seg ch) subs))
    else (node (put_child seg c' ch) subs, false)

-- `unsubRecursive`: the node afterwards, and whether it is empty and may be pruned.
unfoldable pub unsub_recursive : List Bytes → Bytes → Node → Node × Bool
unfolding child_at prune_child
unsub_recursive [] client_id (node ch subs) =
    let subs' : Subscribers = elim (lookup client_id subs) [
      | none ↦ subs
      | some _ ↦ delete client_id subs
    ] in
    (node ch subs', is_empty_node (node ch subs'))
unsub_recursive (seg ∷ segs) client_id (node ch subs) = elim (child_at seg ch) [
  | none ↦ (node ch subs, false)
  | some c ↦ prune_child seg ch subs (unsub_recursive segs client_id c)
]

-- One round of `mergeSubscribers`.
unfoldable pub merge_one : Bytes → Subscriber → Subscribers → Subscribers
merge_one id sub dst = elim (lookup id dst) [
  | none ↦ insert id sub dst
  | some existing ↦ if ltb existing.qos sub.qos then insert id sub dst else dst
]

unfoldable pub merge_subscribers : Subscribers → Subscribers → Subscribers
unfolding merge_one
merge_subscribers [] dst = dst
merge_subscribers ((id, sub) ∷ src) dst = merge_subscribers src (merge_one id sub dst)

-- The child under `#`, merged.
abbrev pub merge_hash : Children → Subscribers → Subscribers
merge_hash ch out = elim (child_at (codes "#") ch) [
  | none ↦ out
  | some h ↦ merge_subscribers (subscribers h) out
]

-- `matchNode`, over the segments from `depth` on.
unfoldable pub match_node : List Bytes → Node → Subscribers → Subscribers
unfolding child_at merge_subscribers
match_node [] (node ch subs) out = merge_subscribers subs (merge_hash ch out)
match_node (seg ∷ segs) (node ch subs) out =
    let hashed = merge_hash ch out in
    let exact : Subscribers = elim (child_at seg ch) [
      | none ↦ hashed
      | some c ↦ match_node segs c hashed
    ] in
    elim (child_at (codes "+") ch) [ none ↦ exact | some p ↦ match_node segs p exact ]

-- `removeClientFromNode`: the node and everything below it.
unfoldable mutual
  pub remove_client_from_node : Bytes → Node → Node
  remove_client_from_node client_id (node ch subs) =
      node (remove_client_from_children client_id ch) (delete client_id subs)

  pub remove_client_from_children : Bytes → Children → Children
  remove_client_from_children client_id no_child = no_child
  remove_client_from_children client_id (child seg n ch) =
      child seg (remove_client_from_node client_id n) (remove_client_from_children client_id ch)

-- `prefix + "/" + seg`, and `seg` alone behind an empty prefix.
abbrev pub next_prefix : Bytes → Bytes → Bytes
next_prefix prefix seg = if is_empty prefix then seg else (prefix ++ codes "/") ++ seg

-- `collectFilters`: the filters appended.
unfoldable mutual
  pub collect_filters : Node → Bytes → Bytes → List Bytes
  collect_filters (node ch subs) prefix client_id =
      (elim (lookup client_id subs) [ none ↦ [] | some _ ↦ prefix ∷ [] ])
      ++ collect_children ch prefix client_id

  pub collect_children : Children → Bytes → Bytes → List Bytes
  collect_children no_child prefix client_id = []
  collect_children (child seg n ch) prefix client_id =
      collect_filters n (next_prefix prefix seg) client_id ++ collect_children ch prefix client_id
