-- ===== src/Router/Engine/Entries.antt =====
-- The abstract view of the `Router` of internal/router/router.go as one map: for a filter and a
-- client, the subscriber.
use broker.Prelude.{
  ==_iff, if◌then◌else◌, Bytes, ◌&&◌, Option, none, some, bytes_eq, bytes_eq_iff, ◌≡◌, ap, arith,
  bytes_eq_instance, [], ◌∷◌, refl, sym, ◌∙◌, true, Bool-cases, inl, inr,
}
use broker.Prelude.Maps.{lookup, lookup-insert, delete, lookup-delete, Unique}
use broker.Protocol.Topic.{is_empty, parse_shared_topic_filter}
use broker.Router.Segments.{split_filter}
use broker.Router.Segments.Join.{split_filter_inj}
use broker.Router.Trie.{Subscriber, Subscribers}
use broker.Router.Trie.Paths.{subs_at, path_eq, path_eq_iff}
use broker.Router.Trie.Updates.{
  subs_at-subscribe, subs_at-unsub_recursive, subs_at-remove_client_from_node,
}
use broker.Router.Engine.{
  Router, Groups, SharedGroup, shard_for, subscribe, unsubscribe, remove_client_from_all_shared,
  unsubscribe_all,
}

unfoldable pub entry : Router → Bytes → Bytes → Option Subscriber
entry r filter client_id =
    lookup client_id (subs_at (split_filter filter) (r.shards (shard_for filter)))

path_eq-split_filter : (f g : Bytes) → path_eq (split_filter f) (split_filter g) ≡ bytes_eq f g
path_eq-split_filter f g = ground (
  arith,
  path_eq_iff (split_filter f) (split_filter g),
  bytes_eq_iff f g,
  split_filter_inj f g,
  λ (e : f ≡ g). ap split_filter e,
)

-- Seen as a map from filters and clients to subscribers, `Subscribe` with a filter that is not a
-- shared one sets the entry of its filter and client and leaves every other entry as it is.
pub entry-subscribe :
    (f g c : Bytes) (sub : Subscriber) (r : Router)
    → parse_shared_topic_filter f ≡ none
    → entry (subscribe f sub r) g c
      ≡ (if bytes_eq f g && bytes_eq sub.client_id c then some sub else entry r g c)
unfolding entry subscribe
entry-subscribe f g c sub r plain =
    rw (plain, subscribe)
      (ground (
        arith,
        ==_iff (shard_for g) (shard_for f),
        bytes_eq_iff f g,
        path_eq-split_filter f g,
        subs_at-subscribe (split_filter f) (split_filter g) sub (r.shards (shard_for f)),
        lookup-insert sub.client_id c sub (subs_at (split_filter g) (r.shards (shard_for f))),
      ))

-- Seen as a map from filters and clients to subscribers, `Unsubscribe` with a filter that is not a
-- shared one removes the entry of its filter and client and leaves every other entry as it is,
-- whatever nodes it prunes.
pub entry-unsubscribe :
    (f g id c : Bytes) (r : Router)
    → parse_shared_topic_filter f ≡ none
    → entry (unsubscribe f id r) g c ≡ (if bytes_eq f g && bytes_eq id c then none else entry r g c)
unfolding entry unsubscribe
entry-unsubscribe f g id c r plain =
    rw (plain, unsubscribe)
      (ground (
        arith,
        ==_iff (shard_for g) (shard_for f),
        bytes_eq_iff f g,
        path_eq-split_filter f g,
        subs_at-unsub_recursive (split_filter f) (split_filter g) id (r.shards (shard_for f)),
        lookup-delete {V = Subscriber} id c (subs_at (split_filter g) (r.shards (shard_for f))),
      ))

-- The member of a shared group, the group by its key.
abbrev pub member : Bytes → Option SharedGroup → Option Subscriber
member c none = none
member c (some g) = lookup c g.subs

abbrev pub shared_entry : Groups → Bytes → Bytes → Option Subscriber
shared_entry groups key c = member c (lookup key groups)

absent_after :
    (id key : Bytes) (groups : Groups)
    → lookup key groups ≡ none
    → lookup key (remove_client_from_all_shared id groups).0 ≡ none
unfolding remove_client_from_all_shared lookup
absent_after id key [] h = refl
absent_after id key ((k, g) ∷ groups) h = elim (Bool-cases (bytes_eq k key)) [
  | inl same ↦ absurd (ground arith)
  | inr other ↦ elim (Bool-cases (is_empty (delete id g.subs))) [
    | inl gone ↦ rw gone (absent_after id key groups (ground arith))
    | inr left ↦ rw left (rw other (absent_after id key groups (ground arith)))
  ]
]

empty_lookup : (c : Bytes) (subs : Subscribers) → is_empty subs ≡ true → lookup c subs ≡ none
unfolding lookup
empty_lookup c [] h = refl
empty_lookup c (s ∷ subs) h = absurd (ground arith)

shared_entry-remove :
    (id key c : Bytes) (groups : Groups)
    → Unique groups
    → shared_entry (remove_client_from_all_shared id groups).0 key c
      ≡ (if bytes_eq id c then none else shared_entry groups key c)
unfolding remove_client_from_all_shared lookup
shared_entry-remove id key c [] u = ground arith
shared_entry-remove id key c ((k, g) ∷ groups) (fresh, u) =
    let left = lookup-delete {V = Subscriber} id c g.subs in
    elim (Bool-cases (bytes_eq k key)) [
      | inl same ↦ elim (Bool-cases (is_empty (delete id g.subs))) [
        | inl gone ↦
            let out : lookup key (remove_client_from_all_shared id groups).0 ≡ none =
              absent_after id key groups (rw (← (bytes_eq_iff k key).0 same) fresh) in
            rw gone (
              ap (member c) out
              ∙ sym (empty_lookup c (delete id g.subs) gone)
              ∙ left
              ∙ rw same refl)
        | inr some_left ↦ rw some_left (rw same left)
      ]
      | inr other ↦ elim (Bool-cases (is_empty (delete id g.subs))) [
        | inl gone ↦ rw gone (rw other (shared_entry-remove id key c groups u))
        | inr some_left ↦ rw some_left (rw other (shared_entry-remove id key c groups u))
      ]
    ]

pub plain_entry-unsubscribe_all :
    (g id c : Bytes) (r : Router)
    → entry (unsubscribe_all id r) g c ≡ (if bytes_eq id c then none else entry r g c)
unfolding entry unsubscribe_all
plain_entry-unsubscribe_all g id c r =
    rw (subs_at-remove_client_from_node (split_filter g) id (r.shards (shard_for g)))
      (lookup-delete {V = Subscriber} id c (subs_at (split_filter g) (r.shards (shard_for g))))

-- `UnsubscribeAll` removes its client from every filter and from every shared group, and leaves
-- the entries and the memberships of the other clients as they are; the groups have no key twice,
-- as in a Go map.
pub entry-unsubscribe_all :
    (g key id c : Bytes) (r : Router)
    → Unique r.shared
    → (entry (unsubscribe_all id r) g c ≡ (if bytes_eq id c then none else entry r g c))
      × (shared_entry (unsubscribe_all id r).shared key c
          ≡ (if bytes_eq id c then none else shared_entry r.shared key c))
unfolding unsubscribe_all
entry-unsubscribe_all g key id c r keyed =
    (plain_entry-unsubscribe_all g id c r, shared_entry-remove id key c r.shared keyed)
