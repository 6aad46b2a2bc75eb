-- ===== src/Router/Engine/Accepted.antt =====
-- From `Subscribe` to `matchSubscribers` of internal/router/router.go, for filters that
-- `ValidTopicFilter` of internal/protocol/packet.go accepts.
use broker.Prelude.{
  Bytes, List, [], ◌∷◌, true, none, bytes_eq_iff, bytes_eq_self, ◌≡◌, refl, arith, Option-cases,
  inl, inr, bytes_eq_instance,
}
use broker.Prelude.Maps.{lookup}
use broker.Protocol.Topic.{
  is_empty, valid_segment, valid_topic_filter_segments, valid_topic_filter,
  parse_shared_topic_filter,
}
use broker.Router.Segments.{split_filter, topic_matches_filter}
use broker.Router.Segments.Join.{split_filter_agree}
use broker.Router.Matches.{HashLast, hash_seg}
use broker.Router.Trie.{Subscriber}
use broker.Router.Trie.Merge.{AtLeast}
use broker.Router.Engine.{Router, subscribe, unsubscribe_all, match_subscribers}
use broker.Router.Engine.Entries.{entry-subscribe, plain_entry-unsubscribe_all}
use broker.Router.Engine.Routed.{IsRouted, unsubscribe_all-IsRouted}
use broker.Router.Engine.Matching.{match_subscribers-found, match_subscribers-source}

is_empty→nil : (p : List Bytes) → is_empty p ≡ true → p ≡ []
is_empty→nil [] h = refl
is_empty→nil (s ∷ p) h = cc

valid_topic_filter_segments-HashLast :
    (p : List Bytes) → valid_topic_filter_segments p ≡ true → HashLast p
unfolding valid_topic_filter_segments valid_segment
valid_topic_filter_segments-HashLast [] h = tt
valid_topic_filter_segments-HashLast (seg ∷ p) h = (
  λ e. is_empty→nil p (ground (arith, bytes_eq_iff seg hash_seg, e)),
  valid_topic_filter_segments-HashLast p (ground arith),
)

-- A filter that `ValidTopicFilter` accepts and that is not a shared one has `#` only as its last
-- segment.
pub valid_topic_filter-HashLast :
    (f : Bytes)
    → valid_topic_filter f ≡ true
    → parse_shared_topic_filter f ≡ none
    → HashLast (split_filter f)
unfolding valid_topic_filter
valid_topic_filter-HashLast f valid plain =
    valid_topic_filter_segments-HashLast (split_filter f)
      (rw (← split_filter_agree f) (ground (arith, plain)))

-- A client that subscribes to a filter that `ValidTopicFilter` accepts, and that is not a shared
-- one, is found by `matchSubscribers` for every topic that the filter matches, with at least the
-- QoS that it subscribed with.
pub match_subscribers-subscribe :
    (topic f : Bytes) (sub : Subscriber) (r : Router)
    → valid_topic_filter f ≡ true
    → parse_shared_topic_filter f ≡ none
    → topic_matches_filter topic f ≡ true
    → AtLeast sub.qos sub.client_id (match_subscribers topic (subscribe f sub r))
match_subscribers-subscribe topic f sub r valid plain match =
    match_subscribers-found topic f sub.client_id sub (subscribe f sub r)
      (valid_topic_filter-HashLast f valid plain) match
      (rw (
        entry-subscribe f f sub.client_id sub r plain,
        bytes_eq_self f,
        bytes_eq_self sub.client_id,
      ))

-- In a router that satisfies the invariant, `matchSubscribers` finds a client for no topic once
-- `UnsubscribeAll` has run for it.
pub match_subscribers-unsubscribe_all :
    (topic id : Bytes) (r : Router)
    → IsRouted r
    → lookup id (match_subscribers topic (unsubscribe_all id r)) ≡ none
match_subscribers-unsubscribe_all topic id r ok =
    elim (Option-cases (lookup id (match_subscribers topic (unsubscribe_all id r)))) [
      | inl gone ↦ gone
      | inr (s, found) ↦
          let (f, match, left) =
            match_subscribers-source topic id s (unsubscribe_all id r)
              (unsubscribe_all-IsRouted id r ok) found in
          absurd (ground (arith, plain_entry-unsubscribe_all f id id r, bytes_eq_self id))
    ]
