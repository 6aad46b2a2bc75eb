-- ===== src/Router/Tests.antt =====
-- Runs of the router, and the theorems at concrete routers.
use broker.Prelude.{
  ◌++◌, ◌+◌, arith, Bytes, codes, [], ◌∷◌, true, false, none, some, length, get_elem?, bytes_eq,
  if◌then◌else◌, ◌&&◌, ◌%◌, ◌≡◌, ◌↔◌, refl, bytes_eq_instance,
}
use broker.Prelude.Maps.{Unique, lookup, insert}
use broker.Prelude.Int.{dec}
use broker.Protocol.Topic.{parse_shared_topic_filter, valid_topic_filter}
use broker.Router.Segments.{split_filter, topic_matches_filter, match_segs}
use broker.Router.Matches.{HashLast, Covers, match_segs-Covers}
use broker.Router.Trie
use broker.Router.Trie.{Subscriber, Node, node, no_child, new_node, unsub_recursive, is_empty_node}
use broker.Router.Trie.Merge.{AtLeast}
use broker.Router.Engine.{
  Router, SharedGroup, new_router, subscribe, unsubscribe, unsubscribe_all, match_subscribers,
  deliver_to, match_shards, shard_for,
}
use broker.Router.Engine.Entries.{
  entry, shared_entry, entry-subscribe, entry-unsubscribe, entry-unsubscribe_all,
}
use broker.Router.Engine.Routed.{IsRouted, new_router-IsRouted, subscribe-IsRouted}
use broker.Router.Engine.Matching.{match_subscribers-found, match_subscribers-source}
use broker.Router.Engine.Accepted.{match_subscribers-subscribe, valid_topic_filter-HashLast}
use broker.Router.Publish.{publish, get_retained}
use broker.Router.Publish.Retention.{
  IsCounted, get_retained-publish, publish-IsCounted, publish-clear_absent, publish-IsRouted,
}
use broker.Router.Shared.{serve_group}
use broker.Router.Shared.Turns.{members, serve_group-turn}

abbrev topic : Bytes
topic = codes "home/kitchen"

abbrev filter : Bytes
filter = codes "home/+"

abbrev ann : Subscriber
ann = record { client_id = codes "ann"; qos = 1; deliver = some 0 }

abbrev bob : Subscriber
bob = record { client_id = codes "bob"; qos = 2; deliver = some 1 }

abbrev one_client : Router
one_client = subscribe filter ann new_router

one_client-IsRouted : IsRouted one_client
one_client-IsRouted = subscribe-IsRouted filter ann new_router new_router-IsRouted

filter_plain : parse_shared_topic_filter filter ≡ none
unfolding parse_shared_topic_filter
filter_plain = refl

filter_valid : valid_topic_filter filter ≡ true
unfolding valid_topic_filter
filter_valid = refl

topic_matched : topic_matches_filter topic filter ≡ true
unfolding topic_matches_filter
topic_matched = refl

hash_matches_parent : topic_matches_filter (codes "sport") (codes "sport/#") ≡ true
unfolding topic_matches_filter
hash_matches_parent = refl

plus_matches_one_level : topic_matches_filter (codes "sport/a/b") (codes "sport/+") ≡ false
unfolding topic_matches_filter
plus_matches_one_level = refl

match_subscribers-subscribe_example :
    AtLeast 1 (codes "ann") (match_subscribers topic (subscribe filter ann new_router))
match_subscribers-subscribe_example =
    match_subscribers-subscribe topic filter ann new_router filter_valid filter_plain topic_matched

stored : entry one_client filter (codes "ann") ≡ some ann
unfolding bytes_eq
stored = entry-subscribe filter filter (codes "ann") ann new_router filter_plain

match_subscribers-found_example : AtLeast 1 (codes "ann") (match_subscribers topic one_client)
match_subscribers-found_example =
    match_subscribers-found topic filter (codes "ann") ann one_client
      (valid_topic_filter-HashLast filter filter_valid filter_plain) topic_matched stored

ann_matched : lookup (codes "ann") (match_subscribers topic one_client) ≡ some ann
unfolding match_subscribers subscribe new_router parse_shared_topic_filter lookup match_shards
    Trie.match_node split_filter shard_for Trie.subscribe bytes_eq insert
ann_matched = refl

match_subscribers-source_example :
    (f : Bytes) × (topic_matches_filter topic f ≡ true)
    × (entry one_client f (codes "ann") ≡ some ann)
match_subscribers-source_example =
    match_subscribers-source topic (codes "ann") ann one_client one_client-IsRouted ann_matched

entry-subscribe_example : entry (subscribe filter bob one_client) filter (codes "ann") ≡ (
    if bytes_eq filter filter && bytes_eq (codes "bob") (codes "ann")
    then some bob
    else entry one_client filter (codes "ann"))
entry-subscribe_example = entry-subscribe filter filter (codes "ann") bob one_client filter_plain

entry-unsubscribe_example :
    entry (unsubscribe filter (codes "ann") one_client) filter (codes "ann") ≡ (
      if bytes_eq filter filter && bytes_eq (codes "ann") (codes "ann")
      then none
      else entry one_client filter (codes "ann"))
entry-unsubscribe_example =
    entry-unsubscribe filter filter (codes "ann") (codes "ann") one_client filter_plain

-- Ann alone in a group, bob and ann in another.
abbrev grouped : Router
grouped =
    subscribe (codes "$share/g/home/+") bob
      (subscribe (codes "$share/g/home/+") ann (subscribe (codes "$share/h/#") ann one_client))

abbrev group_key : Bytes
group_key = codes "g" ++ (0 ∷ filter)

grouped-Unique : Unique grouped.shared
unfolding subscribe parse_shared_topic_filter broker.Router.Engine.subscribe_shared insert
    new_router bytes_eq lookup
grouped-Unique = (refl, (refl, tt))

entry-unsubscribe_all_example :
    (entry (unsubscribe_all (codes "ann") grouped) filter (codes "bob")
      ≡ (if bytes_eq (codes "ann") (codes "bob") then none else entry grouped filter (codes "bob")))
    × (shared_entry (unsubscribe_all (codes "ann") grouped).shared group_key (codes "bob") ≡ (
        if bytes_eq (codes "ann") (codes "bob")
        then none
        else shared_entry grouped.shared group_key (codes "bob")))
entry-unsubscribe_all_example =
    entry-unsubscribe_all filter group_key (codes "ann") (codes "bob") grouped grouped-Unique

subscribe-IsRouted_example : IsRouted (subscribe filter bob one_client)
subscribe-IsRouted_example = subscribe-IsRouted filter bob one_client one_client-IsRouted

publish-IsRouted_example : IsRouted (publish 7 topic (codes "on") 1 true one_client).0
publish-IsRouted_example =
    publish-IsRouted 7 topic (codes "on") 1 true one_client one_client-IsRouted

hash_last : HashLast (codes "a" ∷ codes "#" ∷ [])
hash_last = ((λ e. absurd (ground arith)), ((λ e. refl), tt))

match_segs-Covers_example :
    (match_segs (codes "a" ∷ codes "b" ∷ []) (codes "a" ∷ codes "#" ∷ []) ≡ true)
    ↔ Covers (codes "a" ∷ codes "b" ∷ []) (codes "a" ∷ codes "#" ∷ [])
match_segs-Covers_example =
    match_segs-Covers (codes "a" ∷ codes "b" ∷ []) (codes "a" ∷ codes "#" ∷ []) hash_last

abbrev leaf : Node
leaf = node no_child ((codes "ann", ann) ∷ [])

get_retained-publish_example :
    get_retained topic (publish 7 topic (codes "on") 1 true one_client).0 ≡ (
      if true && bytes_eq topic topic
      then some (record { topic = topic; payload = codes "on"; qos = 1; timestamp = 7 })
      else get_retained topic one_client)
get_retained-publish_example = get_retained-publish 7 topic (codes "on") topic 1 true one_client

new_router-IsCounted : IsCounted new_router
unfolding new_router
new_router-IsCounted = record { unique = tt; counted = refl }

publish-IsCounted_example : IsCounted (publish 7 topic (codes "on") 1 true new_router).0
publish-IsCounted_example =
    publish-IsCounted 7 topic (codes "on") 1 true new_router (λ flag empty. absurd (cons_nil empty))
      new_router-IsCounted
  where
    cons_nil : codes "on" ≡ [] → ⊥
    cons_nil h = cc

nothing_retained : get_retained topic new_router ≡ none
unfolding get_retained new_router lookup
nothing_retained = refl

publish-clear_absent_example :
    ((publish 7 topic [] 1 true new_router).0.retained ≡ new_router.retained)
    × ((publish 7 topic [] 1 true new_router).0.retained_count ≡ dec new_router.retained_count)
publish-clear_absent_example = publish-clear_absent 7 topic 1 new_router nothing_retained

abbrev pair : SharedGroup
pair = record {
  share_name = codes "g";
  topic_filter = filter;
  subs = (codes "bob", bob) ∷ (codes "ann", ann) ∷ [];
  rr = 5;
}

serve_group-turn_example :
    (id : Bytes) × (sub : Subscriber) × (get_elem? (members pair) (5 % length pair.subs) ≡ some id)
    × (lookup id pair.subs ≡ some sub)
    × (serve_group topic (codes "on") 1 pair
        ≡ (record pair { rr = 5 + 1 }, deliver_to topic (codes "on") 1 false sub))
serve_group-turn_example =
    serve_group-turn topic (codes "on") 1 pair (omega arith) (omega arith) topic_matched
