-- ===== src/Router/Publish.antt =====
-- `Publish`, `SendRetained`, `SetRetained` and `GetRetained` of internal/router/router.go. A publish
-- returns the router and its deliveries; their number is Go's result. The time is an argument.
pub mod Retention
use broker.Prelude.{
  ℕ, if◌then◌else◌, Bytes, List, [], ◌∷◌, ◌++◌, Bool, true, false, Option, none, some, length,
  bytes_eq_instance,
}
use broker.Prelude.Maps.{lookup, insert, delete}
use broker.Prelude.Int.{ℤ, inc, dec}
use broker.Protocol.Topic.{is_empty, parse_shared_topic_filter}
use broker.Router.Segments.{topic_matches_filter}
use broker.Router.Trie.{Subscriber}
use broker.Router.Engine.{Router, Retained, Delivery, match_subscribers, deliver_to, deliver_all}
use broker.Router.Shared.{deliver_shared}

-- `r.retained.Swap`, and the count of a topic that is new.
unfoldable pub set_retained : Retained → Router → Router
unfolding inc
set_retained msg r = record r {
  retained = insert msg.topic msg r.retained;
  retained_count = elim (lookup msg.topic r.retained) [
    | none ↦ inc r.retained_count
    | some _ ↦ r.retained_count
  ];
}

-- The first part of `Publish`.
unfoldable pub retain_message : ℕ → Bytes → Bytes → ℕ → Router → Router
unfolding set_retained dec
retain_message now topic payload qos r =
    if is_empty payload
    then record r { retained = delete topic r.retained; retained_count = dec r.retained_count }
    else set_retained (record { topic = topic; payload = payload; qos = qos; timestamp = now }) r

unfoldable pub publish : ℕ → Bytes → Bytes → ℕ → Bool → Router → Router × List Delivery
unfolding retain_message
publish now topic payload qos retain r =
    let r' = if retain then retain_message now topic payload qos r else r in
    let matched = match_subscribers topic r' in
    let (groups, turns) = deliver_shared topic payload qos r'.shared in
    (record r' { shared = groups }, deliver_all topic payload qos matched ++ turns)

unfoldable pub get_retained : Bytes → Router → Option Retained
get_retained topic r = lookup topic r.retained

-- The filter inside `$share/name/`, or the filter.
abbrev pub match_filter : Bytes → Bytes
match_filter filter = elim (parse_shared_topic_filter filter) [
  | none ↦ filter
  | some (share_name, inner) ↦ inner
]

abbrev pub retained_deliveries : Bytes → Subscriber → List (Bytes × Retained) → List Delivery
retained_deliveries filter sub [] = []
retained_deliveries filter sub ((topic, msg) ∷ rest) =
    (if topic_matches_filter topic filter
      then deliver_to topic msg.payload msg.qos true sub
      else [])
    ++ retained_deliveries filter sub rest

unfoldable pub send_retained : Bytes → Subscriber → Router → List Delivery
unfolding deliver_to
send_retained filter sub r = retained_deliveries (match_filter filter) sub r.retained
