-- ===== src/Router/Shared.antt =====
-- `deliverShared` of internal/router/router.go: the round-robin choice in a shared group.
pub mod Turns
use broker.Prelude.{
  ℕ, ◌+◌, ◌-◌, ◌%◌, ◌^◌, ◌==◌, ltb, if◌then◌else◌, Bytes, List, [], ◌∷◌, ◌++◌, Bool, true, false,
  ◌||◌, ◌&&◌, Option, none, some, length, get_elem?, bytes_eq_instance,
}
use broker.Prelude.Maps.{lookup}
use broker.Protocol.Topic.{is_empty}
use broker.Router.Segments.{topic_matches_filter}
use broker.Router.Trie.{Subscriber, Subscribers}
use broker.Router.Engine.{SharedGroup, Groups, Delivery, deliver_to}

-- Go's `<=` on strings.
unfoldable pub bytes_le : Bytes → Bytes → Bool
bytes_le [] t = true
bytes_le (b ∷ s) [] = false
bytes_le (b ∷ s) (c ∷ t) = ltb b c || ((b == c) && bytes_le s t)

unfoldable pub insert_sorted : Bytes → List Bytes → List Bytes
unfolding bytes_le
insert_sorted s [] = s ∷ []
insert_sorted s (t ∷ ts) = if bytes_le s t then s ∷ t ∷ ts else t ∷ insert_sorted s ts

-- `sort.Strings`
unfoldable pub sort_strings : List Bytes → List Bytes
unfolding insert_sorted
sort_strings [] = []
sort_strings (s ∷ ts) = insert_sorted s (sort_strings ts)

abbrev pub ids_of : Subscribers → List Bytes
ids_of [] = []
ids_of ((id, sub) ∷ subs) = id ∷ ids_of subs

abbrev pub u64 : ℕ
u64 = 2 ^ 64

-- `next := g.rr.Add(1)`
unfoldable pub next_turn : SharedGroup → ℕ
next_turn g = (g.rr + 1) % u64

-- `(next - 1) % uint64(len(ids))`, with the wrap-around of `next - 1`
unfoldable pub turn_index : ℕ → ℕ → ℕ
turn_index next n = (next + u64 - 1) % u64 % n

-- `g.subs[ids[idx]]`; `none` would be a panic.
unfoldable pub pick_member : SharedGroup → Option Subscriber
unfolding next_turn turn_index
pick_member g =
    let ids = sort_strings (ids_of g.subs) in
    elim (get_elem? ids (turn_index (next_turn g) (length ids))) [
      | none ↦ none
      | some id ↦ lookup id g.subs
    ]

abbrev pub deliver_member : Bytes → Bytes → ℕ → Option Subscriber → List Delivery
deliver_member topic payload qos none = []
deliver_member topic payload qos (some sub) = deliver_to topic payload qos false sub

-- One round of the loop: the group afterwards, and its delivery.
unfoldable pub serve_group : Bytes → Bytes → ℕ → SharedGroup → SharedGroup × List Delivery
unfolding next_turn pick_member
serve_group topic payload qos g =
    if topic_matches_filter topic g.topic_filter
    then if is_empty g.subs
      then (g, [])
      else (record g { rr = next_turn g }, deliver_member topic payload qos (pick_member g))
    else (g, [])

unfoldable pub deliver_shared : Bytes → Bytes → ℕ → Groups → Groups × List Delivery
unfolding serve_group
deliver_shared topic payload qos [] = ([], [])
deliver_shared topic payload qos ((key, g) ∷ groups) =
    let (g', sent) = serve_group topic payload qos g in
    let (rest, more) = deliver_shared topic payload qos groups in ((key, g') ∷ rest, sent ++ more)
