-- ===== src/Router/Engine.antt =====
-- `Router` of internal/router/router.go: the shards, the shared groups, the retained messages, and
-- the operations on them. Each operation runs alone. The array of 256 shards is a function of the
-- index; `sync.Map` and the Go maps are association lists, whose order stands for the unspecified
-- order of iteration. Metrics and logs are left out.
pub mod Entries
pub mod Matching
pub mod Once
pub mod Accepted
pub mod Routed
use broker.Prelude.{
  ℕ, zero, suc, ◌+◌, ◌-◌, ◌*◌, ◌%◌, ◌^◌, ◌==◌, ltb, if◌then◌else◌, Bytes, codes, List, [], ◌∷◌,
  ◌++◌, Bool, true, false, Option, none, some, length, take, drop, get_elem?, bytes_eq_instance,
}
use broker.Prelude.Hash.{fnv32a}
use broker.Prelude.Maps.{lookup, insert, delete}
use broker.Prelude.Int.{ℤ, pos, inc, dec}
use broker.Protocol.Topic.{is_empty, index_byte, parse_shared_topic_filter}
use broker.Router.Segments.{split_filter, topic_matches_filter}
use broker.Router.Trie
use broker.Router.Trie.{
  Node, new_node, Subscriber, Subscribers, match_node, remove_client_from_node, collect_filters,
}

pub record Retained : Type 0 where
  pub topic : Bytes
  pub payload : Bytes
  pub qos : ℕ
  pub timestamp : ℕ

pub record SharedGroup : Type 0 where
  pub share_name : Bytes
  pub topic_filter : Bytes
  pub subs : Subscribers
  pub rr : ℕ

abbrev pub Groups : Type 0
Groups = List (Bytes × SharedGroup)

pub record Router : Type 0 where
  pub shards : ℕ → Node
  pub retained : List (Bytes × Retained)
  pub shared : Groups
  pub retained_count : ℤ

-- A call of a `DeliverFn`; its packet identifier is always 0.
pub record Delivery : Type 0 where
  pub sink : ℕ
  pub topic : Bytes
  pub payload : Bytes
  pub qos : ℕ
  pub retain : Bool

abbrev pub num_shards : ℕ
num_shards = 256

unfoldable pub new_router : Router
new_router = record { shards = λ i. new_node; retained = []; shared = []; retained_count = pos 0 }

-- The bytes before the first slash, or all.
unfoldable pub root_segment : Bytes → Bytes
unfolding index_byte
root_segment filter = elim (index_byte filter b'/') [ none ↦ filter | some i ↦ take i filter ]

-- The index that `shardFor` computes; `h & (numShards-1)` is the remainder by 256.
unfoldable pub shard_for : Bytes → ℕ
unfolding fnv32a root_segment
shard_for filter = fnv32a (root_segment filter) % num_shards

abbrev pub update_shard : ℕ → Node → (ℕ → Node) → ℕ → Node
update_shard i n shards j = if j == i then n else shards j

unfoldable pub shared_store_key : Bytes → Bytes → Bytes
shared_store_key share_name topic_filter = share_name ++ (0 ∷ topic_filter)

unfoldable pub shared_key_to_filter : Bytes → Bytes
unfolding index_byte
shared_key_to_filter key = elim (index_byte key 0) [
  | none ↦ []
  | some i ↦ codes "$share/" ++ (take i key ++ (b'/' ∷ drop (i + 1) key))
]

abbrev pub or_new_group : Bytes → Bytes → Option SharedGroup → SharedGroup
or_new_group share_name topic_filter none = record {
  share_name = share_name;
  topic_filter = topic_filter;
  subs = [];
  rr = 0;
}
or_new_group share_name topic_filter (some g) = g

unfoldable pub subscribe_shared : Bytes → Bytes → Subscriber → Groups → Groups
unfolding shared_store_key
subscribe_shared share_name topic_filter sub groups =
    let key = shared_store_key share_name topic_filter in
    let g = or_new_group share_name topic_filter (lookup key groups) in
    insert key (record g { subs = insert sub.client_id sub g.subs }) groups

unfoldable pub subscribe : Bytes → Subscriber → Router → Router
subscribe filter sub r = elim (parse_shared_topic_filter filter) [
  | some (share_name, topic_filter) ↦ record r {
    shared = subscribe_shared share_name topic_filter sub r.shared;
  }
  | none ↦
      let i = shard_for filter in
      let n = Trie.subscribe (split_filter filter) sub (r.shards i) in
      record r { shards = update_shard i n r.shards }
]

unfoldable pub unsubscribe_shared : Bytes → Bytes → Bytes → Groups → Groups
unfolding shared_store_key
unsubscribe_shared share_name topic_filter client_id groups =
    let key = shared_store_key share_name topic_filter in
    elim (lookup key groups) [
      | none ↦ groups
      | some g ↦
          let left = delete client_id g.subs in
          if is_empty left then delete key groups else insert key (record g { subs = left }) groups
    ]

unfoldable pub unsubscribe : Bytes → Bytes → Router → Router
unsubscribe filter client_id r = elim (parse_shared_topic_filter filter) [
  | some (share_name, topic_filter) ↦ record r {
    shared = unsubscribe_shared share_name topic_filter client_id r.shared;
  }
  | none ↦
      let i = shard_for filter in
      let n = (Trie.unsub_recursive (split_filter filter) client_id (r.shards i)).0 in
      record r { shards = update_shard i n r.shards }
]

-- The groups afterwards, and how many of them the client has left.
unfoldable pub remove_client_from_all_shared : Bytes → Groups → Groups × ℕ
remove_client_from_all_shared client_id [] = ([], 0)
remove_client_from_all_shared client_id ((key, g) ∷ groups) =
    let (rest, removed) = remove_client_from_all_shared client_id groups in
    let left = delete client_id g.subs in
    let removed' : ℕ = elim (lookup client_id g.subs) [ none ↦ removed | some _ ↦ removed + 1 ] in
    ((if is_empty left then rest else (key, record g { subs = left }) ∷ rest), removed')

unfoldable pub unsubscribe_all : Bytes → Router → Router
unsubscribe_all client_id r = record r {
  shards = λ i. remove_client_from_node client_id (r.shards i);
  shared = (remove_client_from_all_shared client_id r.shared).0;
}

unfoldable pub shard_filters : ℕ → (ℕ → Node) → Bytes → List Bytes
shard_filters zero shards client_id = []
shard_filters (suc k) shards client_id =
    shard_filters k shards client_id ++ collect_filters (shards k) [] client_id

unfoldable pub shared_filters : Groups → Bytes → List Bytes
unfolding shared_key_to_filter
shared_filters [] client_id = []
shared_filters ((key, g) ∷ groups) client_id =
    let rest = shared_filters groups client_id in
    elim (lookup client_id g.subs) [ none ↦ rest | some _ ↦ shared_key_to_filter key ∷ rest ]

unfoldable pub get_filters : Bytes → Router → List Bytes
unfolding shard_filters shared_filters
get_filters client_id r =
    shard_filters num_shards r.shards client_id ++ shared_filters r.shared client_id

-- The first `k` shards, in order.
unfoldable pub match_shards : ℕ → (ℕ → Node) → List Bytes → Subscribers
match_shards zero shards segs = []
match_shards (suc k) shards segs = match_node segs (shards k) (match_shards k shards segs)

unfoldable pub match_subscribers : Bytes → Router → Subscribers
match_subscribers topic r = match_shards num_shards r.shards (split_filter topic)

-- The lower of the two QoS levels, and nothing for a nil `Deliver`.
unfoldable pub deliver_to : Bytes → Bytes → ℕ → Bool → Subscriber → List Delivery
deliver_to topic payload qos retain sub =
    let eff_qos = if ltb sub.qos qos then sub.qos else qos in
    elim sub.deliver [
      | none ↦ []
      | some sink ↦
          record { sink = sink; topic = topic; payload = payload; qos = eff_qos; retain = retain }
          ∷ []
    ]

unfoldable pub deliver_all : Bytes → Bytes → ℕ → Subscribers → List Delivery
unfolding deliver_to
deliver_all topic payload qos [] = []
deliver_all topic payload qos ((id, sub) ∷ subs) =
    deliver_to topic payload qos false sub ++ deliver_all topic payload qos subs
