-- ===== src/Cluster/Ownership.antt =====
-- The partition of a topic and its owner, for internal/cluster/partition.go.
use native.Mathlib.Nat.{mod-lt}
use broker.Prelude.{
  ℕ, zero, suc, ◌%◌, ◌^◌, ◌≤◌, ◌<◌, ◌==◌, if◌then◌else◌, Bytes, true, some, bytes_eq, bytes_eq_self,
  ◌≡◌, ◌∙◌, refl, arith, Option-cases, inl, inr, nat_eq,
}
use broker.Prelude.Hash.{fnv32a}
use broker.Prelude.Maps.{lookup, lookup-insert}
use broker.Cluster.{
  Manager, own_all, new_manager, partition_for_topic, owner, set_owner, is_local_owner,
}

-- With a number of partitions from 1 to 2^32 - 1, `PartitionForTopic` does not panic and gives a
-- number below it.
pub partition_for_topic-lt :
    (topic : Bytes) (m : Manager)
    → 1 ≤ m.partition_count
    → m.partition_count < 2 ^ 32
    → (p : ℕ) × (partition_for_topic topic m ≡ some p) × (p < m.partition_count)
unfolding partition_for_topic
partition_for_topic-lt topic m positive small =
    (fnv32a topic % m.partition_count, ground (arith, whole), mod-lt (fnv32a topic) positive)
  where
    whole : m.partition_count % 2 ^ 32 ≡ m.partition_count
    whole = omega arith

pub owner-set_owner :
    (p q : ℕ) (id : Bytes) (m : Manager)
    → owner q (set_owner p id m) ≡ (if p == q then id else owner q m)
unfolding owner set_owner
owner-set_owner p q id m = ground (arith, lookup-insert p q id m.ownership)

local_at :
    (topic : Bytes) (p : ℕ) (m : Manager)
    → partition_for_topic topic m ≡ some p
    → is_local_owner topic m ≡ some (bytes_eq (owner p m) m.broker_id)
unfolding is_local_owner
local_at topic p m here = rw (here, is_local_owner)

partition_for_topic-set_owner :
    (topic id : Bytes) (p : ℕ) (m : Manager)
    → partition_for_topic topic (set_owner p id m) ≡ partition_for_topic topic m
unfolding partition_for_topic set_owner
partition_for_topic-set_owner topic id p m = refl

-- After `SetOwner` of a partition, a topic of that partition is local exactly if the new owner is
-- this broker, and for a topic of another partition `IsLocalOwner` answers as before.
pub is_local_owner-set_owner :
    (topic id : Bytes) (p q : ℕ) (m : Manager)
    → partition_for_topic topic m ≡ some q
    → is_local_owner topic (set_owner p id m)
      ≡ (if p == q then some (bytes_eq id m.broker_id) else is_local_owner topic m)
unfolding set_owner
is_local_owner-set_owner topic id p q m here =
    local_at topic q (set_owner p id m) (partition_for_topic-set_owner topic id p m ∙ here)
    ∙ rw (local_at topic q m here) (ground (arith, owner-set_owner p q id m))

own_all-owner :
    (id : Bytes) (n p : ℕ) (found : Bytes) → lookup p (own_all id n) ≡ some found → found ≡ id
unfolding own_all lookup
own_all-owner id zero p found h = absurd cc
own_all-owner id (suc n) p found h =
    ground (arith, lookup-insert n p id (own_all id n), own_all-owner id n p found)

owner-new_manager : (id : Bytes) (n p : ℕ) → owner p (new_manager id n) ≡ id
unfolding owner new_manager
owner-new_manager id n p = elim (Option-cases (lookup p (own_all id n))) [
  | inl missing ↦ rw (missing, owner)
  | inr (found, e) ↦ rw (e, owner) (own_all-owner id n p found e)
]

-- With a number of partitions from 1 to 2^32 - 1, every topic is local in a new manager.
pub is_local_owner-new_manager :
    (topic id : Bytes) (n : ℕ)
    → 1 ≤ n
    → n < 2 ^ 32
    → is_local_owner topic (new_manager id n) ≡ some true
unfolding new_manager
is_local_owner-new_manager topic id n positive small =
    let (p, here, below) = partition_for_topic-lt topic (new_manager id n) positive small in
    local_at topic p (new_manager id n) here ∙ rw (owner-new_manager id n p, bytes_eq_self id)
