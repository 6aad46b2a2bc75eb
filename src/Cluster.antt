-- ===== src/Cluster.antt =====
-- `Manager` of internal/cluster/partition.go: which broker owns which partition of the topics. Each
-- method runs alone.
pub mod Ownership
mod Tests
use broker.Prelude.{
  ℕ, zero, suc, ◌%◌, ◌^◌, ◌==◌, if◌then◌else◌, Bytes, List, [], Bool, Option, none, some, bytes_eq,
  nat_eq,
}
use broker.Prelude.Hash.{fnv32a}
use broker.Prelude.Maps.{lookup, insert}

-- A negative number of partitions is left out.
pub record Manager : Type 0 where
  pub broker_id : Bytes
  pub partition_count : ℕ
  pub ownership : List (ℕ × Bytes)

-- The loop of `NewManager`: the partitions below `n`.
unfoldable pub own_all : Bytes → ℕ → List (ℕ × Bytes)
own_all broker_id zero = []
own_all broker_id (suc n) = insert n broker_id (own_all broker_id n)

unfoldable pub new_manager : Bytes → ℕ → Manager
unfolding own_all
new_manager broker_id partition_count = record {
  broker_id = broker_id;
  partition_count = partition_count;
  ownership = own_all broker_id partition_count;
}

-- `none` is the panic of a division by zero.
unfoldable pub partition_for_topic : Bytes → Manager → Option ℕ
partition_for_topic topic m =
    let count = m.partition_count % 2 ^ 32 in
    if count == 0 then none else some (fnv32a topic % count)

unfoldable pub owner : ℕ → Manager → Bytes
owner partition m = elim (lookup partition m.ownership) [ none ↦ m.broker_id | some id ↦ id ]

unfoldable pub set_owner : ℕ → Bytes → Manager → Manager
set_owner partition broker_id m = record m { ownership = insert partition broker_id m.ownership }

unfoldable pub is_local_owner : Bytes → Manager → Option Bool
unfolding partition_for_topic owner
is_local_owner topic m = elim (partition_for_topic topic m) [
  | none ↦ none
  | some p ↦ some (bytes_eq (owner p m) m.broker_id)
]
