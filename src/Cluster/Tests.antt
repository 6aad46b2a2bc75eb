-- ===== src/Cluster/Tests.antt =====
-- The theorems on ownership at a concrete manager.
use broker.Prelude.{codes, [], some, ◌≡◌, refl}
use broker.Prelude.Hash.{fnv32a}
use broker.Cluster.{Manager, partition_for_topic}
use broker.Cluster.Ownership.{}

abbrev manager : Manager
manager = record { broker_id = codes "b1"; partition_count = 1; ownership = [] }

only_partition : partition_for_topic (codes "a/b") manager ≡ some 0
unfolding partition_for_topic fnv32a
only_partition = refl
