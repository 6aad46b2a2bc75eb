-- ===== src/Server/Partitions.antt =====
-- The partitions of a cluster of brokers: `reconcilePartitions` of
-- internal/broker/server.go.
use broker.Prelude.{
  ℕ, zero, suc, ◌+◌, ◌<◌, ltb, leb, if◌then◌else◌, Bytes, List, ◌∷◌, ◌&&◌, some, ◌≡◌, arith,
}
use broker.Router.Shared.{sort_strings}
use broker.Cluster
use broker.Cluster.{owner, set_owner}
use broker.Cluster.Ownership.{owner-set_owner}
use broker.Server.Background.{assign, owner_among, reconcile_partitions}

-- Whether a loop of `n` rounds from `p` on reaches the partition `q`.
owner-assign :
    (owner_of : ℕ → Bytes) (p n q : ℕ) (m : Cluster.Manager)
    → owner q (assign owner_of p n m) ≡ (if leb p q && ltb q (p + n) then owner_of q else owner q m)
unfolding assign
owner-assign owner_of p zero q m = ground arith
owner-assign owner_of p (suc n) q m = ground (
  arith,
  owner-assign owner_of (p + 1) n q (set_owner p (owner_of p) m),
  owner-set_owner p q (owner_of p) m,
)

owner-reconcile_partitions :
    (id : Bytes) (ids : List Bytes) (broker_id : Bytes) (n p : ℕ) (m : Cluster.Manager)
    → p < n
    → owner p (reconcile_partitions (some (id ∷ ids)) broker_id n m)
      ≡ owner_among (sort_strings (id ∷ ids)) p
unfolding reconcile_partitions
owner-reconcile_partitions id ids broker_id n p m below =
    ground (arith, owner-assign (owner_among (sort_strings (id ∷ ids))) 0 n p m)
