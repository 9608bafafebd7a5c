-- ===== src/Counters.antt =====
-- mero-kms/src/counters.rs, the data: what a replica remembers of each node's store, and how two
-- views of it are merged.
pub mod Merge
pub mod Replica
pub mod Ops
pub mod Growth
pub mod Steps
pub mod Quorum
pub mod Answers
pub mod Genuine
pub mod Ready
pub mod Rounds
pub mod Acknowledged
pub mod Taken
use mero_tee.Prelude.{
  ℕ, zero, suc, ◌+◌, String, Bool, true, false, Option, none, some, List, [], ◌∷◌, ◌++◌, compare,
  max, Ordering, ltb, leb, if◌then◌else◌, length, ◌&&◌, not,
}
use mero_tee.Text.{Str, Bytes, lit, show_nat}
use mero_tee.Errors.{Result, Service, ServiceError, ok, err, counter_limit}
use mero_tee.Map.{Map, get, contains_key, insert}
use mero_tee.Map.Order.{Ord, nat_ord, list_ord}
use mero_tee.Crypto.{Crypto}

abbrev pub max_counter_clusters : ℕ
max_counter_clusters = 10000

abbrev pub max_counter_nodes_per_cluster : ℕ
max_counter_nodes_per_cluster = 1024

abbrev pub max_replicas : ℕ
max_replicas = 15

-- One node's counter, ordered as a pair.
pub record Entry : Type 0 where
  pub generation : ℕ
  pub mark : ℕ

abbrev pub default_entry : Entry
default_entry = record { generation = 0; mark = 0 }

unfoldable pub compare_entry : Entry → Entry → Ordering
compare_entry a b = elim (compare a.generation b.generation) [
  | Ordering.eq ↦ compare a.mark b.mark
  | Ordering.lt ↦ Ordering.lt
  | Ordering.gt ↦ Ordering.gt
]

unfoldable pub max_entry : Entry → Entry → Entry
unfolding compare_entry
max_entry a b = elim (compare_entry a b) [ Ordering.gt ↦ a | _ ↦ b ]

-- One cluster's counters.
pub record ClusterCounters : Type 0 where
  pub epoch : ℕ
  pub nodes : Map ℕ Entry

abbrev pub no_counters : ClusterCounters
no_counters = record { epoch = 0; nodes = [] }

-- `unwrap_or_default`, `or_default`
abbrev pub entry_or_default : Option Entry → Entry
entry_or_default none = default_entry
entry_or_default (some e) = e

abbrev pub counters_or_default : Option ClusterCounters → ClusterCounters
counters_or_default none = no_counters
counters_or_default (some c) = c

-- How many keys of the second map the first one lacks.
unfoldable pub count_new : Map ℕ Entry → Map ℕ Entry → ℕ
count_new mine [] = 0
count_new mine ((node, e) ∷ others) =
    let rest = count_new mine others in if contains_key mine node then rest else suc rest

-- The loop of `merge`: the larger of the two entries under each of the other's keys.
unfoldable pub merge_nodes : Map ℕ Entry → Map ℕ Entry → Map ℕ Entry
merge_nodes mine [] = mine
merge_nodes mine ((node, e) ∷ others) =
    merge_nodes (insert mine node (max_entry (entry_or_default (get mine node)) e)) others

abbrev pub node_limit : ServiceError
node_limit = counter_limit (lit "a cluster keeps counters for at most 1024 nodes")

abbrev pub cluster_limit : ServiceError
cluster_limit = counter_limit (lit "a replica keeps counters for at most 10000 clusters")

-- `ClusterCounters::merge`: the counters afterwards, which are untouched on an error.
unfoldable pub merge : ClusterCounters → ClusterCounters → Service ClusterCounters
merge mine other =
    if ltb max_counter_nodes_per_cluster (length mine.nodes + count_new mine.nodes other.nodes)
    then err node_limit
    else ok
        (record { epoch = max mine.epoch other.epoch; nodes = merge_nodes mine.nodes other.nodes })

abbrev pub CounterMap : Type 0
CounterMap = Map Str ClusterCounters

-- Puts a merged cluster back; on an error the entry that `entry(..).or_default()` made stays.
store_merged :
    CounterMap
    → Str
    → ClusterCounters
    → Service ClusterCounters
    → CounterMap × Service ClusterCounters
store_merged into path mine (ok merged) = (insert into path merged, ok merged)
store_merged into path mine (err e) = (insert into path mine, err e)

unfoldable pub merge_cluster :
    CounterMap → Str → ClusterCounters → CounterMap × Service ClusterCounters
unfolding store_merged
merge_cluster into path counters =
    if not (contains_key into path) && leb max_counter_clusters (length into)
    then (into, err cluster_limit)
    else let mine = counters_or_default (get into path) in
      store_merged into path mine (merge mine counters)

-- The loop of `merge_map` ends at the first error, and keeps what it had merged.
unfoldable pub merge_map : CounterMap → CounterMap → CounterMap × Service (Unit {0})
merge_map into [] = (into, ok tt)
merge_map into ((path, counters) ∷ from) =
    let rest = merge_map (merge_cluster into path counters).0 from in
    elim (merge_cluster into path counters).1 [
      | ok _ ↦ rest
      | err e ↦ ((merge_cluster into path counters).0, err e)
    ]

-- The HKDF info of a node's rollback session key.
unfoldable pub session_key_info : Crypto → Str → ℕ → Bytes → Str
session_key_info c key_path node_id session_id =
    key_path ++ (0x0a ∷ show_nat node_id ++ 0x0a ∷ c.hex_encode session_id)
