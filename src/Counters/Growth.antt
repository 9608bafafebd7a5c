-- ===== src/Counters/Growth.antt =====
-- mero-kms/src/counters.rs: no operation of a replica ever lowers a counter that it holds.
use mero_tee.Prelude.{
  ℕ, ◌≤◌, ◌≡◌, refl, ap, sym, ◌∙◌, inl, inr, Option, some, List, [], ◌∷◌, not, ◌&&◌, leb, length,
  Bool-cases, arith, ◌==◌, ==_iff, list_eq, list_eq_iff,
}
use mero_tee.Text.{Str}
use mero_tee.Errors.{Service, ok, err, Result-cases}
use mero_tee.Map.{Map, get, contains_key, insert}
use mero_tee.Map.Order.{nat_ord, list_ord}
use mero_tee.Map.Laws.{get-insert_self, get-insert_ne}
use mero_tee.Counters.{
  Entry, ClusterCounters, CounterMap, counters_or_default, entry_or_default, max_entry, merge_nodes,
  merge, merge_cluster, merge_map, store_merged, max_counter_clusters,
}
use mero_tee.Counters.Replica.{Answer}
use mero_tee.Counters.Ops.{merge_all}
use mero_tee.Counters.Merge.{
  join, join_comm, join_assoc, join_self, join_stored, merge_ok_size, get_cons_self, get_cons_ne,
}

-- The second entry adds nothing to the first.
abbrev pub Below : Option Entry → Option Entry → Type 0
Below small big = join big small ≡ big

Below-refl : (a : Option Entry) → Below a a
Below-refl a = join_self a

Below-trans : (a b c : Option Entry) → Below a b → Below b c → Below a c
Below-trans a b c h k = cc (join_assoc c b a)

Below-join : (a b : Option Entry) → Below a (join a b)
Below-join a b = join_comm (join a b) a ∙ sym (join_assoc a a b) ∙ ap (λ x. join x b) (join_self a)

Below-join_right : (a b : Option Entry) → Below b (join a b)
Below-join_right a b = join_assoc a b b ∙ ap (join a) (join_self b)

-- One view has whatever another has: no smaller epoch, and under no node a smaller entry.
pub record Covers (big small : ClusterCounters) : Type 0 where
  pub epoch : small.epoch ≤ big.epoch
  pub nodes : (n : ℕ) → Below (get small.nodes n) (get big.nodes n)

pub Covers-refl : (a : ClusterCounters) → Covers a a
Covers-refl a = record { epoch = omega arith; nodes = λ n. Below-refl (get a.nodes n) }

pub Covers-trans : (a b c : ClusterCounters) → Covers a b → Covers b c → Covers a c
Covers-trans a b c h k = record {
  epoch = omega arith;
  nodes = λ n. Below-trans (get c.nodes n) (get b.nodes n) (get a.nodes n) (k.nodes n) (h.nodes n);
}

insert-Below :
    (m : Map ℕ Entry) (k n : ℕ) (e : Entry)
    → Below (get m n) (get (insert m k (max_entry (entry_or_default (get m k)) e)) n)
insert-Below m k n e = elim (Bool-cases (n == k)) [
  | inl same ↦ rw ((==_iff n k).0 same) (
      rw (get-insert_self m k (max_entry (entry_or_default (get m k)) e), join_stored (get m k) e)
        (Below-join (get m k) (some e)))
  | inr other ↦
      rw (get-insert_ne m k n (max_entry (entry_or_default (get m k)) e) (ground arith))
        (Below-refl (get m n))
]

merge_nodes-Below : (m o : Map ℕ Entry) (n : ℕ) → Below (get m n) (get (merge_nodes m o) n)
unfolding merge_nodes
merge_nodes-Below m [] n = Below-refl (get m n)
merge_nodes-Below m ((k, e) ∷ o) n =
    let stored = insert m k (max_entry (entry_or_default (get m k)) e) in
    Below-trans (get m n) (get stored n) (get (merge_nodes stored o) n) (insert-Below m k n e)
      (merge_nodes-Below stored o n)

merge_nodes-Below_other : (m o : Map ℕ Entry) (n : ℕ) → Below (get o n) (get (merge_nodes m o) n)
unfolding merge_nodes
merge_nodes-Below_other m [] n = unfold join get in refl
merge_nodes-Below_other m ((k, e) ∷ o) n =
    let v = max_entry (entry_or_default (get m k)) e in
    elim (Bool-cases (n == k)) [
      | inl same ↦
          rw ((==_iff n k).0 same, get_cons_self o k e)
            (Below-trans (some e) (get (insert m k v) k) (get (merge_nodes (insert m k v) o) k)
              (rw (get-insert_self m k v, join_stored (get m k) e)
                (Below-join_right (get m k) (some e)))
              (merge_nodes-Below (insert m k v) o k))
      | inr other ↦
          rw (get_cons_ne o k n e (ground arith)) (merge_nodes-Below_other (insert m k v) o n)
    ]

-- A merge has whatever either side has.
pub merge-Covers : (a b c : ClusterCounters) → merge a b ≡ ok c → Covers c a × Covers c b
merge-Covers a b c h =
    let (nodes, epoch) = merge_ok_size a b c h in
    (
      record { epoch = omega arith; nodes = λ n. rw nodes (merge_nodes-Below a.nodes b.nodes n) },
      record {
        epoch = omega arith;
        nodes = λ n. rw nodes (merge_nodes-Below_other a.nodes b.nodes n);
      },
    )

-- What a map holds for a cluster.
abbrev pub held : CounterMap → Str → ClusterCounters
held m path = counters_or_default (get m path)

-- The later map has, for every cluster, whatever the earlier one had.
pub record Grows (m m' : CounterMap) : Type 0 where
  pub at : (path : Str) → Covers (held m' path) (held m path)

pub Grows-refl : (m : CounterMap) → Grows m m
Grows-refl m = record { at = λ path. Covers-refl (held m path) }

pub Grows-trans : (a b c : CounterMap) → Grows a b → Grows b c → Grows a c
Grows-trans a b c h k = record {
  at = λ path. Covers-trans (held c path) (held b path) (held a path) (k.at path) (h.at path);
}

Grows-insert :
    (m : CounterMap) (path : Str) (v : ClusterCounters)
    → Covers v (held m path)
    → Grows m (insert m path v)
Grows-insert m path v h = record {
  at = λ q. elim (Bool-cases (list_eq q path)) [
    | inl same ↦ rw ((list_eq_iff q path).0 same, get-insert_self m path v) h
    | inr other ↦
        rw (get-insert_ne m path q v (λ e. ground (arith, (list_eq_iff q path).1 e)))
          (Covers-refl (held m q))
  ];
}

store-Grows :
    (m : CounterMap) (path : Str) (c : ClusterCounters) (r : Service ClusterCounters)
    → merge (held m path) c ≡ r
    → Grows m (store_merged m path (held m path) r).0
unfolding store_merged
store-Grows m path c (ok v) h = Grows-insert m path v (merge-Covers (held m path) c v h).0
store-Grows m path c (err e) h = Grows-insert m path (held m path) (Covers-refl (held m path))

pub merge_cluster-Grows :
    (m : CounterMap) (path : Str) (c : ClusterCounters) → Grows m (merge_cluster m path c).0
unfolding merge_cluster
merge_cluster-Grows m path c =
    elim (Bool-cases (not (contains_key m path) && leb max_counter_clusters (length m))) [
      | inl full ↦ rw full (Grows-refl m)
      | inr room ↦ rw room (store-Grows m path c (merge (held m path) c) refl)
    ]

stored_merge :
    (m : CounterMap) (path : Str) (c r : ClusterCounters) (merged : Service ClusterCounters)
    → merge (held m path) c ≡ merged
    → (store_merged m path (held m path) merged).1 ≡ ok r
    → (held (store_merged m path (held m path) merged).0 path ≡ r)
      × Covers r c
      × Covers r (held m path)
unfolding store_merged
stored_merge m path c r (ok v) e h =
    let (mine, theirs) = merge-Covers (held m path) c r (e ∙ h) in
    (ap counters_or_default (get-insert_self m path v) ∙ cc, theirs, mine)
stored_merge m path c r (err x) e h = cc

-- A cluster that was merged is held, with what was written and what was held before.
pub held-merge_cluster :
    (m : CounterMap) (path : Str) (c r : ClusterCounters)
    → (merge_cluster m path c).1 ≡ ok r
    → (held (merge_cluster m path c).0 path ≡ r) × Covers r c × Covers r (held m path)
unfolding merge_cluster
held-merge_cluster m path c r =
    elim (Bool-cases (not (contains_key m path) && leb max_counter_clusters (length m))) [
      | inl full ↦ rw full (λ h. cc)
      | inr room ↦ rw room (λ h. stored_merge m path c r (merge (held m path) c) refl h)
    ]

pub merge_map-Grows : (m from : CounterMap) → Grows m (merge_map m from).0
unfolding merge_map
merge_map-Grows m [] = Grows-refl m
merge_map-Grows m ((path, c) ∷ from) =
    let first = merge_cluster-Grows m path c in
    elim (Result-cases (merge_cluster m path c).1) [
      | inl (r, done) ↦
          rw (done, merge_map)
            (Grows-trans m (merge_cluster m path c).0 (merge_map (merge_cluster m path c).0 from).0
              first (merge_map-Grows (merge_cluster m path c).0 from))
      | inr (e, failed) ↦ rw (failed, merge_map) first
    ]

pub merge_all-Grows : (m : CounterMap) (answers : List Answer) → Grows m (merge_all m answers).0
unfolding merge_all
merge_all-Grows m [] = Grows-refl m
merge_all-Grows m (a ∷ answers) =
    let first = merge_map-Grows m a.counters in
    elim (Result-cases (merge_map m a.counters).1) [
      | inl (r, done) ↦
          rw (done, merge_all)
            (Grows-trans m (merge_map m a.counters).0
              (merge_all (merge_map m a.counters).0 answers).0 first
              (merge_all-Grows (merge_map m a.counters).0 answers))
      | inr (e, failed) ↦ rw (failed, merge_all) first
    ]
