-- ===== src/Counters/Merge.antt =====
-- mero-kms/src/counters.rs, `ClusterCounters::merge`: what a merge holds, and that the order and
-- the grouping of merges do not matter, the node limit included.
use mero_tee.Prelude.{
  ℕ, ◌+◌, ◌≤◌, ◌≡◌, ◌≢◌, refl, ap, sym, ◌∙◌, inl, inr, Option, none, some, [], ◌∷◌, max, length,
  Bool-cases, arith, ltb, ◌==◌, ==_iff, if◌then◌else◌,
}
use mero_tee.Errors.{ok, err, ◌>>=◌}
use mero_tee.Map.{Map, get, contains_key, insert}
use mero_tee.Map.Order.{nat_ord, ne_of_lt}
use mero_tee.Map.Laws.{
  IsSorted, Above, get-insert_self, get-insert_ne, insert-IsSorted, get_of_Above, map_ext,
  length-insert_of_mem, length-insert_of_new, contains_key-insert_ne,
}
use mero_tee.Counters.{
  Entry, default_entry, max_entry, ClusterCounters, entry_or_default, count_new, merge_nodes, merge,
  max_counter_nodes_per_cluster, node_limit,
}

max_entry_comm : (a b : Entry) → max_entry a b ≡ max_entry b a
unfolding max_entry
max_entry_comm a b = ground arith

max_entry_assoc : (a b c : Entry) → max_entry (max_entry a b) c ≡ max_entry a (max_entry b c)
unfolding max_entry
max_entry_assoc a b c = ground arith

max_entry_self : (a : Entry) → max_entry a a ≡ a
unfolding max_entry
max_entry_self a = ground arith

max_entry_default : (a : Entry) → max_entry default_entry a ≡ a
unfolding max_entry
max_entry_default a = ground arith

-- The two entries that a merge may find under one node.
unfoldable pub join : Option Entry → Option Entry → Option Entry
join a none = a
join none (some e) = some e
join (some a) (some e) = some (max_entry a e)

pub join_comm : (a b : Option Entry) → join a b ≡ join b a
unfolding join
join_comm none none = refl
join_comm none (some b) = refl
join_comm (some a) none = refl
join_comm (some a) (some b) = ap some (max_entry_comm a b)

pub join_assoc : (a b c : Option Entry) → join (join a b) c ≡ join a (join b c)
unfolding join
join_assoc a b none = refl
join_assoc a none (some c) = refl
join_assoc none (some b) (some c) = refl
join_assoc (some a) (some b) (some c) = ap some (max_entry_assoc a b c)

pub join_self : (a : Option Entry) → join a a ≡ a
unfolding join
join_self none = refl
join_self (some a) = ap some (max_entry_self a)

pub join_stored :
    (o : Option Entry) (e : Entry) → some (max_entry (entry_or_default o) e) ≡ join o (some e)
unfolding join
join_stored none e = ap some (max_entry_default e)
join_stored (some a) e = refl

pub get_cons_self : (o : Map ℕ Entry) (k : ℕ) (e : Entry) → get ((k, e) ∷ o) k ≡ some e
unfolding get
get_cons_self o k e = ground (arith, nat_ord.eq_refl k)

pub get_cons_ne : (o : Map ℕ Entry) (k n : ℕ) (e : Entry) → n ≢ k → get ((k, e) ∷ o) n ≡ get o n
unfolding get
get_cons_ne o k n e h = ground (arith, nat_ord.eq_sound n k)

-- What is stored under a node after a merge.
pub get-merge_nodes :
    (m o : Map ℕ Entry) (n : ℕ) → IsSorted o → get (merge_nodes m o) n ≡ join (get m n) (get o n)
unfolding merge_nodes
get-merge_nodes m [] n s = unfold join get in refl
get-merge_nodes m ((k, e) ∷ o) n s =
    let v : Entry = max_entry (entry_or_default (get m k)) e in
    elim (Bool-cases (n == k)) [
      | inl same ↦ rw ((==_iff n k).0 same) (
          get-merge_nodes (insert m k v) o k s.1
          ∙ (simp (get-insert_self, get_of_Above o k s.0, get_cons_self, ← join_stored)
              (unfold join in refl)))
      | inr other ↦
          let h : n ≢ k = ground arith in
          get-merge_nodes (insert m k v) o n s.1
          ∙ (rw (get-insert_ne m k n v h, get_cons_ne o k n e h))
    ]

merge_nodes-IsSorted : (m o : Map ℕ Entry) → IsSorted m → IsSorted (merge_nodes m o)
unfolding merge_nodes
merge_nodes-IsSorted m [] s = s
merge_nodes-IsSorted m ((k, e) ∷ o) s =
    merge_nodes-IsSorted (insert m k (max_entry (entry_or_default (get m k)) e)) o
      (insert-IsSorted m k (max_entry (entry_or_default (get m k)) e) s)

count_new-insert :
    (m o : Map ℕ Entry) (k : ℕ) (v : Entry) → Above k o → count_new (insert m k v) o ≡ count_new m o
unfolding count_new
count_new-insert m [] k v s = refl
count_new-insert m ((j, e) ∷ o) k v s =
    rw
      (contains_key-insert_ne m k j v (λ e. ne_of_lt k j s.0 (sym e)), count_new-insert m o k v s.1)

length-merge_nodes :
    (m o : Map ℕ Entry)
    → IsSorted m
    → IsSorted o
    → length (merge_nodes m o) ≡ length m + count_new m o
unfolding merge_nodes count_new
length-merge_nodes m [] s t = omega arith
length-merge_nodes m ((k, e) ∷ o) s t =
    let v : Entry = max_entry (entry_or_default (get m k)) e in
    let step : length (merge_nodes (insert m k v) o) ≡ length (insert m k v) + count_new m o =
      length-merge_nodes (insert m k v) o (insert-IsSorted m k v s) t.1
      ∙ ap (λ c. length (insert m k v) + c) (count_new-insert m o k v t.0) in
    elim (Bool-cases (contains_key m k)) [
      | inl old ↦ rw old (omega (arith, step, length-insert_of_mem m k v s old))
      | inr new ↦ rw new (omega (arith, step, length-insert_of_new m k v new))
    ]

merge_nodes_comm : (m o : Map ℕ Entry) → IsSorted m → IsSorted o → merge_nodes m o ≡ merge_nodes o m
merge_nodes_comm m o s t =
    map_ext (merge_nodes m o) (merge_nodes o m) (merge_nodes-IsSorted m o s)
      (merge_nodes-IsSorted o m t)
      (λ n. get-merge_nodes m o n t ∙ join_comm (get m n) (get o n) ∙ sym (get-merge_nodes o m n s))

merge_nodes_assoc :
    (a b c : Map ℕ Entry)
    → IsSorted a
    → IsSorted b
    → IsSorted c
    → merge_nodes (merge_nodes a b) c ≡ merge_nodes a (merge_nodes b c)
merge_nodes_assoc a b c s t u =
    map_ext (merge_nodes (merge_nodes a b) c) (merge_nodes a (merge_nodes b c))
      (merge_nodes-IsSorted (merge_nodes a b) c (merge_nodes-IsSorted a b s))
      (merge_nodes-IsSorted a (merge_nodes b c) s)
      (λ n. simp (get-merge_nodes, t, u, merge_nodes-IsSorted b c t, join_assoc))

length-le-merge_nodes :
    (m o : Map ℕ Entry) → IsSorted m → IsSorted o → length m ≤ length (merge_nodes m o)
length-le-merge_nodes m o s t = omega (arith, length-merge_nodes m o s t)

length-le-merge_nodes_right :
    (m o : Map ℕ Entry) → IsSorted m → IsSorted o → length o ≤ length (merge_nodes m o)
length-le-merge_nodes_right m o s t = rw (merge_nodes_comm m o s t) (length-le-merge_nodes o m t s)

max_assoc : (a b c : ℕ) → max (max a b) c ≡ max a (max b c)
max_assoc a b c = omega arith

-- A view as a replica holds one: a map, within the node limit.
pub record IsView (c : ClusterCounters) : Type 0 where
  pub sorted : IsSorted c.nodes
  pub bounded : length c.nodes ≤ max_counter_nodes_per_cluster

-- The limit is one on the size of the result.
pub merge_by_size :
    (a b : ClusterCounters)
    → IsSorted a.nodes
    → IsSorted b.nodes
    → merge a b ≡ (
        if ltb max_counter_nodes_per_cluster (length (merge_nodes a.nodes b.nodes))
        then err node_limit
        else ok (record { epoch = max a.epoch b.epoch; nodes = merge_nodes a.nodes b.nodes }))
unfolding merge
merge_by_size a b s t = rw (length-merge_nodes a.nodes b.nodes s t)

-- Merging views with their nodes in key order is commutative: in the counters that result, and in
-- when the node limit refuses it.
pub merge_comm :
    (a b : ClusterCounters) → IsSorted a.nodes → IsSorted b.nodes → merge a b ≡ merge b a
merge_comm a b s t =
    simp (merge_by_size, s, t, merge_nodes_comm a.nodes b.nodes s t) (ground (arith))

pub merge_ok_size :
    (a b c : ClusterCounters)
    → merge a b ≡ ok c
    → (c.nodes ≡ merge_nodes a.nodes b.nodes) × (c.epoch ≡ max a.epoch b.epoch)
unfolding merge
merge_ok_size a b c h = ground arith

-- What merges into a view is a view again, in key order and within the node limit; it holds under
-- every node the larger of the two entries, and the larger of the two epochs.
pub merge-IsView :
    (a b : ClusterCounters) {c : ClusterCounters}
    → IsView a
    → IsSorted b.nodes
    → merge a b ≡ ok c
    → IsView c
      × ((n : ℕ) → get c.nodes n ≡ join (get a.nodes n) (get b.nodes n))
      × (c.epoch ≡ max a.epoch b.epoch)
merge-IsView a b {c} v t h =
    let (nodes, epoch) = merge_ok_size a b c h in
    let bounded : length c.nodes ≤ max_counter_nodes_per_cluster =
      rw nodes (ground (arith, sym h ∙ merge_by_size a b v.sorted t)) in
    (
      record {
        sorted = rw nodes (merge_nodes-IsSorted a.nodes b.nodes v.sorted);
        bounded = bounded;
      },
      (λ n. rw nodes (get-merge_nodes a.nodes b.nodes n t)),
      epoch,
    )

-- Merging views with their nodes in key order is associative, the node limit included: three
-- views merge to the same counters, or are refused with the same error, in either grouping.
pub merge_assoc :
    (a b c : ClusterCounters)
    → IsSorted a.nodes
    → IsSorted b.nodes
    → IsSorted c.nodes
    → (merge a b >>= λ x. merge x c) ≡ (merge b c >>= λ x. merge a x)
merge_assoc a b c s t u =
    let ab = merge_nodes-IsSorted a.nodes b.nodes s in
    let bc = merge_nodes-IsSorted b.nodes c.nodes t in
    let left : ClusterCounters = record {
      epoch = max a.epoch b.epoch;
      nodes = merge_nodes a.nodes b.nodes;
    } in
    let right : ClusterCounters = record {
      epoch = max b.epoch c.epoch;
      nodes = merge_nodes b.nodes c.nodes;
    } in
    simp (merge_by_size a b, merge_by_size b c, s, t, u)
      (ground (
        arith,
        merge_by_size left c ab u,
        merge_by_size a right s bc,
        merge_nodes_assoc a.nodes b.nodes c.nodes s t u,
        max_assoc a.epoch b.epoch c.epoch,
        length-le-merge_nodes (merge_nodes a.nodes b.nodes) c.nodes ab u,
        length-le-merge_nodes_right a.nodes (merge_nodes b.nodes c.nodes) s bc,
      ))

-- Merging a view, in key order and within the node limit, with itself changes nothing.
pub merge_self : (a : ClusterCounters) → IsView a → merge a a ≡ ok a
merge_self a v =
    let same : merge_nodes a.nodes a.nodes ≡ a.nodes =
      map_ext (merge_nodes a.nodes a.nodes) a.nodes (merge_nodes-IsSorted a.nodes a.nodes v.sorted)
        v.sorted (λ n. get-merge_nodes a.nodes a.nodes n v.sorted ∙ join_self (get a.nodes n)) in
    simp (merge_by_size a a, v.sorted, same) (ground (arith, v.bounded))
