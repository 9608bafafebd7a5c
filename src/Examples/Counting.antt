-- ===== src/Examples/Counting.antt =====
-- The counters at concrete inputs: a cluster of one replica, and the merge of two views.
use mero_tee.Prelude.{some, ℕ, ◌≡◌, refl, true, none, [], ◌∷◌, arith, max}
use mero_tee.Text.{Str, Bytes}
use mero_tee.Errors.{ok, err, ◌>>=◌}
use mero_tee.Map.{get}
use mero_tee.Map.Order.{nat_ord, list_ord}
use mero_tee.Examples.{toy, toy_codec, toy_mac, toy_backend, toy_root}
use mero_tee.Backend.{counters_key, derive_salted, counters_key_salt, with_root}
use mero_tee.Counters.{Entry, ClusterCounters, CounterMap, merge}
use mero_tee.Counters.Merge.{IsView, merge_comm, merge_assoc, merge_self, merge-IsView, join}
use mero_tee.Counters.Replica
use mero_tee.Counters.Replica.{Counters, CounterJson, Net, Inner, Signed, answer_merge}
use mero_tee.Counters.Ops.{write, read, raise_entry}
use mero_tee.Counters.Growth.{Covers, Grows-refl}
use mero_tee.Counters.Steps.{IsQuiet}
use mero_tee.Counters.Answers.{JsonLaws}
use mero_tee.Counters.Acknowledged.{read_meets_write}
use mero_tee.Counters.Taken.{raise_entry-raises}

abbrev json : CounterJson
json = record {
  read_to = λ b. err [];
  read_from = λ t. err [];
  merge_to = λ b. err [];
  merge_from = λ t. err [];
  answer_to = λ b. err [];
  answer_from = λ t. err [];
  signed_from = λ b. none;
}

json_laws : JsonLaws json
json_laws = record { read = λ b t h. cc; merge = λ b t h. cc; answer = λ b t h. cc }

abbrev silent : Net
silent = record { ask = λ url m. none; meanwhile = λ i. i }

quiet : IsQuiet silent
quiet = record { at = λ i. Grows-refl i.map }

abbrev one : ClusterCounters
one = record { epoch = 1; nodes = (4, record { generation = 1; mark = 7 }) ∷ [] }

abbrev two : ClusterCounters
two = record {
  epoch = 0;
  nodes = (3, record { generation = 0; mark = 9 }) ∷ (4, record { generation = 0; mark = 8 }) ∷ [];
}

abbrev three : ClusterCounters
three = record { epoch = 2; nodes = [] }

merge_comm_example : merge one two ≡ merge two one
merge_comm_example = merge_comm one two (tt, tt) ((refl, tt), (tt, tt))

merge_assoc_example :
    (merge one two >>= λ x. merge x three) ≡ (merge two three >>= λ x. merge one x)
merge_assoc_example = merge_assoc one two three (tt, tt) ((refl, tt), (tt, tt)) tt

one-IsView : IsView one
one-IsView = record { sorted = (tt, tt); bounded = omega arith }

abbrev path : Str
path = b'p' ∷ []

abbrev own : Bytes
own = b'r' ∷ []

abbrev replica : Counters
replica = record {
  replica_id = own;
  replicas = 1;
  peers = [];
  inner = record { map = []; ready = true; formed = true; genesis_until = none };
}

abbrev written : Counters
written = record {
  replica_id = own;
  replicas = 1;
  peers = [];
  inner = record { map = (path, one) ∷ []; ready = true; formed = true; genesis_until = none };
}

writes : write toy json toy_backend silent silent [] [] path one replica ≡ (written, ok one)
unfolding write Replica.require_ready Replica.merge_own mero_tee.Counters.merge_cluster get
    mero_tee.Map.contains_key merge mero_tee.Counters.count_new mero_tee.Counters.merge_nodes
    mero_tee.Map.insert mero_tee.Counters.max_entry mero_tee.Counters.compare_entry
writes = refl

reads : read toy json toy_backend silent [] path written ≡ (written, ok one)
unfolding read Replica.require_ready get
reads = refl

abbrev key : Bytes
key = derive_salted toy toy_root counters_key_salt (mero_tee.Text.lit "counters")

keyed : counters_key toy toy_backend ≡ ok key
unfolding counters_key with_root
keyed = refl

read_meets_write_example : Covers one one
unfolding Replica.sign
read_meets_write_example =
    read_meets_write toy json toy_backend key toy_codec toy_mac json_laws keyed (own ∷ []) 1
      (λ id. written.inner.map) silent silent silent [] [] [] path one one one replica written
      written written (omega arith) refl refl refl refl quiet quiet (λ peers signed h. absurd cc)
      (λ peers formed signed h. absurd cc) writes (Grows-refl written.inner.map)
      (Grows-refl written.inner.map) reads

merge_self_once : merge one one ≡ ok one
merge_self_once = merge_self one one-IsView

merge-IsView_example :
    IsView one
    × ((n : ℕ) → get one.nodes n ≡ join (get one.nodes n) (get one.nodes n))
    × (one.epoch ≡ max one.epoch one.epoch)
merge-IsView_example = merge-IsView one one one-IsView (tt, tt) merge_self_once

abbrev asked : Entry
asked = record { generation = 1; mark = 7 }

abbrev raised : ClusterCounters
raised = record { epoch = 0; nodes = (4, asked) ∷ [] }

abbrev after_raise : Counters
after_raise = record {
  replica_id = own;
  replicas = 1;
  peers = [];
  inner = record { map = (path, raised) ∷ []; ready = true; formed = true; genesis_until = none };
}

raises :
    raise_entry toy json toy_backend silent silent [] [] path 4 asked replica
    ≡ (after_raise, ok raised)
unfolding raise_entry write Replica.require_ready Replica.merge_own mero_tee.Counters.merge_cluster
    get mero_tee.Map.contains_key merge mero_tee.Counters.count_new mero_tee.Counters.merge_nodes
    mero_tee.Map.insert mero_tee.Counters.max_entry mero_tee.Counters.compare_entry
raises = refl

raise_entry-raises_example : join (get raised.nodes 4) (some asked) ≡ get raised.nodes 4
raise_entry-raises_example =
    raise_entry-raises toy json toy_backend silent silent [] [] path 4 asked raised replica
      after_raise raises
