-- ===== src/Counters/Ready.antt =====
-- mero-kms/src/counters.rs, `Counters::read`: the answers of ready replicas among those of a round,
-- and what merging them keeps.
use mero_tee.Prelude.{
  suc, ◌≡◌, refl, ap, false, List, [], ◌∷◌, length, arith, inl, inr, Bool-cases, Option-cases, All,
  map, filter,
}
use mero_tee.Text.{Str, Bytes}
use mero_tee.Errors.{ok, Result-cases, ok-injective}
use mero_tee.Map.{get}
use mero_tee.Map.Order.{list_ord, nat_ord}
use mero_tee.Counters.{ClusterCounters, merge, no_counters}
use mero_tee.Counters.Replica.{Answer, Signed}
use mero_tee.Counters.Ops.{merge_answers, ready_answers}
use mero_tee.Counters.Merge.{join}
use mero_tee.Counters.Growth.{Covers, Covers-refl, Covers-trans, held, merge-Covers}
use mero_tee.Counters.Answers.{ids_of}
use mero_tee.Counters.Quorum.{mem, Distinct}

pub Covers-none : (c : ClusterCounters) → Covers c no_counters
Covers-none c = record { epoch = omega arith; nodes = λ n. unfold get join in refl }

-- Merging the answers keeps the view that was there, and takes in every answer.
pub merge_answers-Covers :
    (path : Str) (view : ClusterCounters) (answers : List Answer) (merged : ClusterCounters)
    → merge_answers path view answers ≡ ok merged
    → Covers merged view × All (λ a. Covers merged (held a.counters path)) answers
unfolding merge_answers
merge_answers-Covers path view [] merged h = (rw (ok-injective h) (Covers-refl merged), tt)
merge_answers-Covers path view (a ∷ answers) merged h = elim (Option-cases (get a.counters path)) [
  | inl missing ↦
      let (kept, took) = merge_answers-Covers path view answers merged (ground arith) in
      (kept, (rw missing (Covers-none merged), took))
  | inr (theirs, found) ↦ elim (Result-cases (merge view theirs)) [
    | inl (v, done) ↦
        let (kept, took) = merge_answers-Covers path v answers merged (ground arith) in
        let (mine, other) = merge-Covers view theirs v done in
        (
          Covers-trans merged v view kept mine,
          (rw found (Covers-trans merged v theirs kept other), took),
        )
    | inr (e, failed) ↦ absurd (ground arith)
  ]
]

abbrev pub ready_tagged : List (Bytes × Answer) → List (Bytes × Answer)
ready_tagged = filter (λ p. p.1.ready)

pub ready_answers-map :
    (ps : List (Bytes × Answer))
    → ready_answers (map (λ p. p.1) ps) ≡ map (λ p. p.1) (ready_tagged ps)
unfolding ready_answers
ready_answers-map [] = refl
ready_answers-map (p ∷ ps) = ground (arith, ready_answers-map ps)

pub All-ready :
    (P : Bytes × Answer → Type 0) (ps : List (Bytes × Answer)) → All P ps → All P (ready_tagged ps)
All-ready P [] h = tt
All-ready P (p ∷ ps) h = elim (Bool-cases p.1.ready) [
  | inl yes_ready ↦ rw (yes_ready, filter) (h.0, All-ready P ps h.1)
  | inr not_ready ↦ rw (not_ready, filter) (All-ready P ps h.1)
]

pub mem-ready :
    (id : Bytes) (ps : List (Bytes × Answer))
    → mem id (ids_of ps) ≡ false
    → mem id (ids_of (ready_tagged ps)) ≡ false
mem-ready id [] h = h
mem-ready id (p ∷ ps) h = ground (arith, mem-ready id ps)

pub Distinct-ready :
    (ps : List (Bytes × Answer)) → Distinct (ids_of ps) → Distinct (ids_of (ready_tagged ps))
Distinct-ready [] h = tt
Distinct-ready (p ∷ ps) h = elim (Bool-cases p.1.ready) [
  | inl yes_ready ↦ rw (yes_ready, filter) (mem-ready p.0 ps h.0, Distinct-ready ps h.1)
  | inr not_ready ↦ rw (not_ready, filter) (Distinct-ready ps h.1)
]

pub All-ids :
    (P : Bytes → Type 0) (ps : List (Bytes × Answer)) → All (λ p. P p.0) ps → All P (ids_of ps)
All-ids P [] h = tt
All-ids P (p ∷ ps) h = (h.0, All-ids P ps h.1)

pub All-answers :
    (P : Answer → Type 0) (ps : List (Bytes × Answer))
    → All P (map (λ p. p.1) ps)
    → All (λ p. P p.1) ps
All-answers P [] h = tt
All-answers P (p ∷ ps) h = (h.0, All-answers P ps h.1)

pub length-ids : (ps : List (Bytes × Answer)) → length (ids_of ps) ≡ length ps
length-ids [] = refl
length-ids (p ∷ ps) = ap suc (length-ids ps)

pub length-answers : (ps : List (Bytes × Answer)) → length (map (λ p. p.1) ps) ≡ length ps
length-answers [] = refl
length-answers (p ∷ ps) = ap suc (length-answers ps)

pub All-map2 :
    (P Q R : Bytes × Answer → Type 0) (ps : List (Bytes × Answer))
    → ((p : Bytes × Answer) → P p → Q p → R p)
    → All P ps
    → All Q ps
    → All R ps
All-map2 P Q R [] f h k = tt
All-map2 P Q R (p ∷ ps) f h k = (f p h.0 k.0, All-map2 P Q R ps f h.1 k.1)

pub All-mono :
    (P Q : Signed → Type 0) (rs : List Signed) → ((r : Signed) → P r → Q r) → All P rs → All Q rs
All-mono P Q [] f h = tt
All-mono P Q (r ∷ rs) f h = (f r h.0, All-mono P Q rs f h.1)
