-- ===== src/Counters/Quorum.antt =====
-- mero-kms/src/counters.rs: two majorities of one set of replicas have a replica in common.
use mero_tee.Prelude.{
  ℕ, suc, ◌+◌, ◌/◌, ◌≤◌, ◌≡◌, refl, ap, inl, inr, Bool, true, false, ◌||◌, List, [], ◌∷◌, ◌++◌,
  length, any, All, list_eq, list_eq_iff, list_eq_refl, Bool-cases, arith, length-append, subst,
  sym, false≢true, ◌∙◌,
}
use mero_tee.Text.{Bytes}

abbrev pub mem : Bytes → List Bytes → Bool
mem id ids = any (list_eq id) ids

-- No replica id twice.
abbrev pub Distinct : List Bytes → Type 0
Distinct [] = Unit {0}
Distinct (id ∷ ids) = (mem id ids ≡ false) × Distinct ids

abbrev pub Within : List Bytes → List Bytes → Type 0
Within members ids = All (λ id. mem id members ≡ true) ids

without : Bytes → List Bytes → List Bytes
without id [] = []
without id (m ∷ ms) = elim (list_eq id m) [ true ↦ ms | false ↦ m ∷ without id ms ]

length-without :
    (id : Bytes) (ms : List Bytes) → mem id ms ≡ true → length ms ≡ suc (length (without id ms))
unfolding without
length-without id [] h = ground arith
length-without id (m ∷ ms) h = elim (Bool-cases (list_eq id m)) [
  | inl here ↦ rw (here, without)
  | inr there ↦ rw (there, without) (ap suc (length-without id ms (ground arith)))
]

mem-without :
    (id x : Bytes) (ms : List Bytes)
    → list_eq x id ≡ false
    → mem x ms ≡ true
    → mem x (without id ms) ≡ true
unfolding without
mem-without id x [] h k = k
mem-without id x (m ∷ ms) h k = elim (Bool-cases (list_eq id m)) [
  | inl here ↦
      rw (here, without)
        (let e : list_eq x m ≡ false =
            subst (λ y. list_eq x y ≡ false) ((list_eq_iff id m).0 here) h in
          ground arith)
  | inr there ↦ rw (there, without) (ground (arith, mem-without id x ms h))
]

pub list_eq_comm_false : (x y : Bytes) → list_eq x y ≡ false → list_eq y x ≡ false
list_eq_comm_false x y h = elim (Bool-cases (list_eq y x)) [
  | inl same ↦ absurd (false≢true (sym h ∙ (list_eq_iff x y).1 (sym ((list_eq_iff y x).0 same))))
  | inr other ↦ other
]

Within-without :
    (id : Bytes) (ms ids : List Bytes)
    → mem id ids ≡ false
    → Within ms ids
    → Within (without id ms) ids
Within-without id ms [] h w = tt
Within-without id ms (x ∷ ids) h w = (
  mem-without id x ms (list_eq_comm_false id x (ground arith)) w.0,
  Within-without id ms ids (ground arith) w.1,
)

-- There are no more distinct ids than there are members.
length-Distinct-le : (ids ms : List Bytes) → Distinct ids → Within ms ids → length ids ≤ length ms
length-Distinct-le [] ms d w = omega arith
length-Distinct-le (id ∷ ids) ms d w = omega (
  arith,
  length-without id ms w.0,
  length-Distinct-le ids (without id ms) d.1 (Within-without id ms ids d.0 w.1),
)

mem-append : (id : Bytes) (xs ys : List Bytes) → mem id (xs ++ ys) ≡ (mem id xs || mem id ys)
mem-append id [] ys = refl
mem-append id (x ∷ xs) ys = ground (arith, mem-append id xs ys)

Within-append : (ms xs ys : List Bytes) → Within ms xs → Within ms ys → Within ms (xs ++ ys)
Within-append ms [] ys h k = k
Within-append ms (x ∷ xs) ys h k = (h.0, Within-append ms xs ys h.1 k)

Distinct-append :
    (xs ys : List Bytes)
    → Distinct xs
    → Distinct ys
    → any (λ x. mem x ys) xs ≡ false
    → Distinct (xs ++ ys)
Distinct-append [] ys d e h = e
Distinct-append (x ∷ xs) ys d e h =
    (mem-append x xs ys ∙ (ground arith), Distinct-append xs ys d.1 e (ground arith))

common :
    (xs ys : List Bytes)
    → any (λ x. mem x ys) xs ≡ true
    → (id : Bytes) × (mem id xs ≡ true) × (mem id ys ≡ true)
common [] ys h = absurd (false≢true h)
common (x ∷ xs) ys h = elim (Bool-cases (mem x ys)) [
  | inl here ↦ (x, ground (arith, list_eq_refl x), here)
  | inr there ↦ let (id, in_xs, in_ys) = common xs ys (ground arith) in (id, ground arith, in_ys)
]

All-mem :
    (P : Bytes → Type 0) (ids : List Bytes) (id : Bytes) → All P ids → mem id ids ≡ true → P id
All-mem P [] id h m = absurd (false≢true m)
All-mem P (x ∷ ids) id h m = elim (Bool-cases (list_eq id x)) [
  | inl here ↦ subst P (sym ((list_eq_iff id x).0 here)) h.0
  | inr there ↦ All-mem P ids id h.1 (ground arith)
]

-- A majority of `count` replicas, each a member, of each of which `P` holds.
pub record Quorum (members : List Bytes) (count : ℕ) (P : Bytes → Type 0) : Type 0 where
  pub ids : List Bytes
  pub distinct : Distinct ids
  pub within : Within members ids
  pub size : count / 2 + 1 ≤ length ids
  pub each : All P ids

-- Two majorities of a cluster have a replica in common.
pub quorums_meet :
    (members : List Bytes) (count : ℕ) (P Q : Bytes → Type 0)
    → length members ≤ count
    → Quorum members count P
    → Quorum members count Q
    → (id : Bytes) × P id × Q id
quorums_meet members count P Q fits p q = elim (Bool-cases (any (λ x. mem x q.ids) p.ids)) [
  | inl meet ↦
      let (id, in_p, in_q) = common p.ids q.ids meet in
      (id, All-mem P p.ids id p.each in_p, All-mem Q q.ids id q.each in_q)
  | inr apart ↦ absurd (
      omega (
        arith,
        length-append p.ids q.ids,
        length-Distinct-le (p.ids ++ q.ids) members
            (Distinct-append p.ids q.ids p.distinct q.distinct apart)
            (Within-append members p.ids q.ids p.within q.within),
      ))
]
