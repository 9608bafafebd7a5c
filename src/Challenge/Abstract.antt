-- ===== src/Challenge/Abstract.antt =====
-- mero-kms/src/stateless_challenge.rs, `SpentChallenges`: what the memory promises, with no map, no
-- order and no capacity, and that `spend` keeps the promise.
use mero_tee.Prelude.{
  ℕ, ◌≤◌, ◌≡◌, refl, sym, ◌∙◌, ap, ◌≢◌, inl, inr, true, false, Option, none, some, List, [], ◌∷◌,
  leb, length, list_eq, list_eq_iff, if◌then◌else◌, arith, Bool-cases, Option-cases, false≢true,
}
use mero_tee.Text.{Str}
use mero_tee.Errors.{Service, ok, err}
use mero_tee.Map.{get, contains_key, insert, retain}
use mero_tee.Map.Order.{list_ord}
use mero_tee.Map.Laws.{
  IsSorted, kept, get-retain, get-insert_self, get-insert_ne, retain-IsSorted, insert-IsSorted,
}
use mero_tee.Challenge.{SpentChallenges, spend, record_spent, already_used, too_many}
use mero_tee.Challenge.Spent.{Spending, spend_all}

-- Which challenges were used, and until when that matters.
abbrev pub Used : Type 0
Used = Str → Option ℕ

-- What is left of it at an instant.
pub live_at : ℕ → Used → Used
live_at now m id = kept (λ expiry. leb now expiry) (m id)

pub with_used : Used → Str → ℕ → Used
with_used m id expires_at other = if list_eq other id then some expires_at else m other

-- At least so many challenges were used and have not expired.
abbrev pub IsCrowded : ℕ → ℕ → Used → Type 0
IsCrowded now capacity m =
    (crowd : SpentChallenges) × IsSorted crowd
    × ((k : Str) → get crowd k ≡ live_at now m k)
    × (capacity ≤ length crowd)

-- A use at an instant: refused when the challenge was used and has not expired; when it was not,
-- recorded, or refused if as many unexpired uses are remembered as may be.
pub data Uses (capacity now : ℕ) (id : Str) (expires_at : ℕ)
    : Used → Used → Service (Unit {0}) → Type 0 where
  again :
      (m m' : Used)
      → live_at now m id ≢ none
      → ((k : Str) → m' k ≡ live_at now m k)
      → Uses capacity now id expires_at m m' (err already_used)
  no_room :
      (m m' : Used)
      → live_at now m id ≡ none
      → IsCrowded now capacity m
      → ((k : Str) → m' k ≡ live_at now m k)
      → Uses capacity now id expires_at m m' (err too_many)
  first :
      (m m' : Used)
      → live_at now m id ≡ none
      → ((k : Str) → m' k ≡ with_used (live_at now m) id expires_at k)
      → Uses capacity now id expires_at m m' (ok tt)

-- The promise that a map keeps.
abbrev pub abstract_of : SpentChallenges → Used
abstract_of spent id = get spent id

contains_key-none : (m : SpentChallenges) (id : Str) → contains_key m id ≡ false → get m id ≡ none
unfolding contains_key
contains_key-none m id h = elim (Option-cases (get m id)) [
  | inl absent ↦ absent
  | inr (v, there) ↦ absurd (ground arith)
]

contains_key-some : (m : SpentChallenges) (id : Str) → contains_key m id ≡ true → get m id ≢ none
unfolding contains_key
contains_key-some m id h absent = ground arith

get-insert :
    (m : SpentChallenges) (id : Str) (expires_at : ℕ) (k : Str)
    → get (insert m id expires_at) k ≡ with_used (abstract_of m) id expires_at k
unfolding with_used
get-insert m id expires_at k = elim (Bool-cases (list_eq k id)) [
  | inl same ↦
      let e = (list_eq_iff k id).0 same in
      rw same (ap (get (insert m id expires_at)) e ∙ get-insert_self m id expires_at)
  | inr other ↦
      rw other
        (get-insert_ne m id k expires_at (λ e. false≢true (sym other ∙ (list_eq_iff k id).1 e)))
]

with_used-same :
    (m m' : Used) (id : Str) (expires_at : ℕ)
    → ((k : Str) → m k ≡ m' k)
    → (k : Str) → with_used m id expires_at k ≡ with_used m' id expires_at k
unfolding with_used
with_used-same m m' id expires_at h k = rw (h k) refl

module _ (spent : SpentChallenges) (now : ℕ) (sorted : IsSorted spent) where
  left : SpentChallenges
  left = retain (λ expiry. leb now expiry) spent

  get-left : (k : Str) → get left k ≡ live_at now (abstract_of spent) k
  unfolding left live_at
  get-left k = get-retain (λ expiry. leb now expiry) spent k sorted

  left-IsSorted : IsSorted left
  unfolding left
  left-IsSorted = retain-IsSorted (λ expiry. leb now expiry) spent sorted

  spend_cases :
      (id : Str) (expires_at capacity : ℕ)
      → Uses capacity now id expires_at
          (abstract_of spent)
          (abstract_of (record_spent left id expires_at capacity).0)
          (record_spent left id expires_at capacity).1
  unfolding record_spent
  spend_cases id expires_at capacity = elim (Bool-cases (contains_key left id)) [
    | inl old ↦
        rw old (
          again _ _ (λ none_live. contains_key-some left id old (get-left id ∙ none_live)) get-left)
    | inr new ↦
        let fresh = sym (get-left id) ∙ contains_key-none left id new in
        elim (Bool-cases (leb capacity (length left))) [
          | inl full ↦
              rw (new, full)
                (no_room _ _ fresh (left, left-IsSorted, get-left, ground arith) get-left)
          | inr room ↦
              rw (new, room)
                (first _ _ fresh (λ k.
                  get-insert left id expires_at k
                  ∙ with_used-same (abstract_of left) (live_at now (abstract_of spent)) id
                      expires_at get-left k))
        ]
  ]

  -- What the map's `spend` does is a use of the abstract memory.
  pub spend-Uses :
      (id : Str) (expires_at capacity : ℕ)
      → Uses capacity now id expires_at
          (abstract_of spent)
          (abstract_of (spend spent id expires_at now capacity).0)
          (spend spent id expires_at now capacity).1
  unfolding spend left
  spend-Uses id expires_at capacity = spend_cases id expires_at capacity

  spend-IsSorted :
      (id : Str) (expires_at capacity : ℕ) → IsSorted (spend spent id expires_at now capacity).0
  unfolding spend record_spent
  spend-IsSorted id expires_at capacity =
      let rest = retain (λ expiry. leb now expiry) spent in
      let kept_sorted = retain-IsSorted (λ expiry. leb now expiry) spent sorted in
      ground (arith, kept_sorted, insert-IsSorted rest id expires_at kept_sorted)

  -- A use that is accepted is of a challenge with no unexpired use, and is remembered.
  pub spend-first :
      (id : Str) (expires_at capacity : ℕ)
      → (spend spent id expires_at now capacity).1 ≡ ok tt
      → (live_at now (abstract_of spent) id ≡ none)
        × (get (spend spent id expires_at now capacity).0 id ≡ some expires_at)
  unfolding spend record_spent left
  spend-first id expires_at capacity h =
      let rest = retain (λ expiry. leb now expiry) spent in
      elim (Bool-cases (contains_key rest id)) [
        | inl old ↦ absurd (ground arith)
        | inr new ↦ elim (Bool-cases (leb capacity (length rest))) [
          | inl full ↦ absurd (ground arith)
          | inr room ↦ (
            sym (get-left id) ∙ contains_key-none rest id new,
            rw (new, room) (get-insert_self rest id expires_at),
          )
        ]
      ]

-- A sequence of uses, with what each answered.
pub data UsesAll (capacity : ℕ)
    : List Spending → List (Service (Unit {0})) → Used → Used → Type 0 where
  no_more : (m : Used) → UsesAll capacity [] [] m m
  one_more :
      (s : Spending) (calls : List Spending) (m m' m'' : Used) (answer : Service (Unit {0}))
      (answers : List (Service (Unit {0})))
      → Uses capacity s.now s.id s.expires_at m m' answer
      → UsesAll capacity calls answers m' m''
      → UsesAll capacity (s ∷ calls) (answer ∷ answers) m m''

-- What `spend` answers to each of a sequence of calls.
unfoldable pub answers_all : SpentChallenges → ℕ → List Spending → List (Service (Unit {0}))
answers_all spent capacity [] = []
answers_all spent capacity (s ∷ calls) =
    let (next, answer) = spend spent s.id s.expires_at s.now capacity in
    answer ∷ answers_all next capacity calls

-- However the calls come, the memory of a replica refines an abstract one, in which a used challenge
-- stays used until its expiry: every call's answer is the one that the abstract memory allows. A
-- challenge with an unexpired use is refused as used; any other is accepted and from then on used,
-- or, only where as many unexpired uses as the capacity are remembered, refused for want of room.
pub spend_all-UsesAll :
    (spent : SpentChallenges) (capacity : ℕ) (calls : List Spending)
    → IsSorted spent
    → UsesAll capacity calls
        (answers_all spent capacity calls)
        (abstract_of spent)
        (abstract_of (spend_all spent capacity calls))
unfolding spend_all answers_all
spend_all-UsesAll spent capacity [] sorted = no_more (abstract_of spent)
spend_all-UsesAll spent capacity (s ∷ calls) sorted =
    let (next, answer) = spend spent s.id s.expires_at s.now capacity in
    one_more s calls (abstract_of spent) (abstract_of next) _ answer _
      (spend-Uses spent s.now sorted s.id s.expires_at capacity)
      (spend_all-UsesAll next capacity calls
        (spend-IsSorted spent s.now sorted s.id s.expires_at capacity))
