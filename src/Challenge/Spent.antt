-- ===== src/Challenge/Spent.antt =====
-- mero-kms/src/stateless_challenge.rs, `SpentChallenges::spend`: a challenge is used once.
use mero_tee.Prelude.{
  ℕ, ◌≤◌, ◌≡◌, ◌∙◌, Bool, some, List, [], ◌∷◌, length, leb, arith, inl, inr, Bool-cases,
}
use mero_tee.Text.{Str}
use mero_tee.Errors.{ok, err}
use mero_tee.Map.{get, contains_key, retain}
use mero_tee.Map.Order.{list_ord}
use mero_tee.Map.Laws.{
  IsSorted, get-retain, retain-IsSorted, insert-IsSorted, get-insert_self, get-insert_ne,
  length-insert-le,
}
use mero_tee.Challenge.{SpentChallenges, spend, record_spent, already_used}

-- The memory of one replica: a map, with no more challenges than it may hold.
pub record IsMemory (capacity : ℕ) (spent : SpentChallenges) : Type 0 where
  pub sorted : IsSorted spent
  pub bounded : length spent ≤ capacity

live : SpentChallenges → ℕ → SpentChallenges
live spent now = retain (λ expiry. leb now expiry) spent

length-retain-le : (keep : ℕ → Bool) (m : SpentChallenges) → length (retain keep m) ≤ length m
unfolding retain
length-retain-le keep [] = omega arith
length-retain-le keep ((k, v) ∷ m) = ground (arith, length-retain-le keep m)

-- `spend` keeps the memory in key order and within its capacity, whatever it answers.
pub spend-IsMemory :
    (spent : SpentChallenges) (id : Str) (expires_at now capacity : ℕ)
    → IsMemory capacity spent
    → IsMemory capacity (spend spent id expires_at now capacity).0
unfolding spend
spend-IsMemory spent id expires_at now capacity m =
    let rest = retain (λ expiry. leb now expiry) spent in
    let sorted = retain-IsSorted (λ expiry. leb now expiry) spent m.sorted in
    record {
      sorted = ground (arith, sorted, insert-IsSorted rest id expires_at sorted);
      bounded = ground (
        arith,
        m.bounded,
        length-retain-le (λ expiry. leb now expiry) spent,
        length-insert-le rest id expires_at,
      );
    }

-- One call of `spend` by a request that verified.
pub record Spending : Type 0 where
  pub id : Str
  pub expires_at : ℕ
  pub now : ℕ

-- The memory after a sequence of calls, whatever each answered.
unfoldable pub spend_all : SpentChallenges → ℕ → List Spending → SpentChallenges
spend_all spent capacity [] = spent
spend_all spent capacity (s ∷ calls) =
    spend_all (spend spent s.id s.expires_at s.now capacity).0 capacity calls

-- No call happens after the moment.
abbrev pub Until : ℕ → List Spending → Type 0
Until moment [] = Unit {0}
Until moment (s ∷ calls) = (s.now ≤ moment) × Until moment calls

module _ (capacity : ℕ) (id : Str) (expires_at : ℕ) where
  -- The challenge is remembered until it expires.
  record Remembers (spent : SpentChallenges) : Type 0 where
    sorted : IsSorted spent
    held : get spent id ≡ some expires_at

  Remembers-retain :
      (spent : SpentChallenges) (now : ℕ)
      → Remembers spent
      → now ≤ expires_at
      → Remembers (retain (λ expiry. leb now expiry) spent)
  Remembers-retain spent now r h = record {
    sorted = retain-IsSorted (λ expiry. leb now expiry) spent r.sorted;
    held = get-retain (λ expiry. leb now expiry) spent id r.sorted ∙ (rw (r.held) (ground arith));
  }

  Remembers-record :
      (spent : SpentChallenges) (other : Str) (until : ℕ)
      → Remembers spent
      → Remembers (record_spent spent other until capacity).0
  unfolding record_spent
  Remembers-record spent other until r = elim (Bool-cases (contains_key spent other)) [
    | inl old ↦ rw old r
    | inr new ↦ elim (Bool-cases (leb capacity (length spent))) [
      | inl full ↦ rw (new, full) r
      | inr room ↦
          rw (new, room)
            (record {
              sorted = insert-IsSorted spent other until r.sorted;
              held =
                  get-insert_ne spent other id until
                    (λ same. unfold contains_key in ground (arith, r.held))
                  ∙ r.held;
            })
    ]
  ]

  Remembers-spend :
      (spent : SpentChallenges) (other : Str) (until now : ℕ)
      → Remembers spent
      → now ≤ expires_at
      → Remembers (spend spent other until now capacity).0
  unfolding spend
  Remembers-spend spent other until now r h =
      Remembers-record (retain (λ expiry. leb now expiry) spent) other until
        (Remembers-retain spent now r h)

  Remembers-spend_all :
      (spent : SpentChallenges) (calls : List Spending)
      → Remembers spent
      → Until expires_at calls
      → Remembers (spend_all spent capacity calls)
  unfolding spend_all
  Remembers-spend_all spent [] r h = r
  Remembers-spend_all spent (s ∷ calls) r h =
      Remembers-spend_all (spend spent s.id s.expires_at s.now capacity).0 calls
        (Remembers-spend spent s.id s.expires_at s.now r h.0) h.1

  spent_refused :
      (spent : SpentChallenges) (until now : ℕ)
      → Remembers spent
      → now ≤ expires_at
      → (spend spent id until now capacity).1 ≡ err already_used
  unfolding spend contains_key
  spent_refused spent until now r h = ground (arith, (Remembers-retain spent now r h).held)

  remembered :
      (spent : SpentChallenges) (now : ℕ)
      → IsSorted spent
      → (spend spent id expires_at now capacity).1 ≡ ok tt
      → Remembers (spend spent id expires_at now capacity).0
  unfolding spend record_spent
  remembered spent now s h =
      let rest = retain (λ expiry. leb now expiry) spent in
      elim (Bool-cases (contains_key rest id)) [
        | inl old ↦ absurd (ground arith)
        | inr new ↦ elim (Bool-cases (leb capacity (length rest))) [
          | inl full ↦ absurd (ground arith)
          | inr room ↦
              rw (new, room)
                (record {
                  sorted =
                      insert-IsSorted rest id expires_at
                        (retain-IsSorted (λ expiry. leb now expiry) spent s);
                  held = get-insert_self rest id expires_at;
                })
        ]
      ]

  -- A challenge is accepted once: from a memory within its capacity, after `spend` accepted it, and
  -- whatever calls follow while it has not expired, `spend` refuses it as already used.
  pub spend_once :
      (spent : SpentChallenges) (now : ℕ) (calls : List Spending) (again until : ℕ)
      → IsMemory capacity spent
      → (spend spent id expires_at now capacity).1 ≡ ok tt
      → Until expires_at calls
      → again ≤ expires_at
      → (spend
          (spend_all (spend spent id expires_at now capacity).0 capacity calls)
          id
          until
          again
          capacity).1
        ≡ err already_used
  spend_once spent now calls again until m accepted early fresh =
      let first = (spend spent id expires_at now capacity).0 in
      spent_refused (spend_all first capacity calls) until again
        (Remembers-spend_all first calls (remembered spent now m.sorted accepted) early) fresh
