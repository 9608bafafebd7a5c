-- ===== src/Cluster/Nonces.antt =====
-- mero-kms/src/cluster.rs, `JoinNonces`: which nonces open, and how often one is spent.
use mero_tee.Prelude.{
  ℕ, ◌+◌, ◌≤◌, ◌≡◌, refl, sym, ◌∙◌, false, some, List, [], ◌∷◌, ◌++◌, length, take, drop, leb,
  if◌then◌else◌, arith, list_eq, list_eq_iff, Bool-cases, inl, inr, take-append, drop-append,
  length-append,
}
use mero_tee.Text.{Bytes, to_be_bytes, u64_max}
use mero_tee.Text.Laws.{length-to_be_bytes, from_be_bytes-to_be_bytes}
use mero_tee.Errors.{ok, err}
use mero_tee.Crypto.{Crypto}
use mero_tee.Map.{get, contains_key, retain}
use mero_tee.Map.Order.{list_ord}
use mero_tee.Map.Laws.{
  IsSorted, get-retain, retain-IsSorted, insert-IsSorted, get-insert_self, get-insert_ne,
}
use mero_tee.Cluster.{
  JoinNonces, spend, issue, open_nonce, tag, differ, join_nonce_expired, join_nonce_used,
}

differ_self : (xs : Bytes) → differ xs xs ≡ false
unfolding differ
differ_self [] = refl
differ_self (x ∷ xs) = ground (arith, differ_self xs)

-- A nonce that a replica issued from 8 random bytes opens on that replica to its expiry, a minute
-- after the issue, until then; later it is refused as expired. The expiry must fit 64 bits.
pub open_nonce-issue :
    (c : Crypto) (self : JoinNonces) (random : Bytes) (now later : ℕ)
    → length random ≡ 8
    → now + 60 ≤ u64_max
    → open_nonce c self (issue c self random now) later
      ≡ (if leb later (now + 60) then ok (now + 60) else err join_nonce_expired)
unfolding open_nonce issue
open_nonce-issue c self random now later h fits =
    let body = random ++ to_be_bytes (now + 60) in
    let size : length body ≡ 16 =
      length-append random (to_be_bytes (now + 60))
      ∙ omega (arith, length-to_be_bytes (now + 60)) in
    let head : take 16 (body ++ take 16 (tag c self body)) ≡ body =
      take-append body (take 16 (tag c self body)) 16 size in
    let rest : drop 16 (body ++ take 16 (tag c self body)) ≡ take 16 (tag c self body) =
      drop-append body (take 16 (tag c self body)) 16 size in
    let expiry : drop 8 body ≡ to_be_bytes (now + 60) =
      drop-append random (to_be_bytes (now + 60)) 8 h in
    rw
      (
        head,
        rest,
        expiry,
        differ_self (take 16 (tag c self body)),
        from_be_bytes-to_be_bytes (now + 60) fits,
      )
      (ground arith)

-- One call of `spend` for a verified join.
pub record Joined : Type 0 where
  pub nonce : Bytes
  pub expires_at : ℕ
  pub now : ℕ

pub spend_all : JoinNonces → List Joined → JoinNonces
spend_all self [] = self
spend_all self (s ∷ calls) = spend_all (spend self s.nonce s.expires_at s.now).0 calls

-- Each call happens by the moment, and one for this nonce brings the expiry it was issued with.
abbrev pub Until : Bytes → ℕ → List Joined → Type 0
Until nonce expires_at [] = Unit {0}
Until nonce expires_at (s ∷ calls) =
    (s.now ≤ expires_at)
    × (s.nonce ≡ nonce → s.expires_at ≡ expires_at)
    × Until nonce expires_at calls

module _ (nonce : Bytes) (expires_at : ℕ) where
  record Remembers (self : JoinNonces) : Type 0 where
    sorted : IsSorted self.spent
    held : get self.spent nonce ≡ some expires_at

  kept_held :
      (self : JoinNonces) (now : ℕ)
      → Remembers self
      → now ≤ expires_at
      → get (retain (λ expiry. leb now expiry) self.spent) nonce ≡ some expires_at
  kept_held self now r h =
      get-retain (λ expiry. leb now expiry) self.spent nonce r.sorted ∙ rw (r.held) (ground arith)

  Remembers-spend :
      (self : JoinNonces) (s : Joined)
      → Remembers self
      → s.now ≤ expires_at
      → (s.nonce ≡ nonce → s.expires_at ≡ expires_at)
      → Remembers (spend self s.nonce s.expires_at s.now).0
  unfolding spend
  Remembers-spend self s r early same =
      let kept = retain (λ expiry. leb s.now expiry) self.spent in
      let sorted = retain-IsSorted (λ expiry. leb s.now expiry) self.spent r.sorted in
      record {
        sorted = insert-IsSorted kept s.nonce s.expires_at sorted;
        held = elim (Bool-cases (list_eq s.nonce nonce)) [
          | inl repeated ↦
              let equal = (list_eq_iff s.nonce nonce).0 repeated in
              rw (sym equal, sym (same equal)) (get-insert_self kept s.nonce s.expires_at)
          | inr other ↦
              get-insert_ne kept s.nonce nonce s.expires_at
                (λ equal. absurd (ground (arith, (list_eq_iff s.nonce nonce).1 (sym equal))))
              ∙ kept_held self s.now r early
        ];
      }

  Remembers-spend_all :
      (self : JoinNonces) (calls : List Joined)
      → Remembers self
      → Until nonce expires_at calls
      → Remembers (spend_all self calls)
  unfolding spend_all
  Remembers-spend_all self [] r h = r
  Remembers-spend_all self (s ∷ calls) r (early, same, rest) =
      Remembers-spend_all (spend self s.nonce s.expires_at s.now).0 calls
        (Remembers-spend self s r early same) rest

  -- A join nonce is spent once: from a memory in key order, after `spend` took it, and whatever
  -- calls follow until it expires, each bringing for this nonce the same expiry, `spend` refuses it
  -- as already used.
  pub join_once :
      (self : JoinNonces) (now : ℕ) (calls : List Joined) (again : ℕ)
      → IsSorted self.spent
      → (spend self nonce expires_at now).1 ≡ ok tt
      → Until nonce expires_at calls
      → again ≤ expires_at
      → (spend (spend_all (spend self nonce expires_at now).0 calls) nonce expires_at again).1
        ≡ err join_nonce_used
  unfolding spend contains_key
  join_once self now calls again sorted accepted early fresh =
      let kept = retain (λ expiry. leb now expiry) self.spent in
      let first : Remembers (spend self nonce expires_at now).0 = record {
        sorted =
            insert-IsSorted kept nonce expires_at
              (retain-IsSorted (λ expiry. leb now expiry) self.spent sorted);
        held = get-insert_self kept nonce expires_at;
      } in
      ground (
        arith,
        kept_held (spend_all (spend self nonce expires_at now).0 calls) again
            (Remembers-spend_all (spend self nonce expires_at now).0 calls first early) fresh,
      )
