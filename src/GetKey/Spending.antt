-- ===== src/GetKey/Spending.antt =====
-- mero-kms/src/handlers/get_key.rs, `release_key`: what one request does to the memory of spent
-- challenges.
use mero_tee.Prelude.{ℕ, ◌≡◌, refl, ◌∙◌, Option, none, some, arith, Bool-cases, inl, inr, ◌⊎◌}
use mero_tee.Text.{Str, Bytes, to_ascii_lowercase}
use mero_tee.Errors.{Service, ok, Result-cases}
use mero_tee.Crypto.{Crypto}
use mero_tee.Backend.{derive_key_hex}
use mero_tee.Policy.{Role, node, role_eq}
use mero_tee.Counters.{ClusterCounters}
use mero_tee.Counters.Replica.{CounterJson}
use mero_tee.Counters.Ops.{read}
use mero_tee.Challenge.{spend}
use mero_tee.State.{AppState}
use mero_tee.GetKey.{
  Libraries, Request, authorize, read_counters, spend_challenge, release_key, key_path_for_peer,
}
use mero_tee.GetKey.Authorized.{expiry_of, authorize-expiry}

-- What two states of a replica share beside the counters.
pub record Same (s s' : AppState) : Type 0 where
  pub config : s'.config ≡ s.config
  pub backend : s'.backend ≡ s.backend

module _ (c : Crypto) (libs : Libraries) (j : CounterJson) where
  pub read_counters-Same :
      (r : Request) (role : Role) (key_path : Str) (id : Option ℕ) (s : AppState)
      → Same s (read_counters c libs j r role key_path id s).0
        × ((read_counters c libs j r role key_path id s).0.spent_challenges ≡ s.spent_challenges)
  unfolding read_counters
  read_counters-Same r role key_path none s = (record { config = refl; backend = refl }, refl)
  read_counters-Same r role key_path (some id) s = elim (Bool-cases (role_eq role node)) [
    | inl is_node ↦
        elim (Result-cases (read c j s.backend r.net r.read_nonce key_path s.counters).1) [
          | inl (counters, e) ↦
              (record { config = ground arith; backend = ground arith }, ground arith)
          | inr (x, e) ↦ (record { config = ground arith; backend = ground arith }, ground arith)
        ]
    | inr other ↦ (record { config = ground arith; backend = ground arith }, ground arith)
  ]

  -- What one request did to the memory of spent challenges: nothing, or one call of `spend` under
  -- its challenge's id at the clock's reading.
  unfoldable pub Spends : Request → AppState → AppState → Type 0
  Spends r s s' =
      (s'.spent_challenges ≡ s.spent_challenges)
      ⊎ ((moment : ℕ) × (r.spent_at ≡ ok moment)
          × (s'.spent_challenges
              ≡ (spend s.spent_challenges (to_ascii_lowercase r.request.challenge_id)
                  (expiry_of c libs r.request.challenge_id) moment
                  s.config.max_consumed_challenges).0))

  pub spend_challenge-Spends :
      (r : Request) (s : AppState)
      → Same s
          (spend_challenge c libs r.spent_at r.request
            (expiry_of c libs r.request.challenge_id)
            s).0
        × Spends r s
            (spend_challenge c libs r.spent_at r.request
              (expiry_of c libs r.request.challenge_id)
              s).0
  unfolding spend_challenge Spends
  spend_challenge-Spends r s = elim (Result-cases r.spent_at) [
    | inl (moment, e) ↦
        (record { config = ground arith; backend = ground arith }, inr (moment, e, ground arith))
    | inr (x, e) ↦ (record { config = ground arith; backend = ground arith }, inl (ground arith))
  ]

  pub Same-trans : {s s1 s2 : AppState} → Same s s1 → Same s1 s2 → Same s s2
  Same-trans a b = record { config = b.config ∙ a.config; backend = b.backend ∙ a.backend }

  pub Spends-from :
      (r : Request) (s s1 s2 : AppState)
      → Same s s1
      → s1.spent_challenges ≡ s.spent_challenges
      → Spends r s1 s2
      → Spends r s s2
  unfolding Spends
  Spends-from r s s1 s2 same spent more =
      let config = same.config in
      elim more [
        | inl unchanged ↦ inl (unchanged ∙ spent)
        | inr (moment, read, after) ↦ inr (moment, read, cc)
      ]

  -- The states a request passes through: after the read of the counters, and after the spending.
  unfoldable pub after_read :
      Request
      → Bytes × ℕ × Option Bytes × Role
      → AppState
      → AppState × Service (Option (ℕ × ClusterCounters))
  after_read r a s =
      read_counters c libs j r a.3 (key_path_for_peer s.config a.3 r.request.peer_id)
        r.request.rollback_node_id s

  unfoldable pub after_spend :
      Request → Bytes × ℕ × Option Bytes × Role → AppState → AppState × Service (Unit {0})
  after_spend r a s = spend_challenge c libs r.spent_at r.request a.1 (after_read r a s).0

  -- Where a request ends: before the counters are read, before the challenge is spent, or after.
  pub release_key-ends :
      (r : Request) (s : AppState)
      → ((release_key c libs j r s).0 ≡ s)
        ⊎ ((a : Bytes × ℕ × Option Bytes × Role) × (authorize c libs s r ≡ ok a)
            × (((release_key c libs j r s).0 ≡ (after_read r a s).0)
                ⊎ ((release_key c libs j r s).0 ≡ (after_spend r a s).0)))
  unfolding release_key after_read after_spend
  release_key-ends r s = elim (Result-cases (authorize c libs s r)) [
    | inr (x, e) ↦ inl (ground arith)
    | inl (a, e) ↦ inr (
      a,
      e,
      elim (Result-cases (after_read r a s).1) [
        | inr (x, refused) ↦ inl (ground arith)
        | inl (counters, got) ↦ inr (elim (Result-cases (after_spend r a s).1) [
          | inr (x, refused) ↦ ground arith
          | inl (u, spent) ↦
              elim (Result-cases (
                derive_key_hex c (after_spend r a s).0.backend
                  (key_path_for_peer s.config a.3 r.request.peer_id))) [
                    | inr (x, refused) ↦ ground arith
                    | inl (k, derived) ↦ ground arith
                  ]
        ])
      ],
    )
  ]

  pub release_key-Spends :
      (r : Request) (s : AppState)
      → Same s (release_key c libs j r s).0 × Spends r s (release_key c libs j r s).0
  unfolding after_read after_spend Spends
  release_key-Spends r s = elim (release_key-ends r s) [
    | inl unchanged ↦ rw unchanged (record { config = refl; backend = refl }, inl refl)
    | inr (a, authorized, ends) ↦
        let (same, spent) =
          read_counters-Same r a.3 (key_path_for_peer s.config a.3 r.request.peer_id)
            r.request.rollback_node_id s in
        let expiry = authorize-expiry c libs s r a.0 a.1 a.2 a.3 authorized in
        elim ends [
          | inl read ↦ rw read (same, inl spent)
          | inr all ↦
              let (kept, more) = spend_challenge-Spends r (after_read r a s).0 in
              rw (all, expiry)
                (
                  Same-trans same kept,
                  Spends-from r s (after_read r a s).0
                      (spend_challenge c libs r.spent_at r.request
                        (expiry_of c libs r.request.challenge_id) (after_read r a s).0).0
                      same spent more,
                )
        ]
  ]

  pub spend_challenge-inv :
      (r : Request) (s : AppState) (e : ℕ)
      → (spend_challenge c libs r.spent_at r.request e s).1 ≡ ok tt
      → (moment : ℕ) × (r.spent_at ≡ ok moment)
        × ((spend s.spent_challenges
              (to_ascii_lowercase r.request.challenge_id)
              e
              moment
              s.config.max_consumed_challenges).1
            ≡ ok tt)
        × ((spend_challenge c libs r.spent_at r.request e s).0.spent_challenges
            ≡ (spend s.spent_challenges
                (to_ascii_lowercase r.request.challenge_id)
                e
                moment
                s.config.max_consumed_challenges).0)
  unfolding spend_challenge
  spend_challenge-inv r s e h = elim (Result-cases r.spent_at) [
    | inl (moment, read) ↦ (moment, read, ground arith, ground arith)
    | inr (x, read) ↦ absurd (ground arith)
  ]
