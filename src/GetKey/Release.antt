-- ===== src/GetKey/Release.antt =====
-- mero-kms/src/handlers/get_key.rs, `release_key`: what a released key has passed, and how often a
-- challenge releases one.
use mero_tee.Prelude.{ℕ, ◌≤◌, ◌≡◌, ◌≢◌, refl, sym, ap, ◌∙◌, Option, List, [], ◌∷◌, arith, inl, inr}
use mero_tee.Text.{Bytes, to_ascii_lowercase}
use mero_tee.Errors.{Service, ServiceError, ok, err, Result-cases}
use mero_tee.Crypto.{Crypto}
use mero_tee.Backend.{derive_key_hex}
use mero_tee.Policy.{Role}
use mero_tee.Counters.Replica.{CounterJson}
use mero_tee.Counters.Ops.{read}
use mero_tee.Challenge.{spend}
use mero_tee.Challenge.Spent.{IsMemory, Spending, spend_all, Until, spend_once}
use mero_tee.State.{AppState}
use mero_tee.GetKey.{Libraries, Request, GetKeyResponse, authorize, release_key, key_path_for_peer}
use mero_tee.GetKey.Authorized.{expiry_of, IsAuthorized, authorize-inv, authorize-expiry}
use mero_tee.GetKey.Spending.{
  Spends, after_read, after_spend, read_counters-Same, release_key-Spends, spend_challenge-inv,
}

module _ (c : Crypto) (libs : Libraries) (j : CounterJson) where
  -- The state after a sequence of requests, whatever each was answered.
  pub release_all : AppState → List Request → AppState
  release_all s [] = s
  release_all s (r ∷ requests) = release_all (release_key c libs j r s).0 requests

  -- Every spending of these requests reads a clock that is not past the moment.
  unfoldable pub IsBefore : ℕ → List Request → Type 0
  IsBefore moment [] = Unit {0}
  IsBefore moment (r ∷ requests) =
      ((m : ℕ) → r.spent_at ≡ ok m → m ≤ moment) × IsBefore moment requests

  release_all-spends :
      (s : AppState) (requests : List Request) (moment : ℕ)
      → IsBefore moment requests
      → (calls : List Spending) × Until moment calls
        × ((release_all s requests).spent_challenges
            ≡ spend_all s.spent_challenges s.config.max_consumed_challenges calls)
        × ((release_all s requests).config ≡ s.config)
  unfolding release_all IsBefore Spends spend_all
  release_all-spends s [] moment h = ([], tt, refl, refl)
  release_all-spends s (r ∷ requests) moment (h, hs) =
      let next = (release_key c libs j r s).0 in
      let (same, spends) = release_key-Spends c libs j r s in
      let config = same.config in
      let (calls, early, after, kept) = release_all-spends next requests moment hs in
      elim spends [
        | inl unchanged ↦ (calls, early, cc, kept ∙ config)
        | inr (m, read, spent) ↦
            let call : Spending = record {
              id = to_ascii_lowercase r.request.challenge_id;
              expires_at = expiry_of c libs r.request.challenge_id;
              now = m;
            } in
            (call ∷ calls, (h m read, early), cc, kept ∙ config)
      ]

  -- A request that is answered with a key was authorized: its challenge opened to a nonce, its
  -- signature verified over that nonce and its quote, and its quote verified to a role; and its
  -- challenge was spent successfully, under its id in lower case and with its own expiry.
  pub release_key-inv :
      (r : Request) (s s' : AppState) (response : GetKeyResponse)
      → release_key c libs j r s ≡ (s', ok response)
      → (challenge_nonce : Bytes) × (seal_to : Option Bytes) × (role : Role) × (moment : ℕ)
        × IsAuthorized c libs s r challenge_nonce
            (expiry_of c libs r.request.challenge_id)
            seal_to
            role
        × (r.spent_at ≡ ok moment)
        × ((spend s.spent_challenges
              (to_ascii_lowercase r.request.challenge_id)
              (expiry_of c libs r.request.challenge_id)
              moment
              s.config.max_consumed_challenges).1
            ≡ ok tt)
        × (s'.spent_challenges
            ≡ (spend s.spent_challenges
                (to_ascii_lowercase r.request.challenge_id)
                (expiry_of c libs r.request.challenge_id)
                moment
                s.config.max_consumed_challenges).0)
  unfolding release_key after_read
  release_key-inv r s s' response h = elim (Result-cases (authorize c libs s r)) [
    | inr (x, e) ↦ absurd (ground arith)
    | inl (a, e) ↦ elim (Result-cases (after_read c libs j r a s).1) [
      | inr (x, refused) ↦ absurd (ground arith)
      | inl (counters, got) ↦ elim (Result-cases (after_spend c libs j r a s).1) [
        | inr (x, refused) ↦ absurd (unfold after_spend in ground arith)
        | inl (u, taken) ↦
            let (same, before) =
              read_counters-Same c libs j r a.3 (key_path_for_peer s.config a.3 r.request.peer_id)
                r.request.rollback_node_id s in
            let config = same.config in
            let expiry = authorize-expiry c libs s r a.0 a.1 a.2 a.3 e in
            let (moment, read, accepted, after) =
              spend_challenge-inv c libs j r (after_read c libs j r a s).0 a.1
                (unfold after_spend in taken) in
            let ends : s' ≡ (after_spend c libs j r a s).0 =
              elim (Result-cases (
                derive_key_hex c (after_spend c libs j r a s).0.backend
                  (key_path_for_peer s.config a.3 r.request.peer_id))) [
                    | inr (x, refused) ↦ absurd (unfold after_spend in ground arith)
                    | inl (k, derived) ↦ unfold after_spend in ground arith
                  ] in
            (
              a.0,
              a.2,
              a.3,
              moment,
              rw (sym expiry) (authorize-inv c libs s r a.0 a.1 a.2 a.3 e),
              read,
              cc,
              unfold after_spend in cc,
            )
      ]
    ]
  ]

  released_twice :
      (s s1 : AppState) (first again : Request) (response : GetKeyResponse)
      (requests : List Request)
      → IsMemory s.config.max_consumed_challenges s.spent_challenges
      → release_key c libs j first s ≡ (s1, ok response)
      → to_ascii_lowercase again.request.challenge_id
        ≡ to_ascii_lowercase first.request.challenge_id
      → IsBefore (expiry_of c libs first.request.challenge_id) requests
      → ((m : ℕ) → again.spent_at ≡ ok m → m ≤ expiry_of c libs first.request.challenge_id)
      → (s2 : AppState) (second : GetKeyResponse)
      → release_key c libs j again (release_all s1 requests) ≢ (s2, ok second)
  released_twice s s1 first again response requests memory released same before early s2 second
        twice =
      let id = to_ascii_lowercase first.request.challenge_id in
      let expires_at = expiry_of c libs first.request.challenge_id in
      let (n1, k1, r1, t1, a1, read1, taken, spent) =
        release_key-inv first s s1 response released in
      let (n2, k2, r2, t2, a2, read2, retaken, respent) =
        release_key-inv again (release_all s1 requests) s2 second twice in
      let (calls, until, after, kept) = release_all-spends s1 requests expires_at before in
      let config : s1.config ≡ s.config =
        let kept_config = (release_key-Spends c libs j first s).0.config in
        ap (λ x. x.0.config) (sym released) ∙ kept_config in
      let refused =
        spend_once s.config.max_consumed_challenges id expires_at s.spent_challenges t1 calls t2
          (expiry_of c libs again.request.challenge_id) memory taken until (early t2 read2) in
      cc

  -- A challenge releases a key once on a replica: from a memory within its capacity, after a request
  -- that was answered with a key, and any requests whose spendings come by the expiry of its
  -- challenge, every request whose challenge has the same id, in whatever case, and whose spending
  -- comes by then is refused with an error.
  pub released_once :
      (s s1 : AppState) (first again : Request) (response : GetKeyResponse)
      (requests : List Request)
      → IsMemory s.config.max_consumed_challenges s.spent_challenges
      → release_key c libs j first s ≡ (s1, ok response)
      → to_ascii_lowercase again.request.challenge_id
        ≡ to_ascii_lowercase first.request.challenge_id
      → IsBefore (expiry_of c libs first.request.challenge_id) requests
      → ((m : ℕ) → again.spent_at ≡ ok m → m ≤ expiry_of c libs first.request.challenge_id)
      → (e : ServiceError) × ((release_key c libs j again (release_all s1 requests)).1 ≡ err e)
  released_once s s1 first again response requests memory released same before early =
      let last = release_key c libs j again (release_all s1 requests) in
      elim (Result-cases last.1) [
        | inr (e, refused) ↦ (e, refused)
        | inl (second, twice) ↦ absurd (
            released_twice s s1 first again response requests memory released same before early
              last.0 second (ap (λ (r : Service GetKeyResponse). (last.0, r)) twice))
      ]
