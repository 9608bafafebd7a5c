-- ===== src/Router/Synced.antt =====
-- mero-kms/src/counters.rs, `sync_until_ready`: when the loop of a joining replica ends.
use mero_tee.Prelude.{
  ℕ, ◌≤◌, ◌≡◌, refl, Bool, true, false, List, [], ◌∷◌, length, ◌==◌, leb, is_empty, not, ◌&&◌, all,
  arith, inl, inr, Bool-cases, none, ◌++◌,
}
use mero_tee.Text.{Str, Bytes}
use mero_tee.Errors.{Service, ok, Result-cases}
use mero_tee.Crypto.{Crypto}
use mero_tee.Backend.{TdxBackend}
use mero_tee.Counters.Replica.{
  Counters, CounterJson, Inner, Net, Answer, Signed, bootstrap, learn_formed, majority,
  read_request, round,
}
use mero_tee.Counters.Ops.{
  sync_once, finish_sync, ready_answers, any_formed, merge_all, in_genesis, read_path,
}
use mero_tee.Router.Startup.{Sync, ends, sync_until_ready}

learn_formed-ready : (i : Inner) → (learn_formed i).ready ≡ i.ready
unfolding learn_formed
learn_formed-ready i = ground arith

bootstrap-ready : (s : Counters) (now : ℕ) → (bootstrap s now).inner.ready ≡ true
unfolding bootstrap
bootstrap-ready s now = elim (Bool-cases (s.replicas == 1)) [
  | inl one ↦ grind (arith, learn_formed-ready)
  | inr many ↦ ground arith
]

module _ (c : Crypto) (j : CounterJson) (backend : TdxBackend) where
  -- A sync that ends the loop has left the replica ready.
  abbrev EndsReady : Counters × Service Bool → Type 0
  EndsReady (s, result) = ends result ≡ true → s.inner.ready ≡ true

  finish_sync-EndsReady :
      (now : ℕ) (answers : List Answer) (s : Counters)
      → EndsReady (finish_sync c j backend now answers s)
  unfolding finish_sync ends
  finish_sync-EndsReady now answers s h =
      let ready = ready_answers answers in
      elim (Bool-cases (leb (majority s) (length ready))) [
        | inl enough ↦ elim (Result-cases (merge_all s.inner.map ready).1) [
          | inl (u, merged) ↦ elim (Bool-cases (any_formed answers)) [
            | inl formed ↦ grind (arith, learn_formed-ready)
            | inr unformed ↦ ground arith
          ]
          | inr (e, refused) ↦ absurd (ground arith)
        ]
        | inr few ↦
            elim (Bool-cases
              (not (is_empty ready) && all in_genesis ready && not (any_formed answers))) [
                | inl genesis ↦ ground arith
                | inr later ↦ absurd (ground arith)
              ]
      ]

  sync_once-EndsReady :
      (net : Net) (nonce : Bytes) (now : ℕ) (s : Counters)
      → EndsReady (sync_once c j backend net nonce now s)
  unfolding sync_once ends
  sync_once-EndsReady net nonce now s h =
      let asked = read_request c j backend none nonce s in
      elim (Bool-cases s.inner.ready) [
        | inl ready ↦ ground arith
        | inr unready ↦ elim (Bool-cases (s.replicas == 1)) [
          | inl one ↦ ground (arith, bootstrap-ready s now)
          | inr many ↦ elim (Result-cases asked.1) [
            | inr (e, failed) ↦ absurd (ground arith)
            | inl ((nonce_b64, signed), asks) ↦
                let answered = round c j backend net read_path nonce_b64 signed asked.0 in
                elim (Result-cases answered.1) [
                  | inr (e, failed) ↦ absurd (ground arith)
                  | inl (answers, got) ↦
                      let ready = finish_sync-EndsReady now answers answered.0 in
                      let done : ends (finish_sync c j backend now answers answered.0).1 ≡ true =
                        ground arith in
                      ground (arith, ready done)
                ]
          ]
        ]
      ]

  -- What a round must meet for the loop to end there: more than half of all replicas answer and are
  -- ready, and what they hold fits beside what this one holds.
  pub record Suffices (s : Counters) (sync : Sync) : Type 0 where
    pub nonce_b64 : Str
    pub signed : Signed
    pub asks : read_request c j backend none sync.nonce s ≡ (s, ok (nonce_b64, signed))
    pub s' : Counters
    pub answers : List Answer
    pub answered : round c j backend sync.net read_path nonce_b64 signed s ≡ (s', ok answers)
    pub enough : majority s' ≤ length (ready_answers answers)
    pub fits : (merge_all s'.inner.map (ready_answers answers)).1 ≡ ok tt

  sync_once-ends :
      (s : Counters) (sync : Sync)
      → Suffices s sync
      → ends (sync_once c j backend sync.net sync.nonce sync.now s).1 ≡ true
  unfolding sync_once finish_sync ends
  sync_once-ends s sync h =
      let asks = h.asks in
      let answered = h.answered in
      let enough = h.enough in
      let fits = h.fits in
      elim (Bool-cases s.inner.ready) [
        | inl ready ↦ ground arith
        | inr unready ↦ elim (Bool-cases (s.replicas == 1)) [
          | inl one ↦ ground arith
          | inr many ↦ ground arith
        ]
      ]

  abbrev tried : Counters → Sync → Counters × Service Bool
  tried s sync = sync_once c j backend sync.net sync.nonce sync.now s

  -- One round of the loop, by how its sync ended.
  sync_until_ready-ended :
      (s : Counters) (sync : Sync) (rounds : List Sync)
      → ends (tried s sync).1 ≡ true
      → sync_until_ready c j backend s (sync ∷ rounds) ≡ ((tried s sync).0, true)
  unfolding sync_until_ready
  sync_until_ready-ended s sync rounds h = ground arith

  sync_until_ready-goes_on :
      (s : Counters) (sync : Sync) (rounds : List Sync)
      → ends (tried s sync).1 ≡ false
      → sync_until_ready c j backend s (sync ∷ rounds)
        ≡ sync_until_ready c j backend (tried s sync).0 rounds
  unfolding sync_until_ready
  sync_until_ready-goes_on s sync rounds h = ground arith

  sync_until_ready-EndsReady :
      (s : Counters) (sync : Sync) (rounds : List Sync)
      → ends (tried s sync).1 ≡ true
      → ((sync_until_ready c j backend s (sync ∷ rounds)).1 ≡ true)
        × ((sync_until_ready c j backend s (sync ∷ rounds)).0.inner.ready ≡ true)
  sync_until_ready-EndsReady s sync rounds done =
      rw (sync_until_ready-ended s sync rounds done)
        (refl, sync_once-EndsReady sync.net sync.nonce sync.now s done)

  -- The loop that syncs a joining replica ends, with the replica ready, if in one of its rounds a
  -- majority of the replicas answers and is ready, and what they hold fits beside what this replica
  -- holds; whatever the rounds before met, and whatever the rounds after would have.
  pub sync_until_ready-ends :
      (s : Counters) (before after : List Sync) (sync : Sync)
      → Suffices (sync_until_ready c j backend s before).0 sync
      → ((sync_until_ready c j backend s (before ++ sync ∷ after)).1 ≡ true)
        × ((sync_until_ready c j backend s (before ++ sync ∷ after)).0.inner.ready ≡ true)
  unfolding sync_until_ready
  sync_until_ready-ends s [] after sync h =
      sync_until_ready-EndsReady s sync after (sync_once-ends s sync h)
  sync_until_ready-ends s (first ∷ before) after sync h =
      elim (Bool-cases (ends (tried s first).1)) [
        | inl done ↦ sync_until_ready-EndsReady s first (before ++ sync ∷ after) done
        | inr more ↦ rw (sync_until_ready-goes_on s first (before ++ sync ∷ after) more) (
            sync_until_ready-ends (tried s first).0 before after sync
              (rw (sync_until_ready-goes_on s first before more) at h))
      ]
