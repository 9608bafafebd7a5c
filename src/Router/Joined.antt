-- ===== src/Router/Joined.antt =====
-- mero-kms/src/backend.rs, `set_root`, and mero-kms/src/cluster.rs, `join_until_ready`: a replica
-- holds one root for its lifetime, and a joiner gets one as soon as a peer gives it.
use mero_tee.Prelude.{
  ◌≡◌, refl, sym, ◌∙◌, subst, ◌⊎◌, inl, inr, Bool, true, false, none, some, List, [], ◌∷◌, ◌++◌,
  arith, Option-cases, false≢true,
}
use mero_tee.Text.{Str, Bytes, lit}
use mero_tee.Errors.{Service, ServiceError, ok, err}
use mero_tee.Crypto.{Crypto}
use mero_tee.Backend.{TdxBackend, Root, set_root, record_join_error}
use mero_tee.Policy.{AttestationPolicy}
use mero_tee.Cluster.{Messages, VerifyAttestation, verify_peer}
use mero_tee.Cluster.Join.{Joining, join_from, join_round}
use mero_tee.Router.Startup.{JoinAttempts, join_until_ready}

-- A backend later: its measurements are the same, and so is its root, once it holds one.
pub record Rooted (b b' : TdxBackend) : Type 0 where
  pub own : b'.own ≡ b.own
  pub root : (b.root ≡ none) ⊎ (b'.root ≡ b.root)

set_root-own : (b : TdxBackend) (root : Root) → (set_root b root).0.own ≡ b.own
unfolding set_root
set_root-own b root = ground arith

set_root-Rooted : (b : TdxBackend) (root : Root) → Rooted b (set_root b root).0
unfolding set_root
set_root-Rooted b root = elim (Option-cases b.root) [
  | inl unset ↦ record { own = set_root-own b root; root = inl unset }
  | inr (held, set) ↦ record { own = set_root-own b root; root = inr (ground arith) }
]

set_root-holds : (b : TdxBackend) (root : Root) → (r : Root) × ((set_root b root).0.root ≡ some r)
unfolding set_root
set_root-holds b root = elim (Option-cases b.root) [
  | inl unset ↦ (root, ground arith)
  | inr (held, set) ↦ (held, ground arith)
]

verify_peer-own :
    (c : Crypto) (messages : Messages) (verify : VerifyAttestation) (b b' : TdxBackend)
    (policy : AttestationPolicy) (quote nonce binding : Bytes)
    → b'.own ≡ b.own
    → verify_peer c messages verify b' policy quote nonce binding
      ≡ verify_peer c messages verify b policy quote nonce binding
unfolding verify_peer
verify_peer-own c messages verify b b' policy quote nonce binding h = rw h refl

module _ (c : Crypto) (messages : Messages) (show_error : ServiceError → Str)
    (policy : AttestationPolicy) where
  -- What a peer gives does not depend on the joiner's state but by its own measurements.
  join_from-own :
      (g : Joining) (b b' : TdxBackend) (peer : Str)
      → b'.own ≡ b.own
      → join_from c messages show_error g b' policy peer
        ≡ join_from c messages show_error g b policy peer
  unfolding join_from verify_peer
  join_from-own g b b' peer h = rw h refl

  -- One of the peers of the round gives a root.
  unfoldable pub Gives : TdxBackend → JoinAttempts → Type 0
  Gives b [] = ⊥
  Gives b ((peer, g) ∷ attempts) =
      ((root : Root) × (join_from c messages show_error g b policy peer ≡ ok root))
      ⊎ Gives b attempts

  Gives-own :
      (b b' : TdxBackend) (attempts : JoinAttempts)
      → b'.own ≡ b.own
      → Gives b attempts
      → Gives b' attempts
  unfolding Gives
  Gives-own b b' [] h given = given
  Gives-own b b' ((peer, g) ∷ attempts) h (inl (root, given)) =
      inl (root, join_from-own g b b' peer h ∙ given)
  Gives-own b b' ((peer, g) ∷ attempts) h (inr later) = inr (Gives-own b b' attempts h later)

  -- The joiner's state after a peer that gave nothing.
  abbrev failed : TdxBackend → Str → ServiceError → TdxBackend
  failed b peer e = record_join_error b (peer ++ (lit ": " ++ show_error e))

  abbrev tried : TdxBackend → Str → JoinAttempts → Service Root → TdxBackend × Bool
  tried b peer attempts found = elim found [
    | ok root ↦ ((set_root b root).0, true)
    | err e ↦ join_round c messages show_error policy (failed b peer e) attempts
  ]

  join_round-tried :
      (b : TdxBackend) (peer : Str) (g : Joining) (attempts : JoinAttempts)
      → join_round c messages show_error policy b ((peer, g) ∷ attempts)
        ≡ tried b peer attempts (join_from c messages show_error g b policy peer)
  unfolding join_round
  join_round-tried b peer g attempts = refl

  failed-own : (b : TdxBackend) (peer : Str) (e : ServiceError) → (failed b peer e).own ≡ b.own
  unfolding record_join_error
  failed-own b peer e = refl

  failed-Rooted :
      (b b' : TdxBackend) (peer : Str) (e : ServiceError)
      → Rooted (failed b peer e) b'
      → Rooted b b'
  unfolding record_join_error
  failed-Rooted b b' peer e h = record { own = h.own; root = h.root }

  tried-Rooted :
      (b : TdxBackend) (peer : Str) (attempts : JoinAttempts) (found : Service Root)
      → ((t : TdxBackend) → Rooted t (join_round c messages show_error policy t attempts).0)
      → Rooted b (tried b peer attempts found).0
  tried-Rooted b peer attempts (ok root) later = set_root-Rooted b root
  tried-Rooted b peer attempts (err e) later = failed-Rooted b _ peer e (later (failed b peer e))

  -- A round of joining keeps the measurements, and the root where there is one.
  pub join_round-Rooted :
      (b : TdxBackend) (attempts : JoinAttempts)
      → Rooted b (join_round c messages show_error policy b attempts).0
  unfolding join_round
  join_round-Rooted b [] = record { own = refl; root = inr refl }
  join_round-Rooted b ((peer, g) ∷ attempts) =
      tried-Rooted b peer attempts (join_from c messages show_error g b policy peer)
        (λ t. join_round-Rooted t attempts)

  -- The round ended with a root in place.
  abbrev Joined : TdxBackend × Bool → Type 0
  Joined out = (out.1 ≡ true) × (root : Root) × (out.0.root ≡ some root)

  tried-Joined :
      (b : TdxBackend) (peer : Str) (attempts : JoinAttempts) (found : Service Root)
      → ((t : TdxBackend)
          → t.own ≡ b.own
          → Joined (join_round c messages show_error policy t attempts))
        ⊎ ((root : Root) × (found ≡ ok root))
      → Joined (tried b peer attempts found)
  tried-Joined b peer attempts (ok root) h =
      let (held, set) = set_root-holds b root in (refl, held, set)
  tried-Joined b peer attempts (err e) (inl later) = later (failed b peer e) (failed-own b peer e)
  tried-Joined b peer attempts (err e) (inr (root, found)) = absurd (ground arith)

  join_round-Joined :
      (b : TdxBackend) (attempts : JoinAttempts)
      → Gives b attempts
      → Joined (join_round c messages show_error policy b attempts)
  unfolding join_round Gives
  join_round-Joined b [] given = absurd given
  join_round-Joined b ((peer, g) ∷ attempts) (inl found) =
      tried-Joined b peer attempts (join_from c messages show_error g b policy peer) (inr found)
  join_round-Joined b ((peer, g) ∷ attempts) (inr later) =
      tried-Joined b peer attempts (join_from c messages show_error g b policy peer)
        (inl (λ t h. join_round-Joined t attempts (Gives-own b t attempts h later)))

  tried-ended :
      (b : TdxBackend) (peer : Str) (attempts : JoinAttempts) (found : Service Root)
      → ((t : TdxBackend)
          → (join_round c messages show_error policy t attempts).1 ≡ true
          → Joined (join_round c messages show_error policy t attempts))
      → (tried b peer attempts found).1 ≡ true
      → Joined (tried b peer attempts found)
  tried-ended b peer attempts (ok root) later h =
      let (held, set) = set_root-holds b root in (refl, held, set)
  tried-ended b peer attempts (err e) later h = later (failed b peer e) h

  -- A round that ends the loop has put a root in place.
  join_round-ended :
      (b : TdxBackend) (attempts : JoinAttempts)
      → (join_round c messages show_error policy b attempts).1 ≡ true
      → Joined (join_round c messages show_error policy b attempts)
  unfolding join_round
  join_round-ended b [] h = absurd (false≢true h)
  join_round-ended b ((peer, g) ∷ attempts) h =
      tried-ended b peer attempts (join_from c messages show_error g b policy peer)
        (λ t. join_round-ended t attempts) h

  abbrev loop : TdxBackend → List JoinAttempts → TdxBackend × Bool
  loop b rounds = join_until_ready c messages show_error policy b rounds

  -- The loop after a round.
  abbrev continued : TdxBackend × Bool → List JoinAttempts → TdxBackend × Bool
  continued (b, true) rounds = (b, true)
  continued (b, false) rounds = loop b rounds

  loop-continued :
      (b : TdxBackend) (attempts : JoinAttempts) (rounds : List JoinAttempts)
      → loop b (attempts ∷ rounds)
        ≡ continued (join_round c messages show_error policy b attempts) rounds
  unfolding join_until_ready
  loop-continued b attempts rounds = ground arith

  continued-Joined :
      (out : TdxBackend × Bool) (rounds : List JoinAttempts)
      → (out.1 ≡ true → Joined out)
      → (out.1 ≡ false → Joined (loop out.0 rounds))
      → Joined (continued out rounds)
  continued-Joined (b, true) rounds ended more = ended refl
  continued-Joined (b, false) rounds ended more = more refl

  -- A joiner meets, in some round, a peer that gives a root: by the end of that round its loop has
  -- ended and it holds a root, however the rounds before it went and whatever would come after.
  pub join_until_ready-joins :
      (b : TdxBackend) (before : List JoinAttempts) (attempts : JoinAttempts)
      (after : List JoinAttempts)
      → Gives b attempts
      → ((join_until_ready c messages show_error policy b (before ++ attempts ∷ after)).1 ≡ true)
        × (root : Root) × ((join_until_ready c messages show_error policy b
              (before ++ attempts ∷ after)).0.root
            ≡ some root)
  join_until_ready-joins b [] attempts after given =
      subst Joined (sym (loop-continued b attempts after)) (
        continued-Joined (join_round c messages show_error policy b attempts) after
          (join_round-ended b attempts)
          (λ no_end. absurd (false≢true (sym no_end ∙ (join_round-Joined b attempts given).0))))
  join_until_ready-joins b (first ∷ before) attempts after given =
      let out = join_round c messages show_error policy b first in
      subst Joined (sym (loop-continued b first (before ++ attempts ∷ after))) (
        continued-Joined out (before ++ attempts ∷ after) (join_round-ended b first) (λ _.
          join_until_ready-joins out.0 before attempts after
            (Gives-own b out.0 attempts (join_round-Rooted b first).own given)))
