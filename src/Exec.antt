-- ===== src/Exec.antt =====
-- Code that changes a state and may fail: what was written before the failure stays written, so
-- the state comes back beside the error too.
use mero_tee.Prelude.{Bool, ◌≡◌, refl}
use mero_tee.Errors.{ServiceError, Service, ok, err, ensure}

abbrev pub Exec : Type 0 → Type 0 → Type 0
Exec S A = S → S × Service A

module _ {S A : Type 0} where
  abbrev pub pure : A → Exec S A
  pure a s = (s, ok a)

  -- `r?`
  abbrev pub lift : Service A → Exec S A
  lift r s = (s, r)

  abbrev pub raise : ServiceError → Exec S A
  raise e s = (s, err e)

  abbrev pub gets : (S → A) → Exec S A
  gets f s = (s, ok (f s))

module _ {S : Type 0} where
  abbrev pub modify : (S → S) → Exec S (Unit {0})
  modify f s = (f s, ok tt)

  abbrev pub guard : Bool → ServiceError → Exec S (Unit {0})
  guard b e s = (s, ensure b e)

module _ {S A B : Type 0} where
  abbrev pub continue : (A → Exec S B) → S × Service A → S × Service B
  continue f (s, ok a) = f a s
  continue f (s, err e) = (s, err e)

  infixl 5 ◌>>=◌ ◌>>◌
  abbrev pub ◌>>=◌ : Exec S A → (A → Exec S B) → Exec S B
  ◌>>=◌ m f s = continue f (m s)

  abbrev pub ◌>>◌ : Exec S A → Exec S B → Exec S B
  ◌>>◌ m k s = continue (λ _. k) (m s)

module _ {S A B : Type 0} (f : A → Exec S B) where
  -- The inversion of a chain that succeeded: its first step did, and the rest from there.
  pub continue-eq-ok :
      (r : S × Service A) (s' : S) (b : B)
      → continue f r ≡ (s', ok b)
      → (a : A) × (r ≡ (r.0, ok a)) × (f a r.0 ≡ (s', ok b))
  continue-eq-ok (s, ok a) s' b h = (a, refl, h)
  continue-eq-ok (s, err e) s' b h = cc
