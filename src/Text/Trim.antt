-- ===== src/Text/Trim.antt =====
-- The standard library's `trim_matches`: what is left has no such character at either end, so
-- trimming again changes nothing.
use mathlib.Core.List.{reverse, reverse_aux, reverse-cons, reverse-append, reverse-reverse}
use mero_tee.Prelude.{
  ℕ, ◌≡◌, refl, sym, ◌∙◌, ap, subst, inl, inr, Bool-cases, Bool, true, false, [], ◌∷◌, ◌++◌, all,
  &&-eq-true,
}
use mero_tee.Text.{Str, drop_while, trim_matches}

-- The text is empty or starts with a character that the test refuses.
Starts : (ℕ → Bool) → Str → Type 0
Starts p [] = Unit
Starts p (c ∷ s) = p c ≡ false

drop_while-Starts : (p : ℕ → Bool) (s : Str) → Starts p (drop_while p s)
unfolding drop_while Starts
drop_while-Starts p [] = tt
drop_while-Starts p (c ∷ s) = elim (Bool-cases (p c)) [
  | inl holds ↦ rw holds (drop_while-Starts p s)
  | inr fails ↦ rw fails fails
]

drop_while-of_Starts : (p : ℕ → Bool) (s : Str) → Starts p s → drop_while p s ≡ s
unfolding drop_while Starts
drop_while-of_Starts p [] h = refl
drop_while-of_Starts p (c ∷ s) h = rw h refl

drop_while-snoc :
    (p : ℕ → Bool) (s : Str) (c : ℕ)
    → p c ≡ false
    → drop_while p (s ++ c ∷ []) ≡ drop_while p s ++ c ∷ []
unfolding drop_while
drop_while-snoc p [] c h = rw h refl
drop_while-snoc p (d ∷ s) c h = elim (Bool-cases (p d)) [
  | inl holds ↦ rw holds (drop_while-snoc p s c h)
  | inr fails ↦ rw fails refl
]

-- Trimming the end does not reach a first character that stays.
trim_end-Starts :
    (p : ℕ → Bool) (s : Str) → Starts p s → Starts p (reverse (drop_while p (reverse s)))
unfolding drop_while Starts
trim_end-Starts p [] h = tt
trim_end-Starts p (c ∷ s) h =
    let kept = ap (drop_while p) (reverse-cons c s) ∙ drop_while-snoc p (reverse s) c h in
    let first = ap reverse kept ∙ reverse-append (drop_while p (reverse s)) (c ∷ []) in
    subst (Starts p) (sym first) h

-- Trimming twice is trimming once.
pub trim_matches_idem :
    (p : ℕ → Bool) (s : Str) → trim_matches p (trim_matches p s) ≡ trim_matches p s
unfolding trim_matches
trim_matches_idem p s =
    let end = drop_while p (reverse (drop_while p s)) in
    let start = trim_end-Starts p (drop_while p s) (drop_while-Starts p s) in
    ap (λ t. reverse (drop_while p (reverse t))) (drop_while-of_Starts p (reverse end) start)
    ∙ ap (λ t. reverse (drop_while p t)) (reverse-reverse end)
    ∙ ap reverse (drop_while-of_Starts p end (drop_while-Starts p (reverse (drop_while p s))))

all-reverse_aux :
    (q : ℕ → Bool) (s t : Str) → all q s ≡ true → all q t ≡ true → all q (reverse_aux s t) ≡ true
all-reverse_aux q [] t hs ht = ht
all-reverse_aux q (c ∷ s) t hs ht =
    let (first, rest) = &&-eq-true (q c) (all q s) hs in
    all-reverse_aux q s (c ∷ t) rest (rw (first, ht) refl)

module _ (p q : ℕ → Bool) (refused : (c : ℕ) → q c ≡ true → p c ≡ false) where
  all-Starts : (s : Str) → all q s ≡ true → Starts p s
  unfolding Starts
  all-Starts [] h = tt
  all-Starts (c ∷ s) h = refused c ((&&-eq-true (q c) (all q s) h).0)

  -- Nothing is trimmed of a text whose characters all stay.
  pub trim_matches-kept : (s : Str) → all q s ≡ true → trim_matches p s ≡ s
  unfolding trim_matches
  trim_matches-kept s h =
      ap (λ t. reverse (drop_while p (reverse t))) (drop_while-of_Starts p s (all-Starts s h))
      ∙ ap reverse (
          drop_while-of_Starts p (reverse s)
            (all-Starts (reverse s) (all-reverse_aux q s [] h refl)))
      ∙ reverse-reverse s
