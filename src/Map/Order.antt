-- ===== src/Map/Order.antt =====
-- The total orders that the maps' keys have: numbers, and texts or byte strings.
use mero_tee.Prelude.{ℕ, ◌≡◌, ◌≢◌, refl, List, [], ◌∷◌, compare, Ordering, arith}

pub record Ord {ℓ} (K : Type ℓ) : Type ℓ where
  pub cmp : K → K → Ordering
  pub eq_sound : (a b : K) → cmp a b ≡ Ordering.eq → a ≡ b
  pub eq_refl : (a : K) → cmp a a ≡ Ordering.eq
  pub gt_flip : (a b : K) → cmp a b ≡ Ordering.gt → cmp b a ≡ Ordering.lt
  pub lt_trans : (a b c : K) → cmp a b ≡ Ordering.lt → cmp b c ≡ Ordering.lt → cmp a c ≡ Ordering.lt

module _ {ℓ} {K : Type ℓ} ⦃o : Ord K⦄ where
  pub ne_of_lt : (a b : K) → o.cmp a b ≡ Ordering.lt → a ≢ b
  ne_of_lt a b h e = ground (arith, o.eq_refl b)

pub nat_eq_sound : (a b : ℕ) → compare a b ≡ Ordering.eq → a ≡ b
nat_eq_sound a b h = ground arith

pub nat_eq_refl : (a : ℕ) → compare a a ≡ Ordering.eq
nat_eq_refl a = ground arith

pub nat_gt_flip : (a b : ℕ) → compare a b ≡ Ordering.gt → compare b a ≡ Ordering.lt
nat_gt_flip a b h = ground arith

pub nat_lt_trans :
    (a b c : ℕ) → compare a b ≡ Ordering.lt → compare b c ≡ Ordering.lt → compare a c ≡ Ordering.lt
nat_lt_trans a b c h k = ground arith

instance abbrev pub nat_ord : Ord ℕ
nat_ord = record {
  cmp = compare;
  eq_sound = nat_eq_sound;
  eq_refl = nat_eq_refl;
  gt_flip = nat_gt_flip;
  lt_trans = nat_lt_trans;
}

-- Lexicographic order: of the code points of a text, which is that of its UTF-8 bytes.
abbrev pub compare_list : List ℕ → List ℕ → Ordering
compare_list [] [] = Ordering.eq
compare_list [] (y ∷ ys) = Ordering.lt
compare_list (x ∷ xs) [] = Ordering.gt
compare_list (x ∷ xs) (y ∷ ys) = elim (compare x y) [
  | Ordering.eq ↦ compare_list xs ys
  | Ordering.lt ↦ Ordering.lt
  | Ordering.gt ↦ Ordering.gt
]

pub list_eq_sound : (xs ys : List ℕ) → compare_list xs ys ≡ Ordering.eq → xs ≡ ys
list_eq_sound [] [] h = refl
list_eq_sound [] (y ∷ ys) h = ground arith
list_eq_sound (x ∷ xs) [] h = ground arith
list_eq_sound (x ∷ xs) (y ∷ ys) h = ground (arith, list_eq_sound xs ys)

pub list_eq_refl : (xs : List ℕ) → compare_list xs xs ≡ Ordering.eq
list_eq_refl [] = refl
list_eq_refl (x ∷ xs) = ground (arith, list_eq_refl xs)

pub list_gt_flip :
    (xs ys : List ℕ) → compare_list xs ys ≡ Ordering.gt → compare_list ys xs ≡ Ordering.lt
list_gt_flip [] [] h = ground arith
list_gt_flip [] (y ∷ ys) h = ground arith
list_gt_flip (x ∷ xs) [] h = refl
list_gt_flip (x ∷ xs) (y ∷ ys) h = ground (arith, list_gt_flip xs ys)

pub list_lt_trans :
    (xs ys zs : List ℕ)
    → compare_list xs ys ≡ Ordering.lt
    → compare_list ys zs ≡ Ordering.lt
    → compare_list xs zs ≡ Ordering.lt
list_lt_trans [] ys [] h k = ground arith
list_lt_trans [] [] (z ∷ zs) h k = refl
list_lt_trans [] (y ∷ ys) (z ∷ zs) h k = refl
list_lt_trans (x ∷ xs) [] zs h k = ground arith
list_lt_trans (x ∷ xs) (y ∷ ys) [] h k = ground arith
list_lt_trans (x ∷ xs) (y ∷ ys) (z ∷ zs) h k = ground (arith, list_lt_trans xs ys zs)

instance abbrev pub list_ord : Ord (List ℕ)
list_ord = record {
  cmp = compare_list;
  eq_sound = list_eq_sound;
  eq_refl = list_eq_refl;
  gt_flip = list_gt_flip;
  lt_trans = list_lt_trans;
}
