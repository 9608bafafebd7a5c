-- ===== src/Map/Laws.antt =====
-- Reading after writing, keys in order, and sizes of the maps.
use mero_tee.Prelude.{
  ◌+◌, ◌≤◌, ◌≡◌, ◌≢◌, refl, ◌⊎◌, inl, inr, Bool, true, false, Option, none, some, [], ◌∷◌, Ordering,
  if◌then◌else◌, length, arith, sym, subst,
}
use mero_tee.Map.Order.{Ord}
use mero_tee.Map.{Map, get, contains_key, insert, retain}

Ordering-cases : (c : Ordering) → (c ≡ Ordering.lt) ⊎ (c ≡ Ordering.eq) ⊎ (c ≡ Ordering.gt)
Ordering-cases Ordering.lt = inl refl
Ordering-cases Ordering.eq = inr (inl refl)
Ordering-cases Ordering.gt = inr (inr refl)

-- What `retain` leaves under a key.
abbrev pub kept {κ} : {V : Type κ} → (V → Bool) → Option V → Option V
kept keep none = none
kept keep (some v) = if keep v then some v else none

module _ {ℓ κ} {K : Type ℓ} {V : Type κ} ⦃o : Ord K⦄ where
  -- Every key of the map is above `k`.
  abbrev pub Above : K → Map K V → Type 0
  Above k [] = Unit {0}
  Above k ((j, v) ∷ m) = (o.cmp k j ≡ Ordering.lt) × Above k m

  abbrev pub IsSorted : Map K V → Type 0
  IsSorted [] = Unit {0}
  IsSorted ((j, v) ∷ m) = Above j m × IsSorted m

  Above-trans : (a b : K) (m : Map K V) → o.cmp a b ≡ Ordering.lt → Above b m → Above a m
  Above-trans a b [] h s = tt
  Above-trans a b ((j, v) ∷ m) h s = (o.lt_trans a b j h s.0, Above-trans a b m h s.1)

  pub get-insert_self : (m : Map K V) (k : K) (v : V) → get (insert m k v) k ≡ some v
  unfolding get insert
  get-insert_self [] k v = ground (arith, o.eq_refl k)
  get-insert_self ((j, w) ∷ m) k v = ground (arith, o.eq_refl k, get-insert_self m k v)

  pub get-insert_ne : (m : Map K V) (k q : K) (v : V) → q ≢ k → get (insert m k v) q ≡ get m q
  unfolding get insert
  get-insert_ne [] k q v h = ground (arith, o.eq_sound q k)
  get-insert_ne ((j, w) ∷ m) k q v h =
      ground (arith, o.eq_sound q k, o.eq_sound k j, get-insert_ne m k q v h)

  Above-insert :
      (m : Map K V) (j k : K) (v : V) → o.cmp j k ≡ Ordering.lt → Above j m → Above j (insert m k v)
  unfolding insert
  Above-insert [] j k v h s = (h, tt)
  Above-insert ((i, w) ∷ m) j k v h s = ground (arith, Above-insert m j k v)

  pub insert-IsSorted : (m : Map K V) (k : K) (v : V) → IsSorted m → IsSorted (insert m k v)
  unfolding insert
  insert-IsSorted [] k v s = (tt, tt)
  insert-IsSorted ((j, w) ∷ m) k v s = elim (Ordering-cases (o.cmp k j)) [
    | inl below ↦ rw (below, insert) ((below, Above-trans k j m below s.0), s)
    | inr (inl same) ↦
        let e : k ≡ j = o.eq_sound k j same in
        rw (same, insert) (subst (λ i. Above i m) (sym e) s.0, s.1)
    | inr (inr above) ↦
        rw (above, insert)
          (Above-insert m j k v (o.gt_flip k j above) s.0, insert-IsSorted m k v s.1)
  ]

  pub get_of_Above : (m : Map K V) (k : K) → Above k m → get m k ≡ none
  unfolding get
  get_of_Above [] k s = refl
  get_of_Above ((j, w) ∷ m) k s = ground (arith, get_of_Above m k s.1)

  pub length-insert-le : (m : Map K V) (k : K) (v : V) → length (insert m k v) ≤ length m + 1
  unfolding insert
  length-insert-le [] k v = omega arith
  length-insert-le ((j, w) ∷ m) k v = ground (arith, length-insert-le m k v)

  pub length-insert_of_mem :
      (m : Map K V) (k : K) (v : V)
      → IsSorted m
      → contains_key m k ≡ true
      → length (insert m k v) ≡ length m
  unfolding insert contains_key get
  length-insert_of_mem [] k v s h = ground arith
  length-insert_of_mem ((j, w) ∷ m) k v s h = elim (Ordering-cases (o.cmp k j)) [
    | inl below ↦ ground (arith, get_of_Above m k (Above-trans k j m below s.0))
    | inr (inl same) ↦ ground arith
    | inr (inr above) ↦ ground (arith, length-insert_of_mem m k v s.1)
  ]

  Above-retain : (keep : V → Bool) (m : Map K V) (k : K) → Above k m → Above k (retain keep m)
  unfolding retain
  Above-retain keep [] k s = tt
  Above-retain keep ((j, w) ∷ m) k s = ground (arith, Above-retain keep m k s.1)

  pub retain-IsSorted : (keep : V → Bool) (m : Map K V) → IsSorted m → IsSorted (retain keep m)
  unfolding retain
  retain-IsSorted keep [] s = tt
  retain-IsSorted keep ((j, w) ∷ m) s =
      ground (arith, Above-retain keep m j s.0, retain-IsSorted keep m s.1)

  pub get-retain :
      (keep : V → Bool) (m : Map K V) (k : K)
      → IsSorted m
      → get (retain keep m) k ≡ kept keep (get m k)
  unfolding retain get
  get-retain keep [] k s = refl
  get-retain keep ((j, w) ∷ m) k s = elim (Ordering-cases (o.cmp k j)) [
    | inl below ↦ ground (arith, get-retain keep m k s.1)
    | inr (inl same) ↦
        let e : k ≡ j = o.eq_sound k j same in
        ground (
          arith,
          get_of_Above (retain keep m) k
              (subst (λ i. Above i (retain keep m)) (sym e) (Above-retain keep m j s.0)),
        )
    | inr (inr above) ↦ ground (arith, get-retain keep m k s.1)
  ]

  length-retain-le : (keep : V → Bool) (m : Map K V) → length (retain keep m) ≤ length m
  unfolding retain
  length-retain-le keep [] = omega arith
  length-retain-le keep ((j, w) ∷ m) = ground (arith, length-retain-le keep m)

  tail_ext :
      (k j : K) (v w : V) (m n : Map K V)
      → o.cmp k j ≡ Ordering.eq
      → Above k m
      → Above j n
      → ((q : K) → get ((k, v) ∷ m) q ≡ get ((j, w) ∷ n) q)
      → (q : K) → get m q ≡ get n q
  unfolding get
  tail_ext k j v w m n same above_m above_n h q = elim (Ordering-cases (o.cmp q k)) [
    | inl below ↦ ground (arith, h q, o.eq_sound k j same)
    | inr (inl here) ↦
        let e : q ≡ k = o.eq_sound q k here in
        let f : k ≡ j = o.eq_sound k j same in
        ground (arith, get_of_Above m k above_m, get_of_Above n j above_n)
    | inr (inr above) ↦ ground (arith, h q, o.eq_sound k j same)
  ]

  -- A map is determined by what it holds.
  pub map_ext : (m n : Map K V) → IsSorted m → IsSorted n → ((k : K) → get m k ≡ get n k) → m ≡ n
  unfolding get
  map_ext [] [] s t h = refl
  map_ext [] ((j, w) ∷ n) s t h = ground (arith, h j, o.eq_refl j)
  map_ext ((k, v) ∷ m) [] s t h = ground (arith, h k, o.eq_refl k)
  map_ext ((k, v) ∷ m) ((j, w) ∷ n) s t h = elim (Ordering-cases (o.cmp k j)) [
    | inl below ↦ ground (arith, h k, o.eq_refl k, get_of_Above n k (Above-trans k j n below t.0))
    | inr (inl same) ↦ ground (
      arith,
      h k,
      o.eq_refl k,
      o.eq_sound k j same,
      map_ext m n s.1 t.1 (tail_ext k j v w m n same s.0 t.0 h),
    )
    | inr (inr above) ↦
        let under = o.gt_flip k j above in
        ground (arith, h j, o.eq_refl j, get_of_Above m j (Above-trans j k m under s.0))
  ]

  pub length-insert_of_new :
      (m : Map K V) (k : K) (v : V)
      → contains_key m k ≡ false
      → length (insert m k v) ≡ length m + 1
  unfolding insert contains_key get
  length-insert_of_new [] k v h = omega arith
  length-insert_of_new ((j, w) ∷ m) k v h = ground (arith, length-insert_of_new m k v)

  pub contains_key-insert_ne :
      (m : Map K V) (k q : K) (v : V) → q ≢ k → contains_key (insert m k v) q ≡ contains_key m q
  unfolding contains_key
  contains_key-insert_ne m k q v h = ground (arith, get-insert_ne m k q v h)
