-- ===== src/Text/Laws.antt =====
-- What the standard library's conversions keep: big-endian numbers come back, and lowering the
-- case is done once.
use mero_tee.Prelude.{ℕ, ◌≤◌, ◌≡◌, refl, [], ◌∷◌, length, arith}
use mero_tee.Text.{
  Str, lower, to_ascii_lowercase, to_be_bytes, from_be_bytes, saturating_add, u64_max,
}

pub length-to_be_bytes : (n : ℕ) → length (to_be_bytes n) ≡ 8
unfolding to_be_bytes
length-to_be_bytes n = refl

-- A `u64` survives its big-endian bytes.
pub from_be_bytes-to_be_bytes : (n : ℕ) → n ≤ u64_max → from_be_bytes (to_be_bytes n) ≡ n
unfolding from_be_bytes to_be_bytes
from_be_bytes-to_be_bytes n h = omega arith

pub lower-lower : (c : ℕ) → lower (lower c) ≡ lower c
unfolding lower
lower-lower c = ground arith

pub to_ascii_lowercase_idem :
    (s : Str) → to_ascii_lowercase (to_ascii_lowercase s) ≡ to_ascii_lowercase s
unfolding to_ascii_lowercase
to_ascii_lowercase_idem [] = refl
to_ascii_lowercase_idem (c ∷ s) = cc (lower-lower c, to_ascii_lowercase_idem s)

pub saturating_add-le : (a b : ℕ) → saturating_add a b ≤ u64_max
unfolding saturating_add
saturating_add-le a b = ground arith
