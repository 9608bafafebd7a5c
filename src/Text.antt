-- ===== src/Text.antt =====
-- Rust's `str` and `[u8]`: a text is the list of its code points, a byte string the list of its
-- bytes, and the methods of the standard library that the program calls on them.
pub mod Laws
pub mod Trim
use Prim.Native.Char.{code}
use mathlib.Core.List.{reverse}
use mero_tee.Prelude.{
  ◌≡◌, ◌⊎◌, ℕ, zero, suc, ◌+◌, ◌*◌, ◌/◌, ◌%◌, ◌^◌, String, Bool, true, false, ◌&&◌, ◌||◌, not, List,
  [], ◌∷◌, ◌++◌, map, ltb, leb, ◌==◌, if◌then◌else◌, is_empty, all, length, take, drop, list_eq,
  any, Option, some, none, ◌-◌,
}

abbrev pub Str : Type 0
Str = List ℕ

abbrev pub Bytes : Type 0
Bytes = List ℕ

-- The code points of a literal. It is shut, so that a message stands for itself in proofs.
unfoldable pub lit : String → Str
lit String.[] = []
lit (String.◌∷◌ c s) = code c ∷ lit s

-- `char::is_whitespace`: the Unicode property White_Space.
unfoldable pub is_whitespace : ℕ → Bool
is_whitespace c =
    leb 9 c && leb c 13
    || c == 0x20
    || c == 0x85
    || c == 0xa0
    || c == 0x1680
    || leb 0x2000 c && leb c 0x200a
    || c == 0x2028
    || c == 0x2029
    || c == 0x202f
    || c == 0x205f
    || c == 0x3000

unfoldable pub drop_while : (ℕ → Bool) → Str → Str
drop_while p [] = []
drop_while p (c ∷ s) = let rest = drop_while p s in if p c then rest else c ∷ s

-- `trim_matches(p)`: both ends.
unfoldable pub trim_matches : (ℕ → Bool) → Str → Str
unfolding drop_while
trim_matches p s = reverse (drop_while p (reverse (drop_while p s)))

-- `trim_end_matches('/')`
unfoldable pub trim_end_slashes : Str → Str
unfolding drop_while
trim_end_slashes s = reverse (drop_while (λ c. c == b'/') (reverse s))

unfoldable pub trim : Str → Str
unfolding trim_matches is_whitespace
trim s = trim_matches is_whitespace s

-- `trim_start_matches("0x")`: the prefix, as often as it stands there.
unfoldable pub trim_0x : Str → Str
trim_0x [] = []
trim_0x (a ∷ []) = a ∷ []
trim_0x (a ∷ b ∷ s) = let rest = trim_0x s in if a == b'0' && b == b'x' then rest else a ∷ b ∷ s

unfoldable pub lower : ℕ → ℕ
lower c = if leb b'A' c && leb c b'Z' then c + 32 else c

unfoldable pub to_ascii_lowercase : Str → Str
unfolding lower
to_ascii_lowercase s = map lower s

unfoldable pub eq_ignore_ascii_case : Str → Str → Bool
unfolding to_ascii_lowercase
eq_ignore_ascii_case a b = list_eq (to_ascii_lowercase a) (to_ascii_lowercase b)

unfoldable pub is_ascii_hexdigit : ℕ → Bool
is_ascii_hexdigit c =
    leb b'0' c && leb c b'9' || leb b'a' c && leb c b'f' || leb b'A' c && leb c b'F'

-- How many bytes UTF-8 takes for a code point, and for a text (`str::len`).
unfoldable pub utf8_len : ℕ → ℕ
utf8_len c = if ltb c 0x80 then 1 else if ltb c 0x800 then 2 else if ltb c 0x10000 then 3 else 4

unfoldable pub len : Str → ℕ
unfolding utf8_len
len [] = 0
len (c ∷ s) = utf8_len c + len s

-- `as_bytes`
unfoldable pub utf8 : ℕ → Bytes
utf8 c =
    if ltb c 0x80
    then c ∷ []
    else if ltb c 0x800
    then (0xc0 + c / 64) ∷ (0x80 + c % 64) ∷ []
    else if ltb c 0x10000
    then (0xe0 + c / 4096) ∷ (0x80 + c / 64 % 64) ∷ (0x80 + c % 64) ∷ []
    else (0xf0 + c / 262144) ∷ (0x80 + c / 4096 % 64) ∷ (0x80 + c / 64 % 64) ∷ (0x80 + c % 64) ∷ []

unfoldable pub as_bytes : Str → Bytes
unfolding utf8
as_bytes [] = []
as_bytes (c ∷ s) = utf8 c ++ as_bytes s

-- `strip_prefix`, over the code points.
unfoldable pub starts_with : Str → Str → Bool
starts_with [] s = true
starts_with (c ∷ p) [] = false
starts_with (c ∷ p) (d ∷ s) = c == d && starts_with p s

unfoldable pub strip_prefix : Str → Str → Option Str
strip_prefix p s = if starts_with p s then some (drop (length p) s) else none

-- `split(p)`: the pieces between separators; the text of no characters has one empty piece.
push_front : ℕ → List Str → List Str
push_front c [] = (c ∷ []) ∷ []
push_front c (piece ∷ pieces) = (c ∷ piece) ∷ pieces

unfoldable pub split : (ℕ → Bool) → Str → List Str
unfolding push_front
split p [] = [] ∷ []
split p (c ∷ s) = let rest = split p s in if p c then [] ∷ rest else push_front c rest

-- `replace`: the occurrences of a pattern from the left, none inside another. The first number
-- is how many characters of an occurrence are still to be left out.
replace_from : ℕ → Str → Str → Str → Str
replace_from skip pattern new [] = []
replace_from (suc skip) pattern new (c ∷ s) = replace_from skip pattern new s
replace_from zero pattern new (c ∷ s) =
    let kept = replace_from zero pattern new s in
    let rest = replace_from (length pattern - 1) pattern new s in
    if starts_with pattern (c ∷ s) then new ++ rest else c ∷ kept

unfoldable pub replace : Str → Str → Str → Str
unfolding replace_from
replace s pattern new = replace_from zero pattern new s

-- `Display` of an unsigned number. The number itself is fuel enough.
unfoldable pub digits : ℕ → ℕ → Str → Str
digits zero n out = (b'0' + n % 10) ∷ out
digits (suc fuel) n out =
    let more = digits fuel (n / 10) ((b'0' + n % 10) ∷ out) in
    if ltb n 10 then (b'0' + n) ∷ out else more

unfoldable pub show_nat : ℕ → Str
unfolding digits
show_nat n = digits n n []

-- `u64::to_be_bytes` and `u64::from_be_bytes`.
unfoldable pub to_be_bytes : ℕ → Bytes
to_be_bytes n =
    (n / 2 ^ 56 % 256)
    ∷ (n / 2 ^ 48 % 256)
    ∷ (n / 2 ^ 40 % 256)
    ∷ (n / 2 ^ 32 % 256)
    ∷ (n / 2 ^ 24 % 256)
    ∷ (n / 2 ^ 16 % 256)
    ∷ (n / 2 ^ 8 % 256)
    ∷ (n % 256)
    ∷ []

be_from : ℕ → Bytes → ℕ
be_from acc [] = acc
be_from acc (b ∷ bs) = be_from (acc * 256 + b) bs

unfoldable pub from_be_bytes : Bytes → ℕ
unfolding be_from
from_be_bytes bs = be_from 0 bs

-- The largest `u64`, and addition that stops there (`saturating_add`).
abbrev pub u64_max : ℕ
u64_max = 18446744073709551615

unfoldable pub saturating_add : ℕ → ℕ → ℕ
saturating_add a b = if leb (a + b) u64_max then a + b else u64_max

-- The text stands in the list.
abbrev pub AmongTexts : Str → List Str → Type 0
AmongTexts v [] = ⊥
AmongTexts v (w ∷ values) = (w ≡ v) ⊎ AmongTexts v values
