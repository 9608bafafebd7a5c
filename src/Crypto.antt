-- ===== src/Crypto.antt =====
-- What the program takes from other crates (base64, hex, ring, sha2, curve25519-dalek): the
-- functions are arguments of the model, and the laws are the documented behaviour of each that
-- a theorem names where it needs it.
use mero_tee.Prelude.{
  ◌≡◌, ◌↔◌, Bool, true, Option, some, length, sym, ◌∙◌, ◌≢◌, ◌⊎◌, inl, inr, list_eq, list_eq_iff,
  false≢true, Bool-cases,
}
use mero_tee.Text.{Str, Bytes}
use mero_tee.Errors.{Result, ok}

pub record Crypto : Type 0 where
  -- crate hex
  pub hex_encode : Bytes → Str
  pub hex_decode : Str → Option Bytes
  -- crate base64; an error comes with its text
  pub base64_encode : Bytes → Str
  pub base64_decode : Str → Result Str Bytes
  -- crate ring: HMAC-SHA256 (key, message), and its constant-time check (key, message, tag)
  pub hmac : Bytes → Bytes → Bytes
  pub hmac_verify : Bytes → Bytes → Bytes → Bool
  -- crate sha2
  pub sha256 : Bytes → Bytes
  -- crate ring: HKDF-SHA256 of 32 bytes (salt, secret, info)
  pub hkdf : Bytes → Bytes → Bytes → Bytes
  -- crate curve25519-dalek: the base point times a secret, and a point times a secret
  pub mul_base_clamped : Bytes → Bytes
  pub mul_clamped : Bytes → Bytes → Bytes
  -- crate ring: AES-256-GCM (key, nonce, associated data, text)
  pub aead_seal : Bytes → Bytes → Bytes → Bytes → Option Bytes
  pub aead_open : Bytes → Bytes → Bytes → Bytes → Option Bytes

-- Decoding undoes encoding.
pub record CodecLaws (c : Crypto) : Type 0 where
  pub hex : (b : Bytes) → c.hex_decode (c.hex_encode b) ≡ some b
  pub base64 : (b : Bytes) → c.base64_decode (c.base64_encode b) ≡ ok b

-- `hmac::verify` accepts exactly the tag that `hmac::sign` gives, which has 32 bytes.
pub record MacLaws (c : Crypto) : Type 0 where
  pub verify : (k m t : Bytes) → (c.hmac_verify k m t ≡ true) ↔ (t ≡ c.hmac k m)
  pub tag_len : (k m : Bytes) → length (c.hmac k m) ≡ 32

-- An X25519 exchange agrees on both sides, and what AES-256-GCM sealed opens to the text.
pub record SealLaws (c : Crypto) : Type 0 where
  pub agree :
      (a b : Bytes)
      → c.mul_clamped (c.mul_base_clamped a) b ≡ c.mul_clamped (c.mul_base_clamped b) a
  pub open_seal :
      (key nonce aad plain sealed : Bytes)
      → c.aead_seal key nonce aad plain ≡ some sealed
      → c.aead_open key nonce aad sealed ≡ some plain

-- Two texts that SHA-256 does not tell apart.
pub Collision : Crypto → Type 0
Collision c = (x : Bytes) × (y : Bytes) × (x ≢ y) × (c.sha256 x ≡ c.sha256 y)

pub same_or_Collision : (c : Crypto) (x y : Bytes) → c.sha256 x ≡ c.sha256 y → (x ≡ y) ⊎ Collision c
unfolding Collision
same_or_Collision c x y h = elim (Bool-cases (list_eq x y)) [
  | inl equal ↦ inl ((list_eq_iff x y).0 equal)
  | inr differ ↦ inr (x, y, λ e. false≢true (sym differ ∙ (list_eq_iff x y).1 e), h)
]

-- Two texts that differ hash apart, or are a collision.
pub apart_or_Collision :
    (c : Crypto) (x y : Bytes) → x ≢ y → (c.sha256 x ≢ c.sha256 y) ⊎ Collision c
unfolding Collision
apart_or_Collision c x y differ = elim (Bool-cases (list_eq (c.sha256 x) (c.sha256 y))) [
  | inl equal ↦ inr (x, y, differ, (list_eq_iff (c.sha256 x) (c.sha256 y)).0 equal)
  | inr apart ↦ inl (λ e. false≢true (sym apart ∙ (list_eq_iff (c.sha256 x) (c.sha256 y)).1 e))
]
