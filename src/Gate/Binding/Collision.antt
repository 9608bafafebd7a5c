-- ===== src/Gate/Binding/Collision.antt =====
-- mero-inference-gate/src/attest.rs: two bindings agree only on the same inputs, or where SHA-256
-- has a collision.
use mero_tee.Prelude.{
  ◌≡◌, refl, sym, ◌∙◌, ap, ◌⊎◌, inl, inr, Option, ◌++◌, length, take, drop, take-append,
  drop-append,
}
use mero_tee.Text.{Str, Bytes}
use mero_tee.Crypto.{Crypto, Collision, same_or_Collision}
use mero_tee.Gate.Binding.{binding, gpu_bytes, gate_attest_domain}

-- A split of two joined texts at one length.
append_injective : (a b x y : Bytes) → length a ≡ length b → a ++ x ≡ b ++ y → (a ≡ b) × (x ≡ y)
append_injective a b x y sizes h = (
  sym (take-append a x (length a) refl)
      ∙ ap (take (length a)) h
      ∙ take-append b y (length a) (sym sizes),
  sym (drop-append a x (length a) refl)
      ∙ ap (drop (length a)) h
      ∙ drop-append b y (length a) (sym sizes),
)

-- Two bindings over a certificate's key and a configuration's digest of 32 bytes each are the same
-- only if key, digest and the bytes of the GPU evidence are, or else the proof shows two different
-- texts with one SHA-256.
pub binding-Collision :
    (c : Crypto) (spki spki' config config' : Bytes) (gpu gpu' : Option Str)
    → length spki ≡ 32
    → length spki' ≡ 32
    → length config ≡ 32
    → length config' ≡ 32
    → binding c spki config gpu ≡ binding c spki' config' gpu'
    → ((spki ≡ spki') × (config ≡ config') × (gpu_bytes gpu ≡ gpu_bytes gpu')) ⊎ Collision c
unfolding binding
binding-Collision c spki spki' config config' gpu gpu' n n' m m' h =
    elim (same_or_Collision c _ _ h) [
      | inr found ↦ inr found
      | inl whole ↦
          let (_, inputs) = append_injective gate_attest_domain gate_attest_domain _ _ refl whole in
          let (keys, rest) = append_injective spki spki' _ _ (n ∙ sym n') inputs in
          let (digests, hashes) = append_injective config config' _ _ (m ∙ sym m') rest in
          elim (same_or_Collision c (gpu_bytes gpu) (gpu_bytes gpu') hashes) [
            | inl texts ↦ inl (keys, digests, texts)
            | inr found ↦ inr found
          ]
    ]
