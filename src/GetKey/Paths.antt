-- ===== src/GetKey/Paths.antt =====
-- mero-kms/src/handlers/get_key.rs, `key_path_for_peer`: keys of two roles, or of two peers, are
-- derived at different paths.
use mero_tee.Prelude.{
  ◌≡◌, refl, sym, ap, ◌∙◌, true, [], ◌∷◌, ◌++◌, length, all, arith, length-append, take-append,
  take, ◌==◌,
}
use mero_tee.Text.{Str, trim_matches}
use mero_tee.Policy.{Role, node, agent}
use mero_tee.PeerId.{is_base58}
use mero_tee.Config.{Config}
use mero_tee.GetKey.{key_path_for_peer}

-- The namespace of a role, without the slashes around it.
unfoldable pub namespace_of : Config → Role → Str
namespace_of config node = trim_matches (λ c. c == b'/') config.key_namespace_prefix
namespace_of config agent = trim_matches (λ c. c == b'/') config.agent_key_namespace_prefix

path_parts :
    (config : Config) (role : Role) (peer : Str)
    → key_path_for_peer config role peer
      ≡ namespace_of config role ++ (b'/' ∷ config.kms_profile ++ (b'/' ∷ peer))
unfolding key_path_for_peer namespace_of
path_parts config node peer = refl
path_parts config agent peer = refl

no_slash : (a : Str) (p : Str) → all is_base58 (a ++ b'/' ∷ p) ≡ true → ⊥
unfolding is_base58
no_slash [] p h = ground arith
no_slash (x ∷ a) p h = no_slash a p (ground arith)

-- What stands before and after the last slash.
last_slash :
    (a b p q : Str)
    → all is_base58 p ≡ true
    → all is_base58 q ≡ true
    → a ++ (b'/' ∷ p) ≡ b ++ (b'/' ∷ q)
    → (a ≡ b) × (p ≡ q)
last_slash [] [] p q hp hq e = (refl, cc)
last_slash [] (y ∷ b) p q hp hq e =
    let tail : p ≡ b ++ b'/' ∷ q = cc in absurd (no_slash b q (rw (sym tail) hp))
last_slash (x ∷ a) [] p q hp hq e =
    let tail : a ++ b'/' ∷ p ≡ q = cc in absurd (no_slash a p (rw tail hq))
last_slash (x ∷ a) (y ∷ b) p q hp hq e =
    let head : x ≡ y = cc in
    let tail : a ++ b'/' ∷ p ≡ b ++ b'/' ∷ q = cc in
    let (same, rest) = last_slash a b p q hp hq tail in (cc, rest)

append_assoc : (a b c : Str) → (a ++ b) ++ c ≡ a ++ (b ++ c)
append_assoc [] b c = refl
append_assoc (x ∷ a) b c = ap (◌∷◌ x) (append_assoc a b c)

append_cancel : (a b s : Str) → a ++ s ≡ b ++ s → a ≡ b
append_cancel a b s h =
    let sizes : length b ≡ length a =
      omega (arith, length-append a s, length-append b s, ap length h) in
    sym (take-append a s (length a) refl)
    ∙ ap (take (length a)) h
    ∙ take-append b s (length a) sizes

-- Two peer ids of the base58 alphabet and two roles have one key path only if the peer ids are
-- equal and the roles' namespaces are, without the slashes around them.
pub key_path_for_peer-injective :
    (config : Config) (r r' : Role) (p q : Str)
    → all is_base58 p ≡ true
    → all is_base58 q ≡ true
    → key_path_for_peer config r p ≡ key_path_for_peer config r' q
    → (p ≡ q) × (namespace_of config r ≡ namespace_of config r')
key_path_for_peer-injective config r r' p q hp hq e =
    let front = namespace_of config r ++ b'/' ∷ config.kms_profile in
    let front' = namespace_of config r' ++ b'/' ∷ config.kms_profile in
    let whole : front ++ (b'/' ∷ p) ≡ front' ++ (b'/' ∷ q) =
      append_assoc (namespace_of config r) (b'/' ∷ config.kms_profile) (b'/' ∷ p)
      ∙ sym (path_parts config r p)
      ∙ e
      ∙ path_parts config r' q
      ∙ sym (append_assoc (namespace_of config r') (b'/' ∷ config.kms_profile) (b'/' ∷ q)) in
    let (same, peers) = last_slash front front' p q hp hq whole in
    (
      peers,
      append_cancel (namespace_of config r) (namespace_of config r') (b'/' ∷ config.kms_profile)
          same,
    )
