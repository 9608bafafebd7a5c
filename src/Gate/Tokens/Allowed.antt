-- ===== src/Gate/Tokens/Allowed.antt =====
-- mero-inference-gate/src/tokens.rs: exactly the bearers of a listed token are allowed.
use mero_tee.Prelude.{
  ◌≡◌, refl, sym, ◌∙◌, ap, subst, ◌↔◌, ◌⊎◌, inl, inr, ◌≢◌, Bool, true, false, not, ◌||◌, Option,
  none, some, List, [], ◌∷◌, ◌++◌, any, is_empty, length, list_eq, list_eq_iff, ◌==◌, arith,
  Bool-cases, Option-cases, ||-eq-true, &&-eq-true, false≢true, ◌&&◌,
}
use mero_tee.Text.{AmongTexts, Str, Bytes, trim, as_bytes}
use mero_tee.Errors.{ok, >>=-eq-ok, ok-injective}
use mero_tee.Crypto.{Crypto}
use mero_tee.Gate.Tokens.{
  Tokens, contains_hash, insert_hash, token_values, parse_hash, insert_all, parse_tokens, bearer,
  allows,
}

any-append : (p : Bytes → Bool) (a b : List Bytes) → any p (a ++ b) ≡ (any p a || any p b)
any-append p [] b = refl
any-append p (x ∷ a) b = ground (arith, any-append p a b)

-- The set after an insertion holds what it held, and the new hash.
contains_hash-insert_hash :
    (x hash : Bytes) (hashes : List Bytes)
    → (contains_hash (insert_hash hash hashes) x ≡ true)
      ↔ ((x ≡ hash) ⊎ (contains_hash hashes x ≡ true))
unfolding contains_hash insert_hash
contains_hash-insert_hash x hash hashes = elim (Bool-cases (any (list_eq hash) hashes)) [
  | inl there ↦
      let kept : insert_hash hash hashes ≡ hashes = rw (insert_hash, there) refl in
      (
        λ h. inr (subst (λ s. any (list_eq x) s ≡ true) kept h),
        λ o.
            subst (λ s. any (list_eq x) s ≡ true) (sym kept)
              (elim o [
                | inl e ↦ subst (λ y. any (list_eq y) hashes ≡ true) (sym e) there
                | inr h ↦ h
              ]),
      )
  | inr new ↦
      let added : insert_hash hash hashes ≡ hashes ++ hash ∷ [] = rw (insert_hash, new) refl in
      let parts = any-append (list_eq x) hashes (hash ∷ []) in
      let (sound, complete) = list_eq_iff x hash in
      subst (λ s. (any (list_eq x) s ≡ true) ↔ ((x ≡ hash) ⊎ (any (list_eq x) hashes ≡ true)))
        (sym added)
        (
          λ h.
              elim (||-eq-true (any (list_eq x) hashes) (list_eq x hash || false) (sym parts ∙ h)) [
                | inl old ↦ inr old
                | inr last ↦ inl (sound (ground arith))
              ],
          λ o.
              parts
              ∙ elim o [ inl e ↦ (let last = complete e in ground arith) | inr old ↦ ground arith ],
        )
]

-- The token that an `Authorization` value shows after `Bearer `, trimmed.
pub Shows : Option Str → Str → Type 0
Shows authorization token =
    (raw : Str) × (bearer authorization ≡ some raw) × (token ≡ trim raw) × (token ≢ [])

is_empty-not : (s : Str) → s ≢ [] → is_empty s ≡ false
is_empty-not [] h = absurd (h refl)
is_empty-not (x ∷ s) h = refl

nothing_held : (x : Bytes) → contains_hash [] x ≡ true → ⊥
unfolding contains_hash
nothing_held x h = false≢true h

module _ (c : Crypto) where
  -- The value is one of the list's, and decodes to the hash.
  pub IsListed : List Str → Bytes → Type 0
  IsListed values x = (v : Str) × AmongTexts v values × (c.hex_decode v ≡ some x)

  parse_hash-eq-ok :
      (v : Str) (x : Bytes)
      → parse_hash c v ≡ ok x
      → (c.hex_decode v ≡ some x) × ((length x == 32) ≡ true)
  unfolding parse_hash
  parse_hash-eq-ok v x h = elim (Option-cases (c.hex_decode v)) [
    | inl bad ↦ absurd (ground arith)
    | inr (bytes, decoded) ↦ ground arith
  ]

  insert_all_iff :
      (hashes : List Bytes) (values : List Str) (out : List Bytes) (x : Bytes)
      → insert_all c hashes values ≡ ok out
      → (contains_hash out x ≡ true) ↔ ((contains_hash hashes x ≡ true) ⊎ IsListed values x)
  unfolding insert_all IsListed
  insert_all_iff hashes [] out x h =
      subst (λ s. (contains_hash s x ≡ true) ↔ ((contains_hash hashes x ≡ true) ⊎ IsListed [] x))
        (ok-injective h)
        (
          λ held. inl held,
          λ o. elim o [ inl held ↦ held | inr (v, none_there, d) ↦ absurd none_there ],
        )
  insert_all_iff hashes (value ∷ values) out x h =
      let (hash, parsed, rest) = >>=-eq-ok (parse_hash c value) _ h in
      let (decoded, _) = parse_hash-eq-ok value hash parsed in
      let later = insert_all_iff (insert_hash hash hashes) values out x rest in
      let here = contains_hash-insert_hash x hash hashes in
      (
        λ found. elim (later.0 found) [
          | inr (v, among, listed) ↦ inr (v, inr among, listed)
          | inl inside ↦ elim (here.0 inside) [
            | inl same ↦ inr (value, inl refl, decoded ∙ ap some (sym same))
            | inr held ↦ inl held
          ]
        ],
        λ o. elim o [
          | inl held ↦ later.1 (inl (here.1 (inr held)))
          | inr (v, inl first, listed) ↦
              let same : x ≡ hash = cc in later.1 (inl (here.1 (inl same)))
          | inr (v, inr among, listed) ↦ later.1 (inr (v, among, listed))
        ],
      )

  refused :
      (tokens : Tokens) (authorization : Option Str)
      → bearer authorization ≡ none
      → allows c tokens authorization ≡ false
  unfolding allows
  refused tokens authorization h = rw (allows, h) refl

  allows-bearer :
      (tokens : Tokens) (authorization : Option Str) (raw : Str)
      → bearer authorization ≡ some raw
      → allows c tokens authorization ≡ (
          not (is_empty (trim raw)) && contains_hash tokens.hashes (c.sha256 (as_bytes (trim raw))))
  unfolding allows
  allows-bearer tokens authorization raw h = rw (allows, h) refl

  listed :
      (text : Str) (tokens : Tokens)
      → parse_tokens c text ≡ ok tokens
      → (x : Bytes) → (contains_hash tokens.hashes x ≡ true) ↔ IsListed (token_values text) x
  unfolding parse_tokens
  listed text tokens h x =
      let (hashes, inserted, same) = >>=-eq-ok (insert_all c [] (token_values text)) _ h in
      let (sound, complete) =
        insert_all_iff [] (token_values text) tokens.hashes x
          (inserted ∙ ap ok (ap (λ t. t.hashes) (ok-injective same))) in
      (
        λ held. elim (sound held) [
          | inl held_before ↦ absurd (nothing_held x held_before)
          | inr found ↦ found
        ],
        λ found. complete (inr found),
      )

  -- A gate whose token list parsed allows exactly the callers who show, after `Bearer `, a token
  -- that is not empty and whose SHA-256 one value of the list spells in hex.
  pub allows_iff :
      (text : Str) (tokens : Tokens) (authorization : Option Str)
      → parse_tokens c text ≡ ok tokens
      → (allows c tokens authorization ≡ true) ↔ (
          (token : Str) × Shows authorization token
          × IsListed (token_values text) (c.sha256 (as_bytes token)))
  unfolding Shows
  allows_iff text tokens authorization h = (
    λ allowed. elim (Option-cases (bearer authorization)) [
      | inl missing ↦ absurd (false≢true (sym (refused tokens authorization missing) ∙ allowed))
      | inr (raw, shown) ↦
          let (nonempty, held) =
            &&-eq-true (not (is_empty (trim raw))) _
              (sym (allows-bearer tokens authorization raw shown) ∙ allowed) in
          (
            trim raw,
            (raw, shown, refl, λ e. false≢true (ap (λ t. not (is_empty t)) (sym e) ∙ nonempty)),
            (listed text tokens h (c.sha256 (as_bytes (trim raw)))).0 held,
          )
    ],
    λ (token, (raw, shown, same, nonempty), value).
        allows-bearer tokens authorization raw shown
        ∙ rw (is_empty-not (trim raw) (subst (λ t. t ≢ []) same nonempty)) (
            (listed text tokens h (c.sha256 (as_bytes (trim raw)))).1
              (subst (λ t. IsListed (token_values text) (c.sha256 (as_bytes t))) same value)),
  )
