-- ===== src/Cluster/Given.antt =====
-- mero-kms/src/cluster.rs, `join_handler`: what a joiner that is given the root has passed.
use mero_tee.Prelude.{
  ℕ, ◌≤◌, ◌≡◌, refl, sym, ◌∙◌, ap, false, none, some, [], ◌∷◌, ◌++◌, length, take, drop, leb,
  length-append, length-take, take-append-drop, arith, inl, inr, Bool-cases, Option-cases,
}
use mero_tee.Text.{Str, Bytes, lit, from_be_bytes}
use mero_tee.Errors.{ServiceError, ok, Result-cases}
use mero_tee.Crypto.{Crypto, MacLaws}
use mero_tee.Map.{get, contains_key, retain}
use mero_tee.Map.Order.{list_ord}
use mero_tee.Map.Laws.{IsSorted, kept, get-retain, get-insert_self}
use mero_tee.Attest.{decode_fixed_b64_32}
use mero_tee.Cluster.{
  Messages, JoinNonces, open_nonce, spend, join_binding, join_domain, join_nonce_domain, tag,
  differ, verify_peer,
}
use mero_tee.Cluster.Trusted.{IsPeerQuote, verify_peer-IsPeerQuote}
use mero_tee.Attest.Fixed.{decode_fixed_b64_32-eq-ok}
use mero_tee.Cluster.Join.{Giving, JoinRequest, JoinResponse, join_handler, require_peer}
use mero_tee.State.{AppState}

differ_no :
    (ours theirs : Bytes) → length ours ≡ length theirs → differ ours theirs ≡ false → ours ≡ theirs
unfolding differ
differ_no [] [] same h = refl
differ_no [] (b ∷ theirs) same h = absurd (omega arith)
differ_no (a ∷ ours) [] same h = absurd (omega arith)
differ_no (a ∷ ours) (b ∷ theirs) same h = ground (arith, differ_no ours theirs)

spend-first :
    (self : JoinNonces) (nonce : Bytes) (expires_at now : ℕ)
    → IsSorted self.spent
    → (spend self nonce expires_at now).1 ≡ ok tt
    → (kept (λ expiry. leb now expiry) (get self.spent nonce) ≡ none)
      × (get (spend self nonce expires_at now).0.spent nonce ≡ some expires_at)
unfolding spend contains_key
spend-first self nonce expires_at now sorted h =
    let rest = retain (λ expiry. leb now expiry) self.spent in
    let same = get-retain (λ expiry. leb now expiry) self.spent nonce sorted in
    elim (Option-cases (get rest nonce)) [
      | inl absent ↦ (sym same ∙ absent, get-insert_self rest nonce expires_at)
      | inr (v, there) ↦ absurd (ground arith)
    ]

module _ (c : Crypto) (messages : Messages) (show_error : ServiceError → Str) where
  -- The steps of the handler up to the giving.
  record Steps (g : Giving) (request : JoinRequest) (s s' : AppState) : Type 0 where
    nonce : Bytes
    joiner_public : Bytes
    quote_bytes : Bytes
    opened_at : ℕ
    spent_at : ℕ
    expires_at : ℕ
    nonce_decodes : decode_fixed_b64_32 c (lit "nonceB64") request.nonce_b64 ≡ ok nonce
    public_decodes :
        decode_fixed_b64_32 c (lit "joinerPublicB64") request.joiner_public_b64 ≡ ok joiner_public
    quote_decodes : c.base64_decode request.quote_b64 ≡ ok quote_bytes
    opening_read : g.opened_at ≡ ok opened_at
    spending_read : g.spent_at ≡ ok spent_at
    opened : open_nonce c s.join_nonces nonce opened_at ≡ ok expires_at
    verified :
        verify_peer c messages g.verify s.backend s.config.attestation_policy quote_bytes nonce
          (join_binding c joiner_public)
        ≡ ok tt
    unspent : (spend s.join_nonces nonce expires_at spent_at).1 ≡ ok tt
    spends : s'.join_nonces ≡ (spend s.join_nonces nonce expires_at spent_at).0

  join_handler-Steps :
      (g : Giving) (request : JoinRequest) (s s' : AppState) (response : JoinResponse)
      → join_handler c messages show_error g request s ≡ (s', ok response)
      → Steps g request s s'
  unfolding join_handler require_peer
  join_handler-Steps g request s s' response h =
      elim (Result-cases (decode_fixed_b64_32 c (lit "nonceB64") request.nonce_b64)) [
        | inr (e, f) ↦ absurd (ground arith)
        | inl (nonce, nonce_is) ↦ elim (Result-cases g.opened_at) [
          | inr (e, f) ↦ absurd (ground arith)
          | inl (opened_at, read) ↦
              elim (Result-cases (open_nonce c s.join_nonces nonce opened_at)) [
                | inr (e, f) ↦ absurd (ground arith)
                | inl (expires_at, opened) ↦
                    elim (Result-cases
                      (decode_fixed_b64_32 c (lit "joinerPublicB64") request.joiner_public_b64)) [
                        | inr (e, f) ↦ absurd (ground arith)
                        | inl (joiner_public, public_is) ↦
                            elim (Result-cases (c.base64_decode request.quote_b64)) [
                              | inr (e, f) ↦ absurd (ground arith)
                              | inl (quote_bytes, quote_is) ↦
                                  elim (Result-cases (
                                    verify_peer c messages g.verify s.backend
                                      s.config.attestation_policy quote_bytes nonce
                                      (join_binding c joiner_public))) [
                                        | inr (e, f) ↦ absurd (ground arith)
                                        | inl (u, verified) ↦ elim (Result-cases g.spent_at) [
                                          | inr (e, f) ↦ absurd (ground arith)
                                          | inl (spent_at, read_again) ↦
                                              elim (Result-cases
                                                (spend s.join_nonces nonce expires_at spent_at).1) [
                                                  | inr (e, f) ↦ absurd (ground arith)
                                                  | inl (v, unspent) ↦ record {
                                                    nonce = nonce;
                                                    joiner_public = joiner_public;
                                                    quote_bytes = quote_bytes;
                                                    opened_at = opened_at;
                                                    spent_at = spent_at;
                                                    expires_at = expires_at;
                                                    nonce_decodes = nonce_is;
                                                    public_decodes = public_is;
                                                    quote_decodes = quote_is;
                                                    opening_read = read;
                                                    spending_read = read_again;
                                                    opened = opened;
                                                    verified = verified;
                                                    unspent = unspent;
                                                    spends = ground arith;
                                                  }
                                                ]
                                        ]
                                      ]
                            ]
                      ]
              ]
        ]
      ]

  -- A nonce that this replica issued: its second half is the tag that this replica's key gives to its
  -- first, which holds its expiry.
  pub record IsIssued (self : JoinNonces) (nonce : Bytes) (moment expires_at : ℕ) : Type 0 where
    pub body : Bytes
    pub body_sized : length body ≡ 16
    pub tagged : nonce ≡ body ++ take 16 (c.hmac self.key (join_nonce_domain ++ body))
    pub expiry_is : expires_at ≡ from_be_bytes (drop 8 body)
    pub fresh : moment ≤ expires_at

  open_nonce-IsIssued :
      (laws : MacLaws c) (self : JoinNonces) (nonce : Bytes) (moment expires_at : ℕ)
      → length nonce ≡ 32
      → open_nonce c self nonce moment ≡ ok expires_at
      → IsIssued self nonce moment expires_at
  unfolding open_nonce tag
  open_nonce-IsIssued laws self nonce moment expires_at sized h =
      let body = take 16 nonce in
      let tail = drop 16 nonce in
      let given = c.hmac self.key (join_nonce_domain ++ body) in
      let whole : body ++ tail ≡ nonce = take-append-drop 16 nonce in
      let head : length body ≡ 16 = length-take 16 nonce (omega arith) in
      let long : length (take 16 given) ≡ 16 =
        length-take 16 given (omega (arith, laws.tag_len self.key (join_nonce_domain ++ body))) in
      let rest : length tail ≡ 16 = omega (arith, head, ap length whole, length-append body tail) in
      elim (Bool-cases (differ (take 16 given) tail)) [
        | inl other ↦ absurd (ground arith)
        | inr same ↦ record {
          body = body;
          body_sized = head;
          tagged =
              sym whole
              ∙ ap (λ t. body ++ t) (sym (differ_no (take 16 given) tail (long ∙ sym rest) same));
          expiry_is = ground arith;
          fresh = ground arith;
        }
      ]

  -- What a joiner that was given the root has passed: its nonce was issued by this replica and had
  -- neither expired nor been spent, and is spent now; and its quote, over that nonce and its one-time
  -- key, is a peer's.
  pub record IsGiven (g : Giving) (request : JoinRequest) (s s' : AppState) : Type 0 where
    pub nonce : Bytes
    pub joiner_public : Bytes
    pub quote_bytes : Bytes
    pub opened_at : ℕ
    pub spent_at : ℕ
    pub expires_at : ℕ
    pub nonce_decodes : c.base64_decode request.nonce_b64 ≡ ok nonce
    pub public_decodes : c.base64_decode request.joiner_public_b64 ≡ ok joiner_public
    pub public_sized : length joiner_public ≡ 32
    pub quote_decodes : c.base64_decode request.quote_b64 ≡ ok quote_bytes
    pub opening_read : g.opened_at ≡ ok opened_at
    pub spending_read : g.spent_at ≡ ok spent_at
    pub issued : IsIssued s.join_nonces nonce opened_at expires_at
    pub attested :
        IsPeerQuote c messages g.verify s.backend s.config.attestation_policy quote_bytes nonce
          (c.sha256 (join_domain ++ joiner_public))
    pub unspent : kept (λ expiry. leb spent_at expiry) (get s.join_nonces.spent nonce) ≡ none
    pub spent : get s'.join_nonces.spent nonce ≡ some expires_at

  -- A replica gives its root only to a joiner whose nonce carries the tag of this replica's own key
  -- and had neither expired nor been spent, and whose quote, over that nonce and the joiner's one-time
  -- key, is that of a TD with this replica's measurements, an allowed TCB status and no debug bit;
  -- the nonce is then remembered as spent.
  pub join_handler-gives :
      (laws : MacLaws c) (g : Giving) (request : JoinRequest) (s s' : AppState)
      (response : JoinResponse)
      → IsSorted s.join_nonces.spent
      → join_handler c messages show_error g request s ≡ (s', ok response)
      → IsGiven g request s s'
  unfolding join_binding
  join_handler-gives laws g request s s' response sorted h =
      let t = join_handler-Steps g request s s' response h in
      let (nonce_decodes, nonce_sized) =
        decode_fixed_b64_32-eq-ok c (lit "nonceB64") request.nonce_b64 t.nonce t.nonce_decodes in
      let (public_decodes, public_sized) =
        decode_fixed_b64_32-eq-ok c (lit "joinerPublicB64") request.joiner_public_b64
          t.joiner_public t.public_decodes in
      let (unspent, spent) =
        spend-first s.join_nonces t.nonce t.expires_at t.spent_at sorted t.unspent in
      record {
        nonce = t.nonce;
        joiner_public = t.joiner_public;
        quote_bytes = t.quote_bytes;
        opened_at = t.opened_at;
        spent_at = t.spent_at;
        expires_at = t.expires_at;
        nonce_decodes = nonce_decodes;
        public_decodes = public_decodes;
        public_sized = public_sized;
        quote_decodes = t.quote_decodes;
        opening_read = t.opening_read;
        spending_read = t.spending_read;
        issued =
            open_nonce-IsIssued laws s.join_nonces t.nonce t.opened_at t.expires_at nonce_sized
              t.opened;
        attested =
            verify_peer-IsPeerQuote c messages g.verify s.backend s.config.attestation_policy
              t.quote_bytes t.nonce _ t.verified;
        unspent = unspent;
        spent = ap (λ (n : JoinNonces). get n.spent t.nonce) t.spends ∙ spent;
      }
