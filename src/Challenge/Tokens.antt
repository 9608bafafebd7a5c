-- ===== src/Challenge/Tokens.antt =====
-- mero-kms/src/stateless_challenge.rs, `issue` and `open`: what opens, and to what.
use mero_tee.Prelude.{
  ℕ, ◌≤◌, ◌≡◌, refl, ap, sym, ◌∙◌, true, some, ◌++◌, length, take, drop, arith, take-append-drop,
  take-append, drop-append, length-append, inl, inr, Option-cases, Bool-cases, if◌then◌else◌, leb,
}
use mero_tee.Text.{Str, Bytes, as_bytes, to_be_bytes, from_be_bytes, saturating_add, u64_max}
use mero_tee.Text.Laws.{length-to_be_bytes, from_be_bytes-to_be_bytes}
use mero_tee.Errors.{ok, err}
use mero_tee.Crypto.{Crypto, CodecLaws, MacLaws}
use mero_tee.Challenge.{
  issue, open_id, mac, nonce, body_of, decode_id, tag_domain, random_bytes, body_bytes,
  clock_skew_secs, expired, too_late,
}

module _ (c : Crypto) (codec : CodecLaws c) (laws : MacLaws c) where
  length-body :
      (random : Bytes) (expires_at : ℕ)
      → length random ≡ 16
      → length (body_of c random expires_at) ≡ 24
  unfolding body_of
  length-body random expires_at h =
      length-append random (to_be_bytes expires_at) ∙ omega (arith, length-to_be_bytes expires_at)

  length-mac : (key dom body : Bytes) (peer_id : Str) → length (mac c key dom body peer_id) ≡ 32
  unfolding mac
  length-mac key dom body peer_id = laws.tag_len key (dom ++ (body ++ as_bytes peer_id))

  decode-issue :
      (key random : Bytes) (peer_id : Str) (expires_at : ℕ)
      → length random ≡ 16
      → decode_id c (issue c key random peer_id expires_at).0
        ≡ some (
            body_of c random expires_at
            ++ mac c key tag_domain (body_of c random expires_at) peer_id)
  unfolding issue decode_id
  decode-issue key random peer_id expires_at h =
      let body = body_of c random expires_at in
      let id = body ++ mac c key tag_domain body peer_id in
      let size : length id ≡ 56 =
        length-append body (mac c key tag_domain body peer_id)
        ∙ omega (arith, length-body random expires_at h, length-mac key tag_domain body peer_id) in
      rw (codec.hex id, decode_id) (ground (arith, size))

  -- A challenge that one replica issued, from 16 random bytes and with an expiry of 64 bits, opens on
  -- every replica with the key, to the nonce and the expiry it was issued with, as long as it is
  -- fresh there; where the clocks differ so that it is not, it is refused as expired or too late.
  pub open_id-issue :
      (key random : Bytes) (peer_id : Str) (expires_at now ttl_secs : ℕ)
      → length random ≡ 16
      → expires_at ≤ u64_max
      → open_id c key (issue c key random peer_id expires_at).0 peer_id now ttl_secs ≡ (
          if leb now expires_at
          then if leb expires_at (saturating_add (saturating_add now ttl_secs) clock_skew_secs)
            then ok ((issue c key random peer_id expires_at).1, expires_at)
            else err too_late
          else err expired)
  unfolding open_id
  open_id-issue key random peer_id expires_at now ttl_secs h fits =
      let body = body_of c random expires_at in
      let tag = mac c key tag_domain body peer_id in
      let body_is : take body_bytes (body ++ tag) ≡ body =
        take-append body tag 24 (length-body random expires_at h) in
      let tag_is : drop body_bytes (body ++ tag) ≡ tag =
        drop-append body tag 24 (length-body random expires_at h) in
      let expiry_is : drop random_bytes body ≡ to_be_bytes expires_at =
        unfold body_of in drop-append random (to_be_bytes expires_at) 16 h in
      let accepted : c.hmac_verify key (tag_domain ++ (body ++ as_bytes peer_id)) tag ≡ true =
        (laws.verify key (tag_domain ++ (body ++ as_bytes peer_id)) tag).1 (unfold mac in refl) in
      rw (decode-issue key random peer_id expires_at h) (
        rw (body_is, tag_is, expiry_is, from_be_bytes-to_be_bytes expires_at fits, accepted)
          (unfold issue in ground arith))

  -- An id that opens carries the tag that this cluster's key gives to its body and this peer, and
  -- its expiry is not past and no later than this replica would issue; the nonce is the body's.
  pub open_id-eq-ok :
      (key : Bytes) (challenge_id peer_id : Str) (now ttl_secs : ℕ) {n : Bytes} {expires_at : ℕ}
      → open_id c key challenge_id peer_id now ttl_secs ≡ ok (n, expires_at)
      → (body : Bytes) × (decode_id c challenge_id
          ≡ some (body ++ mac c key tag_domain body peer_id))
        × (n ≡ nonce c key body peer_id)
        × (expires_at ≡ from_be_bytes (drop random_bytes body))
        × (now ≤ expires_at)
        × (expires_at ≤ saturating_add (saturating_add now ttl_secs) clock_skew_secs)
  unfolding open_id
  open_id-eq-ok key challenge_id peer_id now ttl_secs {n} {expires_at} h =
      elim (Option-cases (decode_id c challenge_id)) [
        | inl malformed_id ↦ absurd (ground arith)
        | inr (id, found) ↦
            let body = take body_bytes id in
            let tag = drop body_bytes id in
            elim (Bool-cases (c.hmac_verify key (tag_domain ++ (body ++ as_bytes peer_id)) tag)) [
              | inl accepted ↦
                  let genuine : tag ≡ mac c key tag_domain body peer_id =
                    unfold mac in
                    (laws.verify key (tag_domain ++ (body ++ as_bytes peer_id)) tag).0 accepted in
                  let whole : body ++ mac c key tag_domain body peer_id ≡ id =
                    ap (λ t. body ++ t) (sym genuine) ∙ take-append-drop body_bytes id in
                  (
                    body,
                    found ∙ ap some (sym whole),
                    ground arith,
                    ground arith,
                    ground arith,
                    ground arith,
                  )
              | inr forged ↦ absurd (ground arith)
            ]
      ]
