-- ===== src/Rollback/Calls.antt =====
-- mero-kms/src/handlers/rollback.rs: what an acknowledgement says.
use mero_tee.Prelude.{
  ◌≡◌, refl, sym, ◌∙◌, ap, Option, none, some, ◌∷◌, ◌++◌, ◌==◌, length, arith, inl, inr, Bool-cases,
}
use mero_tee.Text.{Str, Bytes, lit, as_bytes, to_be_bytes}
use mero_tee.Errors.{Service, ok, Result-cases}
use mero_tee.Map.{get}
use mero_tee.Map.Order.{nat_ord}
use mero_tee.Crypto.{Crypto, MacLaws}
use mero_tee.Backend.{rollback_session_key}
use mero_tee.Attest.{decode_fixed_b64_32}
use mero_tee.Attest.Fixed.{decode_fixed_b64_32-eq-ok}
use mero_tee.Policy.{node}
use mero_tee.Counters.{Entry, ClusterCounters, entry_or_default, max_entry, session_key_info}
use mero_tee.Counters.Replica.{CounterJson}
use mero_tee.Counters.Ops.{raise_entry}
use mero_tee.Counters.Merge.{join}
use mero_tee.Counters.Taken.{raise_entry-raises}
use mero_tee.GetKey.{key_path_for_peer}
use mero_tee.State.{AppState}
use mero_tee.Rollback.{
  RollbackRequest, RollbackAck, Rounds, Kind, raise_call, authenticate, move_counter, acknowledge,
  answer, domain_of, decode_session_id, request_message, raise_domain, ack_domain, ack_mac,
}

module _ (c : Crypto) (j : CounterJson) where
  -- The entry that an acknowledgement names, and the one that a request asks for.
  abbrev pub acked : RollbackAck → Entry
  acked ack = record { generation = ack.generation; mark = ack.mark }

  abbrev pub asked : RollbackRequest → Entry
  asked request = record { generation = request.generation; mark = request.mark }

  answer-inv :
      (r : Rounds) (request : RollbackRequest) (kind : Kind) (s s' : AppState) (ack : RollbackAck)
      → answer c j r request kind s ≡ (s', ok ack)
      → (nonce : Bytes) × (session_key : Bytes) × (counters : ClusterCounters) × (authenticate c s
            request kind
          ≡ ok (nonce, session_key))
        × (move_counter c j r request (key_path_for_peer s.config node request.peer_id) kind s
            ≡ (s', ok counters))
        × (ack ≡ acknowledge c nonce session_key request.node_id counters)
  unfolding answer
  answer-inv r request kind s s' ack h = elim (Result-cases (authenticate c s request kind)) [
    | inr (e, refused) ↦ absurd (ground arith)
    | inl (a, passed) ↦
        let moved =
          move_counter c j r request (key_path_for_peer s.config node request.peer_id) kind s in
        elim (Result-cases moved.1) [
          | inr (e, failed) ↦ absurd (ground arith)
          | inl (counters, done) ↦ (a.0, a.1, counters, passed, ground arith, ground arith)
        ]
  ]

  raised :
      (o : Option Entry) (e : Entry)
      → join o (some e) ≡ o
      → max_entry (entry_or_default o) e ≡ entry_or_default o
  unfolding join
  raised none e h = cc
  raised (some a) e h = cc

  -- A call whose MAC verifies: under the key of the session that it names, at the path of its peer,
  -- it is that of the domain, the peer id, the node, the session, the counter asked for and the nonce.
  pub record IsAuthentic (s : AppState) (request : RollbackRequest)
      (domain nonce session_key : Bytes) : Type 0 where
    pub session_id : Bytes
    pub session_decodes : c.base64_decode request.session_id_b64 ≡ ok session_id
    pub session_sized : length session_id ≡ 16
    pub nonce_decodes : c.base64_decode request.nonce_b64 ≡ ok nonce
    pub nonce_sized : length nonce ≡ 32
    pub key_is :
        rollback_session_key c s.backend (
          session_key_info c
            (key_path_for_peer s.config node request.peer_id)
            request.node_id
            session_id)
        ≡ ok session_key
    pub mac_is :
        c.base64_decode request.mac_b64
        ≡ ok (
            c.hmac session_key (
              domain
              ++ (as_bytes request.peer_id
                  ++ (b'\n' ∷ to_be_bytes request.node_id
                      ++ (session_id
                          ++ (to_be_bytes request.generation
                              ++ (to_be_bytes request.mark ++ nonce)))))))

  decode_session_id-eq-ok :
      (value : Str) (id : Bytes)
      → decode_session_id c value ≡ ok id
      → (c.base64_decode value ≡ ok id) × (length id ≡ 16)
  unfolding decode_session_id
  decode_session_id-eq-ok value id h = elim (Result-cases (c.base64_decode value)) [
    | inr (e, f) ↦ absurd (ground arith)
    | inl (decoded, found) ↦ elim (Bool-cases (length decoded == 16)) [
      | inl sized ↦ ground arith
      | inr other ↦ absurd (ground arith)
    ]
  ]

  authenticate-IsAuthentic :
      (laws : MacLaws c) (s : AppState) (request : RollbackRequest) (kind : Kind)
      (nonce session_key : Bytes)
      → authenticate c s request kind ≡ ok (nonce, session_key)
      → IsAuthentic s request (domain_of kind) nonce session_key
  unfolding authenticate request_message
  authenticate-IsAuthentic laws s request kind nonce session_key h =
      let path = key_path_for_peer s.config node request.peer_id in
      elim (Result-cases (decode_session_id c request.session_id_b64)) [
        | inr (e, f) ↦ absurd (ground arith)
        | inl (id, id_is) ↦
            elim (Result-cases (decode_fixed_b64_32 c (lit "nonceB64") request.nonce_b64)) [
              | inr (e, f) ↦ absurd (ground arith)
              | inl (n, n_is) ↦ elim (Result-cases (c.base64_decode request.mac_b64)) [
                | inr (e, f) ↦ absurd (ground arith)
                | inl (mac, mac_is) ↦
                    elim (Result-cases (
                      rollback_session_key c s.backend
                        (session_key_info c path request.node_id id))) [
                          | inr (e, f) ↦ absurd (ground arith)
                          | inl (k, k_is) ↦
                              let same_nonce : n ≡ nonce = ground arith in
                              let same_key : k ≡ session_key = ground arith in
                              let message =
                                request_message (domain_of kind) request.peer_id request.node_id id
                                  request.generation request.mark n in
                              let genuine = (laws.verify k message mac).0 (ground arith) in
                              let (session_decodes, session_sized) =
                                decode_session_id-eq-ok request.session_id_b64 id id_is in
                              let (nonce_decodes, nonce_sized) =
                                decode_fixed_b64_32-eq-ok c (lit "nonceB64") request.nonce_b64 n
                                  n_is in
                              record {
                                session_id = id;
                                session_decodes = session_decodes;
                                session_sized = session_sized;
                                nonce_decodes = nonce_decodes ∙ ap ok same_nonce;
                                nonce_sized = rw (sym same_nonce) nonce_sized;
                                key_is = k_is ∙ ap ok same_key;
                                mac_is = rw (sym same_nonce, sym same_key) (mac_is ∙ ap ok genuine);
                              }
                        ]
              ]
            ]
      ]

  -- A raise is acknowledged only if its MAC is the one that its session's key gives to exactly what it
  -- asks. The entry that the acknowledgement names is then at least the one asked for, and the
  -- acknowledgement's own MAC is over the call's nonce and the epoch and entry that it names.
  pub answer-raises :
      (laws : MacLaws c) (r : Rounds) (request : RollbackRequest) (s s' : AppState)
      (ack : RollbackAck)
      → answer c j r request raise_call s ≡ (s', ok ack)
      → (nonce : Bytes) × (session_key : Bytes) × IsAuthentic s request raise_domain nonce
          session_key
        × (max_entry (acked ack) (asked request) ≡ acked ack)
        × (ack.mac_b64
            ≡ c.base64_encode (
                c.hmac session_key (
                  ack_domain
                  ++ (nonce
                      ++ (to_be_bytes ack.epoch
                          ++ (to_be_bytes ack.generation ++ to_be_bytes ack.mark))))))
  unfolding move_counter acknowledge domain_of ack_mac
  answer-raises laws r request s s' ack h =
      let (nonce, session_key, counters, passed, moved, is_ack) =
        answer-inv r request raise_call s s' ack h in
      let path = key_path_for_peer s.config node request.peer_id in
      let raise =
        raise_entry c j s.backend r.read_net r.net r.read_nonce r.nonce path request.node_id
          (asked request) s.counters in
      let written : raise ≡ (raise.0, ok counters) =
        ap (λ (x : Service ClusterCounters). (raise.0, x)) (ground arith) in
      let most = raised (get counters.nodes request.node_id) (asked request) (
        raise_entry-raises c j s.backend r.read_net r.net r.read_nonce r.nonce path request.node_id
          (asked request) counters s.counters raise.0 written) in
      (
        nonce,
        session_key,
        authenticate-IsAuthentic laws s request raise_call nonce session_key passed,
        rw is_ack most,
        rw is_ack refl,
      )
