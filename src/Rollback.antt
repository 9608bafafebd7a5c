-- ===== src/Rollback.antt =====
-- mero-kms/src/handlers/rollback.rs: a node raises or resets its rollback counter.
pub mod Calls
use mero_tee.Prelude.{ℕ, ◌∷◌, ◌++◌, length, ◌==◌, if◌then◌else◌}
use mero_tee.Text.{Str, Bytes, lit, as_bytes, to_be_bytes}
use mero_tee.Errors.{
  Service, ServiceError, Result, ok, err, ensure, map_err, invalid_base64,
  invalid_attestation_request, invalid_mac,
}
use mero_tee.Errors
use mero_tee.Exec.{Exec, pure, lift, gets, ◌>>=◌, ◌>>◌}
use mero_tee.Map.{get}
use mero_tee.Map.Order.{nat_ord}
use mero_tee.Crypto.{Crypto}
use mero_tee.Backend.{rollback_session_key}
use mero_tee.Policy.{node}
use mero_tee.Counters.{Entry, ClusterCounters, entry_or_default, session_key_info}
use mero_tee.Counters.Replica.{CounterJson, Net}
use mero_tee.Counters.Ops.{raise_entry, reset}
use mero_tee.Attest.{decode_fixed_b64_32}
use mero_tee.PeerId.{validate_peer_id_shape}
use mero_tee.GetKey.{key_path_for_peer}
use mero_tee.State.{AppState, with_counters}

unfoldable pub raise_domain : Bytes
raise_domain = lit "mero-kms/rollback-raise/v1"

unfoldable pub reset_domain : Bytes
reset_domain = lit "mero-kms/rollback-reset/v1"

unfoldable pub ack_domain : Bytes
ack_domain = lit "mero-kms/rollback-ack/v1"

pub record RollbackRequest : Type 0 where
  pub peer_id : Str
  pub node_id : ℕ
  pub session_id_b64 : Str
  pub generation : ℕ
  pub mark : ℕ
  pub nonce_b64 : Str
  pub mac_b64 : Str

pub record RollbackAck : Type 0 where
  pub epoch : ℕ
  pub generation : ℕ
  pub mark : ℕ
  pub mac_b64 : Str

pub data Kind : Type 0 where
  raise_call reset_call : Kind

unfoldable pub domain_of : Kind → Bytes
domain_of raise_call = raise_domain
domain_of reset_call = reset_domain

unfoldable pub request_message : Bytes → Str → ℕ → Bytes → ℕ → ℕ → Bytes → Bytes
request_message domain peer_id node_id session_id generation mark nonce =
    domain
    ++ (as_bytes peer_id
        ++ (b'\n' ∷ to_be_bytes node_id
            ++ (session_id ++ (to_be_bytes generation ++ (to_be_bytes mark ++ nonce)))))

-- The rounds of the calls between replicas, and the random bytes that each draws.
pub record Rounds : Type 0 where
  pub first_net : Net
  pub read_net : Net
  pub net : Net
  pub first_nonce : Bytes
  pub read_nonce : Bytes
  pub nonce : Bytes

module _ (c : Crypto) where
  unfoldable pub ack_mac : Bytes → Bytes → ℕ → ℕ → ℕ → Bytes
  ack_mac session_key nonce epoch generation mark =
      c.hmac session_key (
        ack_domain
        ++ (nonce ++ (to_be_bytes epoch ++ (to_be_bytes generation ++ to_be_bytes mark))))

  -- A base64 text of 16 bytes.
  unfoldable pub decode_session_id : Str → Service Bytes
  decode_session_id value = Errors.◌>>=◌ (map_err invalid_base64 (c.base64_decode value)) λ id.
      if length id == 16
      then ok id
      else err (invalid_attestation_request (lit "sessionIdB64 must be 16 bytes"))

  -- What a call must carry: its nonce, and a MAC under the session's key; the answer is the key.
  unfoldable pub authenticate : AppState → RollbackRequest → Kind → Service (Bytes × Bytes)
  authenticate state request kind =
      Errors.◌>>=◌ (decode_session_id request.session_id_b64) λ session_id.
        Errors.◌>>=◌ (decode_fixed_b64_32 c (lit "nonceB64") request.nonce_b64) λ nonce.
          Errors.◌>>=◌ (map_err invalid_base64 (c.base64_decode request.mac_b64)) λ mac.
            Errors.◌>>=◌
              (rollback_session_key c state.backend (
                session_key_info c (key_path_for_peer state.config node request.peer_id)
                  request.node_id session_id))
              λ session_key.
                Errors.◌>>=◌
                  (ensure
                    (c.hmac_verify session_key
                      (request_message (domain_of kind) request.peer_id request.node_id session_id
                        request.generation request.mark nonce)
                      mac)
                    (invalid_mac (lit "the rollback call's MAC")))
                  λ _. ok (nonce, session_key)

  -- The move of the counter.
  unfoldable pub move_counter :
      CounterJson → Rounds → RollbackRequest → Str → Kind → Exec AppState ClusterCounters
  move_counter j r request key_path raise_call = do
    backend ← gets (λ s. s.backend)
    let entry : Entry = record { generation = request.generation; mark = request.mark }
    with_counters (
        raise_entry c j backend r.read_net r.net r.read_nonce r.nonce key_path request.node_id
          entry)
  move_counter j r request key_path reset_call = do
    backend ← gets (λ s. s.backend)
    with_counters (
        reset c j backend r.first_net r.read_net r.net r.first_nonce r.read_nonce r.nonce key_path
          request.node_id request.mark)

  unfoldable pub acknowledge : Bytes → Bytes → ℕ → ClusterCounters → RollbackAck
  acknowledge nonce session_key node_id counters =
      let entry = entry_or_default (get counters.nodes node_id) in
      record {
        epoch = counters.epoch;
        generation = entry.generation;
        mark = entry.mark;
        mac_b64 =
            c.base64_encode (ack_mac session_key nonce counters.epoch entry.generation entry.mark);
      }

  unfoldable pub answer : CounterJson → Rounds → RollbackRequest → Kind → Exec AppState RollbackAck
  answer j r request kind = do
    (nonce, session_key) ← (λ s. (s, authenticate s request kind))
    key_path ← gets (λ s. key_path_for_peer s.config node request.peer_id)
    counters ← move_counter j r request key_path kind
    pure (acknowledge nonce session_key request.node_id counters)

  -- `handle`, behind both handlers.
  unfoldable pub handle : CounterJson → Rounds → RollbackRequest → Kind → Exec AppState RollbackAck
  handle j r request kind = do
    lift (validate_peer_id_shape request.peer_id)
    answer j r request kind
