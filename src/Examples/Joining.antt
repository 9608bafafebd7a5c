-- ===== src/Examples/Joining.antt =====
-- Challenges, join nonces, the root's way to a joiner, and the policy, at concrete inputs.
use mero_tee.Prelude.{
  ℕ, ◌≡◌, refl, true, false, some, List, [], ◌∷◌, ◌↔◌, replicate, arith, if◌then◌else◌, leb, inl,
  inr, ◌++◌, ◌≤◌, drop,
}
use mero_tee.Text.{Str, Bytes, to_ascii_lowercase, trim, trim_0x, saturating_add, from_be_bytes}
use mero_tee.Errors.{ok, err}
use mero_tee.Measurement.{is_debug_td, matches_raw, normalized}
use mero_tee.Backend.{measurements_of}
use mero_tee.Examples.{toy, toy_codec, toy_mac, toy_seal, toy_measurements, toy_body, toy_root}
use mero_tee.Challenge.{
  SpentChallenges, issue, open_id, expired, too_late, spend, already_used, clock_skew_secs, mac,
  nonce, tag_domain, random_bytes, decode_id,
}
use mero_tee.Challenge.Tokens.{open_id-issue, open_id-eq-ok}
use mero_tee.Map.Order.{list_ord}
use mero_tee.Map.Laws.{IsSorted}
use mero_tee.Challenge.Abstract.{UsesAll, answers_all, abstract_of, spend_all-UsesAll}
use mero_tee.Challenge.Spent.{IsMemory, spend-IsMemory, spend_once, Spending, spend_all}
use mero_tee.Cluster
use mero_tee.Cluster.{
  JoinNonces, Messages, open_nonce, seal_root, open_root, check_peer, join_nonce_expired,
  join_nonce_used,
}
use mero_tee.Cluster.Nonces
use mero_tee.Cluster.Nonces.{join_once, Joined}
use mero_tee.Cluster.Sealing.{open_root-seal_root, check_peer_iff, HasStatus}
use mero_tee.Policy.{
  Role, node, agent, PolicyEntry, AttestationPolicy, VerificationResult, enforce_attestation_policy,
  register_fields, quote_registers, validate_policy_requirements, check_entries, check_entry,
  no_overlap, find_overlap, entries_overlap, fields_overlap, check_fields, role_eq, contains,
}
use mero_tee.Policy.Registers.{Allows}
use mero_tee.Policy.Entries.{Among}
use mero_tee.Policy.Roles.{enforce_sound, enforce_complete, IsAllowedStatus}

abbrev key : Bytes
key = replicate 32 1

abbrev peer : Str
peer = b'Q' ∷ b'm' ∷ []

open_id-issue_example : open_id toy key (issue toy key (replicate 16 9) peer 160).0 peer 120 60 ≡ (
    if leb 120 160
    then if leb 160 (saturating_add (saturating_add 120 60) clock_skew_secs)
      then ok ((issue toy key (replicate 16 9) peer 160).1, 160)
      else err too_late
    else err expired)
open_id-issue_example =
    open_id-issue toy toy_codec toy_mac key (replicate 16 9) peer 160 120 60 refl (omega arith)

open_id-eq-ok_example :
    (body : Bytes) × (decode_id toy (issue toy key (replicate 16 9) peer 160).0
      ≡ some (body ++ mac toy key tag_domain body peer))
    × ((issue toy key (replicate 16 9) peer 160).1 ≡ nonce toy key body peer)
    × (160 ≡ from_be_bytes (drop random_bytes body))
    × (120 ≤ 160)
    × (160 ≤ saturating_add (saturating_add 120 60) clock_skew_secs)
unfolding saturating_add
open_id-eq-ok_example =
    open_id-eq-ok toy toy_codec toy_mac key (issue toy key (replicate 16 9) peer 160).0 peer 120 60
      (open_id-issue toy toy_codec toy_mac key (replicate 16 9) peer 160 120 60 refl (omega arith))

no-IsMemory : IsMemory 2 []
no-IsMemory = record { sorted = tt; bounded = omega arith }

spend-IsMemory_example : IsMemory 2 (spend [] peer 160 120 2).0
spend-IsMemory_example = spend-IsMemory [] peer 160 120 2 no-IsMemory

abbrev between : List Spending
between = record { id = b'z' ∷ []; expires_at = 170; now = 125 } ∷ []

spend_once_example :
    (spend (spend_all (spend [] peer 160 120 2).0 2 between) peer 160 130 2).1 ≡ err already_used
unfolding mero_tee.Map.contains_key mero_tee.Map.get mero_tee.Map.retain
spend_once_example =
    spend_once 2 peer 160 [] 120 between 130 160 no-IsMemory
      (unfold spend mero_tee.Challenge.record_spent in refl) (omega arith, tt) (omega arith)

abbrev between_none : SpentChallenges
between_none = []

no-IsSorted : IsSorted between_none
no-IsSorted = tt

spend_all-UsesAll_example :
    UsesAll 2 between
      (answers_all [] 2 between)
      (abstract_of [])
      (abstract_of (spend_all [] 2 between))
spend_all-UsesAll_example = spend_all-UsesAll [] 2 between no-IsSorted

abbrev nonces : JoinNonces
nonces = record { key = key; spent = [] }

abbrev others : List Joined
others = record { nonce = b'z' ∷ []; expires_at = 170; now = 125 } ∷ []

join_once_example :
    (Cluster.spend (Nonces.spend_all (Cluster.spend nonces peer 160 120).0 others) peer 160 130).1
    ≡ err join_nonce_used
unfolding mero_tee.Map.contains_key mero_tee.Map.get mero_tee.Map.retain
join_once_example =
    join_once peer 160 nonces 120 others 130 tt (unfold Cluster.spend in refl)
      (omega arith, (λ same. absurd cc), tt) (omega arith)

open_root-seal_root_example :
    open_root toy (replicate 32 2) (replicate 32 3) key (replicate 12 0) toy_root.bytes
    ≡ ok toy_root
open_root-seal_root_example =
    open_root-seal_root toy toy_seal toy_root (replicate 32 3) (replicate 32 2) key (replicate 12 0)
      toy_root.bytes refl (unfold seal_root Cluster.root_seal_key in refl)

abbrev messages : Messages
messages = record { failed_verification = λ v. []; other_measurements = λ m. [] }

abbrev verified : VerificationResult
verified = record {
  is_valid = true;
  quote_verified = true;
  nonce_verified = true;
  application_hash_verified = true;
  tcb_status = some (b'O' ∷ b'k' ∷ []);
  body = toy_body;
}

abbrev entry_of : Role → ℕ → PolicyEntry
entry_of role value = record {
  role = role;
  allowed_mrtd = record { value = value ∷ [] } ∷ [];
  allowed_rtmr0 = record { value = b'b' ∷ [] } ∷ [];
  allowed_rtmr1 = record { value = [] } ∷ [];
  allowed_rtmr2 = record { value = [] } ∷ [];
  allowed_rtmr3 = record { value = b'1' ∷ [] } ∷ [];
}

abbrev policy : AttestationPolicy
policy = record {
  enforce_measurement_policy = true;
  allowed_tcb_statuses = (b'o' ∷ b'k' ∷ []) ∷ [];
  entries = entry_of node b'9' ∷ entry_of agent b'a' ∷ [];
}

check_peer_iff_example : (check_peer toy messages verified toy_measurements policy ≡ ok tt) ↔ (
    (verified.is_valid ≡ true)
    × (is_debug_td toy verified.body.tdattributes ≡ false)
    × HasStatus policy verified.tcb_status
    × (measurements_of verified.body ≡ toy_measurements))
check_peer_iff_example = check_peer_iff toy messages verified toy_measurements policy

policy_valid : validate_policy_requirements policy ≡ ok tt
unfolding validate_policy_requirements check_entries check_entry no_overlap find_overlap
    entries_overlap fields_overlap register_fields check_fields role_eq contains
policy_valid = refl

status_allowed : IsAllowedStatus policy verified.tcb_status
unfolding to_ascii_lowercase
status_allowed = refl

agent_fits : Allows (register_fields (entry_of agent b'a')) (quote_registers verified.body)
unfolding register_fields quote_registers matches_raw normalized to_ascii_lowercase trim_0x trim
agent_fits = (refl, (refl, (refl, (refl, (refl, tt)))))

agent_enforced : enforce_attestation_policy policy verified ≡ ok agent
agent_enforced =
    enforce_complete policy verified (entry_of agent b'a') refl policy_valid status_allowed
      (inr (inl refl)) agent_fits

enforce_complete_example : enforce_attestation_policy policy verified ≡ ok agent
enforce_complete_example =
    enforce_complete policy verified (entry_of agent b'a') refl policy_valid status_allowed
      (inr (inl refl)) agent_fits

enforce_sound_example :
    IsAllowedStatus policy verified.tcb_status
    × (e : PolicyEntry) × Among e policy.entries
    × (e.role ≡ agent)
    × Allows (register_fields e) (quote_registers verified.body)
enforce_sound_example = enforce_sound policy verified agent refl agent_enforced
