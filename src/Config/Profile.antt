-- ===== src/Config/Profile.antt =====
-- mero-kms/src/config/mod.rs: the profile of the image, from its own file and from the
-- environment.
use mero_tee.Prelude.{
  ◌≡◌, refl, ◌⊎◌, inl, inr, true, not, Option, none, some, ◌++◌, if◌then◌else◌, list_eq,
  list_eq_iff, is_empty, any, arith,
}
use mero_tee.Text.{Str, lit, trim, to_ascii_lowercase, eq_ignore_ascii_case}
use mero_tee.Errors.{Result, ok, err, ensure, ◌>>=◌, ◌>>◌}
use mero_tee.Policy.{join_texts}
use mero_tee.Env.{Env, IoError, not_found, other, read_env_utf8}
use mero_tee.Config.{known_profiles, unwrap_or}

unfoldable pub parse_profile : Str → Result Str Str
parse_profile raw =
    let value = to_ascii_lowercase (trim raw) in
    if is_empty value
    then err (lit "KMS policy profile cannot be empty")
    else if any (list_eq value) known_profiles
    then ok value
    else err (
        lit "Unsupported KMS policy profile '"
        ++ (value ++ (lit "'. Expected one of: " ++ join_texts (lit ", ") known_profiles)))

abbrev pub disagree : Str
disagree = lit "MERO_KMS_PROFILE and legacy KMS_POLICY_PROFILE disagree; set only MERO_KMS_PROFILE"

-- The modern name wins; a legacy name beside it has to agree.
agree : Option Str → Option Str → Result Str (Option Str)
agree none legacy = ok legacy
agree (some modern) none = ok (some modern)
agree (some modern) (some legacy) = do
  ensure (eq_ignore_ascii_case (trim modern) (trim legacy)) disagree
  ok (some modern)

unfoldable pub profile_override_from_env : Env → Result Str (Option Str)
unfolding agree
profile_override_from_env env = do
  modern ← read_env_utf8 env (lit "MERO_KMS_PROFILE")
  legacy ← read_env_utf8 env (lit "KMS_POLICY_PROFILE")
  agree modern legacy

unfoldable pub read_image_profile_from_file : Str → Result IoError Str → Result Str (Option Str)
read_image_profile_from_file path file = elim file [
  | ok raw ↦ (do
    ensure (not (is_empty (trim raw)))
        (lit "Pinned KMS image profile file " ++ (path ++ lit " is empty; refusing startup"))
    profile ← parse_profile (trim raw)
    ok (some profile))
  | err not_found ↦ ok none
  | err (other e) ↦
      err (lit "Failed to read pinned KMS image profile from " ++ (path ++ (lit ": " ++ e)))
]

-- `env_override.map(str::trim).filter(|value| !value.is_empty())`
nonempty : Option Str → Option Str
nonempty none = none
nonempty (some value) = if is_empty (trim value) then none else some (trim value)

abbrev pub mismatch : Str → Str → Str
mismatch override pinned =
    lit "MERO_KMS_PROFILE '"
    ++ (override
        ++ (lit "' does not match profile-pinned image value '"
            ++ (pinned ++ lit "'. Build/deploy the matching KMS image profile instead.")))

-- The override of a pinned image, when there is one, has to name the pinned profile.
same_as_pinned : Str → Option Str → Result Str Str
same_as_pinned pinned none = ok pinned
same_as_pinned pinned (some override) = do
  profile ← parse_profile override
  ensure (list_eq profile pinned) (mismatch profile pinned)
  ok pinned

unfoldable pub resolve_kms_profile : Option Str → Option Str → Result Str Str
unfolding nonempty same_as_pinned
resolve_kms_profile none env_override =
    parse_profile (unwrap_or (nonempty env_override) (lit "locked-read-only"))
resolve_kms_profile (some pinned) env_override = do
  profile ← parse_profile pinned
  same_as_pinned profile env_override

-- One of the three profiles that the service knows.
pub IsKnown : Str → Type 0
IsKnown p = any (list_eq p) known_profiles ≡ true

pub parse_profile-IsKnown : (raw value : Str) → parse_profile raw ≡ ok value → IsKnown value
unfolding parse_profile IsKnown
parse_profile-IsKnown raw value h = ground arith

known_cases :
    (p : Str)
    → IsKnown p
    → (p ≡ lit "debug") ⊎ ((p ≡ lit "debug-read-only") ⊎ (p ≡ lit "locked-read-only"))
unfolding IsKnown
known_cases p h = ground (
  arith,
  (list_eq_iff p (lit "debug")).0,
  (list_eq_iff p (lit "debug-read-only")).0,
  (list_eq_iff p (lit "locked-read-only")).0,
)

-- A known profile is read as itself: it is in the form that profiles are compared in.
pub known_fixed : (p : Str) → IsKnown p → parse_profile p ≡ ok p
unfolding parse_profile lit to_ascii_lowercase trim
known_fixed p h = elim (known_cases p h) [
  | inl e ↦ rw e refl
  | inr (inl e) ↦ rw e refl
  | inr (inr e) ↦ rw e refl
]

-- The profile of a pinned image is the one in its file.
pub resolve_pinned :
    (pinned : Str) (override : Option Str) (p : Str)
    → resolve_kms_profile (some pinned) override ≡ ok p
    → parse_profile pinned ≡ ok p
unfolding resolve_kms_profile
resolve_pinned pinned none p h = ground arith
resolve_pinned pinned (some override) p h = ground arith

pub resolve_kms_profile-IsKnown :
    (pinned override : Option Str) (p : Str)
    → resolve_kms_profile pinned override ≡ ok p
    → IsKnown p
unfolding resolve_kms_profile
resolve_kms_profile-IsKnown none override p h = parse_profile-IsKnown _ p h
resolve_kms_profile-IsKnown (some pinned) override p h =
    parse_profile-IsKnown pinned p (resolve_pinned pinned override p h)
