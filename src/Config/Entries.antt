-- ===== src/Config/Entries.antt =====
-- mero-kms/src/config/mod.rs: the agents' allowlists are set together or not at all.
use mero_tee.Prelude.{
  ◌++◌, ap, sym, ◌∙◌, ◌↔◌, ◌+◌, ◌≤◌, ◌<◌, ◌≡◌, refl, ◌⊎◌, inl, inr, ◌≢◌, true, false, List, [], ◌∷◌,
  length, is_empty, arith, if◌then◌else◌,
}
use mero_tee.Text.{Str, lit, AmongTexts}
use mero_tee.Measurement.{HexMeasurement}
use mero_tee.Errors.{ok, err}
use mero_tee.Policy.{Role, PolicyEntry, Field, register_fields, as_str, join_texts}
use mero_tee.Env.{Env}
use mero_tee.Config.{is_set, count_set, missing_fields, entry_from_env, optional_entry_from_env}

abbrev pub AmongFields : Field → List Field → Type 0
AmongFields f [] = ⊥
AmongFields f (g ∷ fields) = (g ≡ f) ⊎ AmongFields f fields

count_set-cons :
    (f : Field) (fields : List Field)
    → count_set (f ∷ fields) ≡ (if is_empty f.1 then 0 else 1) + count_set fields
unfolding count_set is_set
count_set-cons f fields = ground arith

is_empty-no : (xs : List HexMeasurement) → xs ≢ [] → is_empty xs ≡ false
is_empty-no [] h = absurd (h refl)
is_empty-no (x ∷ xs) h = refl

count_set-le : (fields : List Field) → count_set fields ≤ length fields
unfolding count_set
count_set-le [] = omega arith
count_set-le (f ∷ fields) = ground (arith, count_set-cons f fields, count_set-le fields)

count_set-some :
    (f : Field) (fields : List Field) → AmongFields f fields → f.1 ≢ [] → 1 ≤ count_set fields
count_set-some f [] among h = absurd among
count_set-some f (g ∷ fields) (inl e) h =
    let here : is_empty g.1 ≡ false = rw e (is_empty-no f.1 h) in
    ground (arith, count_set-cons g fields)
count_set-some f (g ∷ fields) (inr later) h =
    omega (arith, count_set-cons g fields, count_set-some f fields later h)

count_set-missing :
    (f : Field) (fields : List Field)
    → AmongFields f fields
    → f.1 ≡ []
    → count_set fields < length fields
count_set-missing f [] among h = absurd among
count_set-missing f (g ∷ fields) (inl e) h =
    let here : is_empty g.1 ≡ true = rw (e, h) refl in
    ground (arith, count_set-cons g fields, count_set-le fields)
count_set-missing f (g ∷ fields) (inr later) h =
    ground (arith, count_set-cons g fields, count_set-missing f fields later h)

-- The environment variable of a register.
abbrev pub variable_of : Str → Field → Str
variable_of env_prefix f = env_prefix ++ (lit "ALLOWED_" ++ f.0)

-- The name is that of one of the fields, which has no value.
abbrev pub IsUnset : Str → List Field → Str → Type 0
IsUnset env_prefix fields name =
    (f : Field) × AmongFields f fields × (f.1 ≡ []) × (name ≡ variable_of env_prefix f)

missing_fields-cons :
    (env_prefix : Str) (f : Field) (fields : List Field)
    → ((f.1 ≡ [])
        × (missing_fields env_prefix (f ∷ fields)
            ≡ variable_of env_prefix f ∷ missing_fields env_prefix fields))
      ⊎ ((f.1 ≢ []) × (missing_fields env_prefix (f ∷ fields) ≡ missing_fields env_prefix fields))
unfolding missing_fields is_set
missing_fields-cons env_prefix (label, []) fields = inl (refl, refl)
missing_fields-cons env_prefix (label, m ∷ ms) fields = inr (λ h. cc, refl)

missing_fields-IsUnset :
    (env_prefix : Str) (fields : List Field) (name : Str)
    → AmongTexts name (missing_fields env_prefix fields)
    → IsUnset env_prefix fields name
unfolding missing_fields
missing_fields-IsUnset env_prefix [] name among = absurd among
missing_fields-IsUnset env_prefix (f ∷ fields) name among =
    elim (missing_fields-cons env_prefix f fields) [
      | inl (empty, e) ↦ elim (rw e at among) [
        | inl here ↦ (f, inl refl, empty, sym here)
        | inr later ↦
            let (g, there, none_set, named) = missing_fields-IsUnset env_prefix fields name later in
            (g, inr there, none_set, named)
      ]
      | inr (set, e) ↦
          let (g, there, none_set, named) =
            missing_fields-IsUnset env_prefix fields name (rw e at among) in
          (g, inr there, none_set, named)
    ]

IsUnset-missing_fields :
    (env_prefix : Str) (fields : List Field) (name : Str) (f : Field)
    → AmongFields f fields
    → f.1 ≡ []
    → name ≡ variable_of env_prefix f
    → AmongTexts name (missing_fields env_prefix fields)
IsUnset-missing_fields env_prefix [] name f among empty named = absurd among
IsUnset-missing_fields env_prefix (g ∷ fields) name f among empty named =
    elim (missing_fields-cons env_prefix g fields) [
      | inl (none_set, e) ↦ rw e (elim among [
        | inl here ↦ inl (ap (variable_of env_prefix) here ∙ sym named)
        | inr later ↦ inr (IsUnset-missing_fields env_prefix fields name f later empty named)
      ])
      | inr (set, e) ↦ rw e (elim among [
        | inl here ↦ absurd (set (ap (λ (f : Field). f.1) here ∙ empty))
        | inr later ↦ IsUnset-missing_fields env_prefix fields name f later empty named
      ])
    ]

-- One list set and another unset, in either order, is an error whose text names, between its fixed
-- parts, the variables of exactly the registers that are unset.
pub optional_entry-partial :
    (env : Env) (role : Role) (env_prefix : Str) (entry : PolicyEntry) (set unset : Field)
    → entry_from_env env role env_prefix ≡ ok entry
    → AmongFields set (register_fields entry)
    → AmongFields unset (register_fields entry)
    → set.1 ≢ []
    → unset.1 ≡ []
    → (names : List Str) × (optional_entry_from_env env role env_prefix
        ≡ err (
            lit "The "
            ++ (as_str role
                ++ (lit " allowlist is incomplete: "
                    ++ (join_texts (lit ", ") names
                        ++ (lit " unset. Set all five "
                            ++ (env_prefix ++ lit "ALLOWED_* or none.")))))))
      × ((name : Str) → AmongTexts name names ↔ IsUnset env_prefix (register_fields entry) name)
unfolding optional_entry_from_env
optional_entry-partial env role env_prefix entry set unset h a b nonempty empty =
    let low = count_set-some set (register_fields entry) a nonempty in
    let high = count_set-missing unset (register_fields entry) b empty in
    (
      missing_fields env_prefix (register_fields entry),
      rw h (ground arith),
      λ name. (
        missing_fields-IsUnset env_prefix (register_fields entry) name,
        λ (f, among, none_set, named).
            IsUnset-missing_fields env_prefix (register_fields entry) name f among none_set named,
      ),
    )
