-- ===== src/Rules/Calls.antt =====
-- What a rule does with its provider, and `_TrackingProvider` of src/compliance_engine/engine.py, which
-- keeps the verifications that the provider returned. A rule is the sequence of its calls.
use core_engine_ge_m.Base.{
  ◌≡◌, refl, ap, String, Bool, true, false, Option, none, some, List, [], ◌∷◌, ◌++◌, Json, null,
  Map, Outcome, ok, raised, ◌>>=◌,
}
use core_engine_ge_m.Flags.{FlagError, get_flag_definition}
use core_engine_ge_m.Flags.Model.{FlagDefinition}
use core_engine_ge_m.Rules.Model.{
  Requirement, Evidence, Verification, ComplianceStatus, missing, nothing, reported,
  ComplianceResult, RuleError, value_error, attribute_error, flag_error,
}

-- `verify(bidder_id, identifier, **kwargs)`
abbrev pub Provider : Type 0
Provider = String → String → Map String String → Outcome RuleError Verification

-- What is left of an evaluation: its end, a query whose answer it waits for, or a record to register.
pub data Calls : Type 0 where
  done : Outcome RuleError ComplianceResult → Calls
  verify : String → String → Map String String → (Outcome RuleError Verification → Calls) → Calls
  register : Verification → Calls → Calls

-- `_TrackingProvider.verify`; there is no `verify` on `None`.
abbrev pub ask : Option Provider → Provider
ask none bidder_id identifier options = raised attribute_error
ask (some provider) bidder_id identifier options = provider bidder_id identifier options

abbrev pub kept : List Verification → Outcome RuleError Verification → List Verification
kept records (ok v) = records ++ v ∷ []
kept records (raised e) = records

-- `_TrackingProvider.register`
abbrev pub replace_last : Verification → List Verification → List Verification
replace_last v [] = []
replace_last v (r ∷ []) = v ∷ []
replace_last v (r ∷ s ∷ records) = r ∷ replace_last v (s ∷ records)

pub replace_last-append :
    (v w : Verification) (records : List Verification)
    → replace_last w (records ++ v ∷ []) ≡ records ++ w ∷ []
replace_last-append v w [] = refl
replace_last-append v w (r ∷ []) = refl
replace_last-append v w (r ∷ s ∷ records) = ap (λ t. r ∷ t) (replace_last-append v w (s ∷ records))

-- The records that a call leaves behind, and its value or exception.
abbrev pub Tracked : Type 0 → Type 0
Tracked A = List Verification × Outcome RuleError A

unfoldable pub track : Option Provider → Calls → List Verification → Tracked ComplianceResult
track provider (done o) records = (records, o)
track provider (verify bidder_id identifier options next) records =
    let answer = ask provider bidder_id identifier options in
    track provider (next answer) (kept records answer)
track provider (register v next) records = track provider next (replace_last v records)

-- `if provider is None: raise ValueError(...)`
abbrev pub provided : Bool → Calls → Calls
provided false next = done (raised value_error)
provided true next = next

abbrev pub is_null : Json → Bool
is_null null = true
is_null _ = false

-- No field, a field without a value, and the query for a value: the three ways of a registration rule.
-- `str` spells a value.
abbrev pub query_value :
    (Json → String)
    → Map String String
    → (Evidence → Calls)
    → (Evidence → Outcome RuleError Verification → Calls)
    → Evidence
    → Bool
    → Calls
query_value str options null_value answered item true = null_value item
query_value str options null_value answered item false =
    verify item.bidder_id (str item.value) options (answered item)

abbrev pub query_field :
    (Json → String)
    → Map String String
    → Calls
    → (Evidence → Calls)
    → (Evidence → Outcome RuleError Verification → Calls)
    → Option Evidence
    → Calls
query_field str options absent null_value answered none = absent
query_field str options absent null_value answered (some item) =
    query_value str options null_value answered item (is_null item.value)

-- `get_flag_definition(...).flag_id`
abbrev pub flag_id_of : Outcome FlagError FlagDefinition → Outcome RuleError String
flag_id_of (ok definition) = ok definition.flag_id
flag_id_of (raised e) = raised (flag_error e)

unfoldable pub checked_flag : String → Outcome RuleError String
checked_flag flag_id = flag_id_of (get_flag_definition flag_id)

-- The flags of a status, checked against the registry.
abbrev pub checked_flags : Option String → Outcome RuleError (List String)
checked_flags none = ok []
checked_flags (some flag_id) = checked_flag flag_id >>= λ f. ok (f ∷ [])

abbrev pub missing_result : Requirement → String → List String → List String → ComplianceResult
missing_result requirement reason evidence_refs flags = record {
  requirement_id = requirement.requirement_id;
  capability = requirement.capability;
  status = missing;
  reason = reason;
  expected = requirement.expected;
  actual = nothing;
  evidence_refs = evidence_refs;
  verification_refs = [];
  flags = flags;
  rule_id = requirement.rule_id;
}

-- `_missing` of the rules that check the flag of a missing field.
abbrev pub required_field_missing : Requirement → String → List String → Calls
required_field_missing requirement reason evidence_refs = done (
    checked_flag "REQUIRED_FIELD_MISSING" >>= λ flag.
    ok (missing_result requirement reason evidence_refs (flag ∷ [])))

-- The result for an answer of the provider.
abbrev pub answered_result :
    Requirement
    → ComplianceStatus
    → String
    → Evidence
    → Verification
    → List String
    → ComplianceResult
answered_result requirement status reason item v flags = record {
  requirement_id = requirement.requirement_id;
  capability = requirement.capability;
  status = status;
  reason = reason;
  expected = requirement.expected;
  actual = reported v.status v.«data»;
  evidence_refs = item.evidence_id ∷ [];
  verification_refs = v.verification_id ∷ [];
  flags = flags;
  rule_id = requirement.rule_id;
}
