-- ===== src/Scoring/Policy.antt =====
-- src/ai_verification/document_scoring/policy.py: `DocumentScoringPolicy`. `strip` and `upper` are the
-- methods of `str`.
use Prim.Native.Char.{Char, code}
use Prim.Native.String
use core_engine_ge_m.Base.{
  String, Option, none, some, List, [], ◌∷◌, map, Map, lookup, string_eq, nat_eq, ◌==◌, ◌||◌,
  if◌then◌else◌, Outcome, ok, raised,
}
use core_engine_ge_m.Scoring.Numbers.{Floats}
use core_engine_ge_m.Scoring.Model.{
  DocumentPriority, critical, high, medium, low, DocumentImportance,
}

pub record DocumentScoringPolicy {ℓ} (F : Type ℓ) : Type ℓ where
  pub red_threshold : F
  pub yellow_threshold : F
  pub minimum_evidence_confidence : F
  pub document_importance : Map String (DocumentImportance F)
  pub document_aliases : Map String String
  pub required_documents : Map String (List String)

-- `ValueError`
pub data PolicyError : Type 0 where
  thresholds_not_rising : PolicyError

-- `replace("-", "_").replace(" ", "_")`
abbrev pub joined_char : Char → Char
joined_char c = if code c == b'-' || code c == b' ' then "_" else c

abbrev pub underscored : String → String
underscored String.[] = ""
underscored (String.◌∷◌ c s) = String.◌∷◌ (joined_char c) (underscored s)

-- `split("_")`, without the parts that are empty
abbrev pub put_char : Char → List String → List String
put_char c [] = String.◌∷◌ c "" ∷ []
put_char c (part ∷ parts) = String.◌∷◌ c part ∷ parts

abbrev pub split : String → List String
split String.[] = "" ∷ []
split (String.◌∷◌ c s) = let rest = split s in if code c == b'_' then "" ∷ rest else put_char c rest

abbrev pub not_empty : List String → List String
not_empty [] = []
not_empty (part ∷ parts) = let rest = not_empty parts in if part == "" then rest else part ∷ rest

-- `separator.join(...)`
abbrev pub join : String → List String → String
join separator [] = ""
join separator (part ∷ []) = part
join separator (part ∷ next ∷ parts) =
    String.◌++◌ part (String.◌++◌ separator (join separator (next ∷ parts)))

abbrev pub default_document_aliases : Map String String
default_document_aliases =
    ("GSTN", "GST")
    ∷ ("GST_CERTIFICATE", "GST")
    ∷ ("GST_REGISTRATION", "GST")
    ∷ ("PAN_CARD", "PAN")
    ∷ ("UDYAM_REGISTRATION", "UDYAM")
    ∷ ("MSME", "UDYAM")
    ∷ ("MCA", "MCA21")
    ∷ ("MCA21_REGISTRATION", "MCA21")
    ∷ ("COMPANY_REGISTRATION", "MCA21")
    ∷ ("BLACKLIST", "DEBARMENT")
    ∷ ("PROCUREMENT_ELIGIBILITY", "DEBARMENT")
    ∷ ("DEBARMENT_REGISTRY", "DEBARMENT")
    ∷ ("BIS_CERTIFICATION", "BIS")
    ∷ ("BIS_LICENCE", "BIS")
    ∷ ("ITR", "FINANCIAL")
    ∷ ("INCOME_TAX_RETURN", "FINANCIAL")
    ∷ ("BALANCE_SHEET", "FINANCIAL")
    ∷ ("FINANCIAL_STATEMENTS", "FINANCIAL")
    ∷ ("LOCAL_CONTENT", "MAKE_IN_INDIA")
    ∷ ("MII", "MAKE_IN_INDIA")
    ∷ ("MAKE_IN_INDIA_DECLARATION", "MAKE_IN_INDIA")
    ∷ ("OEM_AUTHORIZATION", "OEM")
    ∷ ("AUTHORIZATION_LETTER", "OEM")
    ∷ ("DIGILOCKER_DOCUMENT", "DIGILOCKER")
    ∷ ("DPIIT", "STARTUP")
    ∷ ("STARTUP_INDIA", "STARTUP")
    ∷ ("UDIN", "CA_UDIN")
    ∷ []

abbrev pub default_required_documents : Map String (List String)
default_required_documents =
    ("GST", "GST" ∷ [])
    ∷ ("GST_RETURN_FILING", "GST" ∷ [])
    ∷ ("PAN_INCOME_TAX", "PAN" ∷ "FINANCIAL" ∷ [])
    ∷ ("UDYAM", "UDYAM" ∷ [])
    ∷ ("FINANCIAL", "FINANCIAL" ∷ [])
    ∷ ("MAKE_IN_INDIA", "MAKE_IN_INDIA" ∷ [])
    ∷ ("BIS", "BIS" ∷ [])
    ∷ ("DIGILOCKER", "DIGILOCKER" ∷ [])
    ∷ ("OEM_AUTHORIZATION", "OEM" ∷ [])
    ∷ ("MCA21", "MCA21" ∷ [])
    ∷ ("DEBARMENT", "DEBARMENT" ∷ [])
    ∷ []

abbrev pub or_else {ℓ} : {A : Type ℓ} → A → Option A → A
or_else fallback none = fallback
or_else fallback (some v) = v

module _ {ℓ} {F : Type ℓ} ⦃d : Floats F⦄ where
  abbrev pub importance : DocumentPriority → String → DocumentImportance F
  importance priority weight = record { priority = priority; weight = d.float weight }

  abbrev pub default_document_importance : Map String (DocumentImportance F)
  default_document_importance =
      ("GST", importance critical "1.0")
      ∷ ("PAN", importance critical "1.0")
      ∷ ("UDYAM", importance high "0.8")
      ∷ ("MCA21", importance high "0.8")
      ∷ ("DEBARMENT", importance critical "1.0")
      ∷ ("BIDDER_IDENTITY", importance critical "1.0")
      ∷ ("BIS", importance high "0.8")
      ∷ ("ITR", importance high "0.8")
      ∷ ("FINANCIAL", importance high "0.8")
      ∷ ("MAKE_IN_INDIA", importance high "0.8")
      ∷ ("OEM", importance high "0.8")
      ∷ ("DIGILOCKER", importance medium "0.55")
      ∷ ("EPFO", importance medium "0.55")
      ∷ ("ESIC", importance medium "0.55")
      ∷ ("STARTUP", importance medium "0.55")
      ∷ ("NSIC", importance medium "0.55")
      ∷ ("CA_UDIN", importance medium "0.55")
      ∷ ("UNKNOWN", importance low "0.25")
      ∷ []

  -- `_validate_thresholds`
  unfoldable pub validated : DocumentScoringPolicy F → Outcome PolicyError (DocumentScoringPolicy F)
  validated policy =
      if d.lt policy.red_threshold policy.yellow_threshold
      then ok policy
      else raised thresholds_not_rising

  -- `DEFAULT_POLICY`
  abbrev pub default_policy : DocumentScoringPolicy F
  default_policy = record {
    red_threshold = d.float "50.0";
    yellow_threshold = d.float "80.0";
    minimum_evidence_confidence = d.float "0.70";
    document_importance = default_document_importance;
    document_aliases = default_document_aliases;
    required_documents = default_required_documents;
  }

  module _ (strip upper : String → String) (policy : DocumentScoringPolicy F) where
    unfoldable pub normalize_document_type : String → String
    normalize_document_type document_type =
        let raw = join "_" (not_empty (split (underscored (upper (strip document_type))))) in
        or_else raw (lookup raw policy.document_aliases)

    unfoldable pub importance_for : String → DocumentImportance F
    importance_for document_type =
        or_else (or_else (importance low "0.25") (lookup "UNKNOWN" policy.document_importance))
          (lookup (normalize_document_type document_type) policy.document_importance)

    unfoldable pub expected_documents_for : String → List String
    expected_documents_for capability =
        map normalize_document_type
          (or_else [] (lookup (upper (strip capability)) policy.required_documents))
