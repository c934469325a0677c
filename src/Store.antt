-- ===== src/Store.antt =====
-- src/infrastructure/persistence/memory.py: the tables in memory and what every repository does with
-- them. A method takes the store and returns the store it leaves behind with its value or its
-- exception; records are deep copies, and the store's lock makes each call atomic.
mod Tests
pub mod Records
pub mod Entities
pub mod Events
pub mod Linked
pub mod Trace
use core_engine_ge_m.Base.{
  String, Bool, true, false, ◌&&◌, Option, none, some, List, [], ◌∷◌, Map, lookup, Equality,
  Outcome, raised,
}
use core_engine_ge_m.Jobs.Durable.{JobRecord}
use core_engine_ge_m.Store.Records.{
  BidderRecord, SubmissionRecord, DocumentRecord, EvidenceRecord, VerificationRecord,
  ComplianceResultRecord, FindingRecord, ExplanationRecord, AuditEventRecord, OutboxEventRecord,
  FlagStateRecord, FlagSnapshotRecord,
}

pub data StoreError : Type 0 where
  duplicate_record missing_reference : StoreError

-- `_Store`
pub record Store : Type 0 where
  pub bidders : Map String BidderRecord
  pub submissions : Map String SubmissionRecord
  pub documents : Map String DocumentRecord
  pub evidence : Map String EvidenceRecord
  pub verifications : Map String VerificationRecord
  pub compliance_results : Map (String × String × String) ComplianceResultRecord
  pub findings : Map String FindingRecord
  pub explanations : Map String ExplanationRecord
  pub jobs : Map String JobRecord
  pub jobs_by_idem : Map String String
  pub audit_events : List AuditEventRecord
  pub outbox : Map String OutboxEventRecord
  pub flag_states : Map (String × String) FlagStateRecord
  pub flag_snapshots : Map String FlagSnapshotRecord

-- `_Store()`
abbrev pub empty_store : Store
empty_store = record {
  bidders = [];
  submissions = [];
  documents = [];
  evidence = [];
  verifications = [];
  compliance_results = [];
  findings = [];
  explanations = [];
  jobs = [];
  jobs_by_idem = [];
  audit_events = [];
  outbox = [];
  flag_states = [];
  flag_snapshots = [];
}

abbrev pub Call : Type 0 → Type 0
Call A = Store × Outcome StoreError A

-- `key in table`
abbrev pub is_some {ℓ} : {A : Type ℓ} → Option A → Bool
is_some none = false
is_some (some a) = true

abbrev pub has {ℓ κ} : {K : Type ℓ} {V : Type κ} ⦃e : Equality K⦄ → K → Map K V → Bool
has k t = is_some (lookup k t)

-- Every reference of a row, each looked for by `_require`.
abbrev pub has_all {ℓ κ} : {K : Type ℓ} {V : Type κ} ⦃e : Equality K⦄ → List K → Map K V → Bool
has_all [] t = true
has_all (k ∷ ks) t = has k t && has_all ks t

-- `if ref is not None: self._require(...)`
abbrev pub optional {ℓ} : {A : Type ℓ} → Option A → List A
optional none = []
optional (some a) = a ∷ []

abbrev pub missing {ℓ} : {A : Type ℓ} → Store → Store × Outcome StoreError A
missing s = (s, raised missing_reference)

abbrev pub duplicate {ℓ} : {A : Type ℓ} → Store → Store × Outcome StoreError A
duplicate s = (s, raised duplicate_record)
