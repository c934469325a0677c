-- ===== src/Rules/Passing.antt =====
-- When a rule that queries one field passes: the part of the proof that the registration rules share.
use core_engine_ge_m.Base.{
  ◌≡◌, ◌↔◌, refl, String, Bool, true, false, Option, none, some, List, Json, Map, Outcome, ok,
  raised,
}
use core_engine_ge_m.Rules.Model.{Evidence, Verification, pass, ComplianceResult, RuleError}
use core_engine_ge_m.Rules.Calls.{
  Provider, Calls, is_null, kept, Tracked, query_value, query_field, track,
}

-- The evaluation ends with a result that passes.
abbrev pub Passes : Tracked ComplianceResult → Type 0
Passes (records, raised e) = ⊥
Passes (records, ok r) = r.status ≡ pass

-- There is such a field, with a value, and the provider answers for it as `Good` says.
pub record Answered (provider : Provider) (str : Json → String) (options : Map String String)
    (field : Option Evidence) (Good : Evidence → Verification → Type 0) : Type 0 where
  pub item : Evidence
  pub answer : Verification
  pub found : field ≡ some item
  pub valued : is_null item.value ≡ false
  pub answers : provider item.bidder_id (str item.value) options ≡ ok answer
  pub good : Good item answer

module _ (provider : Provider) (str : Json → String) (options : Map String String)
    (Good : Evidence → Verification → Type 0) (absent : Calls) (null_value : Evidence → Calls)
    (answered : Evidence → Outcome RuleError Verification → Calls)
    (records : List Verification) where
  track-query :
      (item : Evidence)
      → track (some provider) (query_value str options null_value answered item false) records
        ≡ track
            (some provider)
            (answered item (provider item.bidder_id (str item.value) options))
            (kept records (provider item.bidder_id (str item.value) options))
  unfolding track
  track-query item = refl

  -- Only the answer decides.
  pub record Decides : Type 0 where
    pub absent_fails : ¬ Passes (track (some provider) absent records)
    pub null_fails : (item : Evidence) → ¬ Passes (track (some provider) (null_value item) records)
    pub raised_fails :
        (item : Evidence) (e : RuleError)
        → ¬ Passes (track (some provider) (answered item (raised e)) records)
    pub decides :
        (item : Evidence) (v : Verification)
        → Passes (track (some provider) (answered item (ok v)) (kept records (ok v))) ↔ Good item v

  answer_when :
      (field : Option Evidence) (item : Evidence) (o : Outcome RuleError Verification)
      → Decides
      → field ≡ some item
      → is_null item.value ≡ false
      → provider item.bidder_id (str item.value) options ≡ o
      → Passes (track (some provider) (answered item o) (kept records o))
      → Answered provider str options field Good
  answer_when field item (raised e) d found valued answers p = absurd (d.raised_fails item e p)
  answer_when field item (ok v) d found valued answers p = record {
    item = item;
    answer = v;
    found = found;
    valued = valued;
    answers = answers;
    good = (d.decides item v).0 p;
  }

  value_when :
      (field : Option Evidence) (item : Evidence) (b : Bool)
      → Decides
      → field ≡ some item
      → is_null item.value ≡ b
      → Passes (track (some provider) (query_value str options null_value answered item b) records)
      → Answered provider str options field Good
  unfolding track
  value_when field item true d found valued p = absurd (d.null_fails item p)
  value_when field item false d found valued p =
      answer_when field item (provider item.bidder_id (str item.value) options) d found valued refl
        p

  field_when :
      (field o : Option Evidence)
      → Decides
      → field ≡ o
      → Passes
          (track (some provider) (query_field str options absent null_value answered o) records)
      → Answered provider str options field Good
  field_when field none d found p = absurd (d.absent_fails p)
  field_when field (some item) d found p = value_when field item (is_null item.value) d found refl p

  Passes-when :
      (field : Option Evidence)
      → Decides
      → Answered provider str options field Good
      → Passes
          (track (some provider) (query_field str options absent null_value answered field) records)
  Passes-when field d a =
      rw (a.found, a.valued, track-query a.item, a.answers) ((d.decides a.item a.answer).1 a.good)

  -- Such a rule passes exactly when the provider gives a good answer for the field.
  pub query_field-Passes :
      (field : Option Evidence)
      → Decides
      → Passes
          (track (some provider) (query_field str options absent null_value answered field) records)
        ↔ Answered provider str options field Good
  query_field-Passes field d = (field_when field field d refl, Passes-when field d)
