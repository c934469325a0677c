-- ===== src/Pipeline.antt =====
-- src/infrastructure/pipeline.py: the stages a submission goes through and the moves between them.
pub mod Moves
mod Tests
use core_engine_ge_m.Base.{
  ℕ, zero, suc, ◌≡◌, ◌↔◌, refl, ap, ◌∙◌, sym, String, Bool, true, false, Option, none, some, List,
  [], ◌∷◌, ◌++◌, Map, lookup, insert, Equality, ◌==◌, nat_beq, nat_beq_iff, contains, Outcome, ok,
  raised, if◌then◌else◌, arith,
}

pub data ProcessingStage : Type 0 where
  ingested normalized verification_pending verified ai_analysis_pending ai_analyzed :
      ProcessingStage
  explanation_pending explanation_ready complete failed : ProcessingStage

-- `LINEAR_STAGES`
abbrev pub linear_stages : List ProcessingStage
linear_stages =
    ingested ∷ normalized ∷ verification_pending ∷ verified ∷ ai_analysis_pending ∷ ai_analyzed
    ∷ explanation_pending ∷ explanation_ready ∷ complete ∷ []

-- A stage's place in the order of the enumeration.
abbrev pub position : ProcessingStage → ℕ
position ingested = 0
position normalized = 1
position verification_pending = 2
position verified = 3
position ai_analysis_pending = 4
position ai_analyzed = 5
position explanation_pending = 6
position explanation_ready = 7
position complete = 8
position failed = 9

nth : ℕ → List ProcessingStage → ProcessingStage
nth n [] = failed
nth zero (s ∷ stages) = s
nth (suc n) (s ∷ stages) = nth n stages

at_position : ℕ → ProcessingStage
unfolding nth
at_position n = nth n linear_stages

at_position-position : (s : ProcessingStage) → at_position (position s) ≡ s
unfolding at_position nth
at_position-position ingested = refl
at_position-position normalized = refl
at_position-position verification_pending = refl
at_position-position verified = refl
at_position-position ai_analysis_pending = refl
at_position-position ai_analyzed = refl
at_position-position explanation_pending = refl
at_position-position explanation_ready = refl
at_position-position complete = refl
at_position-position failed = refl

abbrev pub stage_beq : ProcessingStage → ProcessingStage → Bool
stage_beq a b = nat_beq (position a) (position b)

pub stage_beq_iff : (a b : ProcessingStage) → (stage_beq a b ≡ true) ↔ (a ≡ b)
stage_beq_iff a b = (
  λ h.
      sym (at_position-position a)
      ∙ ap at_position ((nat_beq_iff (position a) (position b)).0 h)
      ∙ at_position-position b,
  λ e. (nat_beq_iff (position a) (position b)).1 (ap position e),
)

instance abbrev pub stage_eq : Equality ProcessingStage
stage_eq = record { equals = stage_beq; equals_iff = stage_beq_iff }

-- `stage.value`
abbrev pub stage_name : ProcessingStage → String
stage_name ingested = "INGESTED"
stage_name normalized = "NORMALIZED"
stage_name verification_pending = "VERIFICATION_PENDING"
stage_name verified = "VERIFIED"
stage_name ai_analysis_pending = "AI_ANALYSIS_PENDING"
stage_name ai_analyzed = "AI_ANALYZED"
stage_name explanation_pending = "EXPLANATION_PENDING"
stage_name explanation_ready = "EXPLANATION_READY"
stage_name complete = "COMPLETE"
stage_name failed = "FAILED"

-- Each stage of the list with the one that follows it.
abbrev successors_in : List ProcessingStage → Map ProcessingStage ProcessingStage
successors_in (s ∷ t ∷ rest) = (s, t) ∷ successors_in (t ∷ rest)
successors_in _ = []

-- `SUCCESSOR`
abbrev pub successor : Map ProcessingStage ProcessingStage
successor = successors_in linear_stages

-- `next_stage`
unfoldable pub next_stage : ProcessingStage → Option ProcessingStage
next_stage stage = lookup stage successor

abbrev with_successor : Option ProcessingStage → List ProcessingStage → List ProcessingStage
with_successor none targets = targets
with_successor (some s) targets = targets ++ s ∷ []

-- The loop of `_allowed_transitions`.
unfoldable pub allowed_from :
    List ProcessingStage
    → Map ProcessingStage (List ProcessingStage)
    → Map ProcessingStage (List ProcessingStage)
unfolding next_stage
allowed_from [] allowed = allowed
allowed_from (stage ∷ stages) allowed =
    allowed_from stages
      (insert stage (with_successor (next_stage stage) (stage ∷ failed ∷ [])) allowed)

-- `ALLOWED_TRANSITIONS`
unfoldable pub allowed_transitions : Map ProcessingStage (List ProcessingStage)
unfolding allowed_from
allowed_transitions =
    insert failed (linear_stages ++ failed ∷ [])
      (insert complete (complete ∷ []) (allowed_from linear_stages []))

pub data TransitionError : Type 0 where
  invalid_state_transition key_error : TransitionError

unfoldable pub check_target :
    Option (List ProcessingStage) → ProcessingStage → Outcome TransitionError ProcessingStage
check_target none target = raised key_error
check_target (some targets) target =
    if contains target targets then ok target else raised invalid_state_transition

unfoldable pub validate_transition :
    ProcessingStage → ProcessingStage → Outcome TransitionError ProcessingStage
unfolding check_target
validate_transition current target = check_target (lookup current allowed_transitions) target
