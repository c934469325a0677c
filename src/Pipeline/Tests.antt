-- ===== src/Pipeline/Tests.antt =====
-- Moves of the pipeline, and the theorems at concrete stages.
use core_engine_ge_m.Base.{lookup, insert, ◌≡◌, ◌≢◌, refl, [], ◌∷◌, ◌+◌, ◌≤◌, ok, raised, arith}
use core_engine_ge_m.Pipeline.{
  ingested, normalized, verification_pending, verified, complete, failed, validate_transition,
  next_stage, allowed_from, allowed_transitions, invalid_state_transition,
}
use core_engine_ge_m.Pipeline.Moves.{
  validate_transition_lem, walk, follow, no_skipping, follow_completes,
}

code : Unit {0}
unfolding validate_transition allowed_transitions allowed_from next_stage lookup insert walk
code = tt

skipped_stage : validate_transition ingested verified ≡ raised invalid_state_transition
unfolding code
skipped_stage = refl

ingested-≢-failed : ingested ≢ failed
ingested-≢-failed = λ e. ground arith

validate_transition_lem_example : validate_transition failed verified ≡ ok verified
validate_transition_lem_example = validate_transition_lem failed verified

no_skipping_example : (0 ≤ 2) × (2 ≤ 0 + 3)
unfolding code
no_skipping_example =
    no_skipping ingested (normalized ∷ normalized ∷ verification_pending ∷ []) verification_pending
      ingested-≢-failed refl refl

follow_completes_example : (walk ingested (follow 8 ingested) ≡ ok complete) × (complete ≡ complete)
unfolding code
follow_completes_example =
    follow_completes ingested (complete ∷ complete ∷ []) complete ingested-≢-failed refl
