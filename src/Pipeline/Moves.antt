-- ===== src/Pipeline/Moves.antt =====
-- What the table of moves allows, and where a sequence of moves leads.
use core_engine_ge_m.Base.{
  ℕ, zero, suc, ◌≡◌, refl, Bool, true, false, Option, none, some, List, [], ◌∷◌, lookup, insert,
  ◌+◌, ◌≤◌, ◌==◌, nat_beq, ◌||◌, contains, Outcome, ok, raised, if◌then◌else◌, arith, length, ◌>>=◌,
  ◌≢◌,
}
use core_engine_ge_m.Pipeline.{
  ProcessingStage, ingested, normalized, verification_pending, verified, ai_analysis_pending,
  ai_analyzed, explanation_pending, explanation_ready, complete, failed, position, stage_eq,
  next_stage, allowed_transitions, validate_transition, TransitionError, invalid_state_transition,
  allowed_from,
}

code : Unit {0}
unfolding validate_transition allowed_transitions lookup insert next_stage allowed_from
code = tt

-- The same rule by the places of the stages: a stage may be entered again, every stage but the
-- last may fail, a failed one may go anywhere, and any other move is to the next stage.
abbrev pub permitted : ProcessingStage → ProcessingStage → Bool
permitted complete b = b == complete
permitted failed b = true
permitted a b = a == b || b == failed || nat_beq (position b) (position a + 1)

-- A move is validated exactly when the places of the two stages permit it, and then its value is
-- the target; any other move raises `InvalidStateTransitionError`, and none a `KeyError`.
pub validate_transition_lem :
    (a b : ProcessingStage)
    → validate_transition a b ≡ (if permitted a b then ok b else raised invalid_state_transition)
unfolding code
validate_transition_lem a b = ground arith

-- The moves to `targets`, one after the other, each validated.
unfoldable pub walk :
    ProcessingStage → List ProcessingStage → Outcome TransitionError ProcessingStage
walk a [] = ok a
walk a (b ∷ targets) = validate_transition a b >>= λ c. walk c targets

-- The stages that `next_stage` leads through, at most `n`.
abbrev append_next :
    Option ProcessingStage → (ProcessingStage → List ProcessingStage) → List ProcessingStage
append_next none rest = []
append_next (some s) rest = s ∷ rest s

pub follow : ℕ → ProcessingStage → List ProcessingStage
follow zero s = []
follow (suc n) s = append_next (next_stage s) (λ t. follow n t)

complete_absorbs :
    (targets : List ProcessingStage) (b : ProcessingStage)
    → walk complete targets ≡ ok b
    → b ≡ complete
unfolding walk
complete_absorbs [] b h = ground arith
complete_absorbs (t ∷ targets) b h =
    ground (arith, validate_transition_lem complete t, complete_absorbs targets b)

-- Without a failure a sequence of moves never goes back and never skips a stage: it ends no
-- earlier than where it starts, and no further on than it has moves.
pub no_skipping :
    (a : ProcessingStage) (targets : List ProcessingStage) (b : ProcessingStage)
    → a ≢ failed
    → contains failed targets ≡ false
    → walk a targets ≡ ok b
    → (position a ≤ position b) × (position b ≤ position a + length targets)
unfolding walk
no_skipping a [] b live clean h = ground arith
no_skipping a (t ∷ targets) b live clean h =
    ground (arith, validate_transition_lem a t, no_skipping t targets b)

reaches_complete : (a : ProcessingStage) → a ≢ failed → walk a (follow 8 a) ≡ ok complete
unfolding walk follow code
reaches_complete ingested live = refl
reaches_complete normalized live = refl
reaches_complete verification_pending live = refl
reaches_complete verified live = refl
reaches_complete ai_analysis_pending live = refl
reaches_complete ai_analyzed live = refl
reaches_complete explanation_pending live = refl
reaches_complete explanation_ready live = refl
reaches_complete complete live = refl
reaches_complete failed live = ground arith

-- From every stage but a failure, following `next_stage` makes only moves that are allowed, and
-- eight of them are enough to complete; whatever moves are then made, the submission stays complete.
pub follow_completes :
    (a : ProcessingStage) (targets : List ProcessingStage) (b : ProcessingStage)
    → a ≢ failed
    → walk complete targets ≡ ok b
    → (walk a (follow 8 a) ≡ ok complete) × (b ≡ complete)
follow_completes a targets b live h = (reaches_complete a live, complete_absorbs targets b h)
