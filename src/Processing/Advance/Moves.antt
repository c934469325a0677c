-- ===== src/Processing/Advance/Moves.antt =====
-- `advance_stage` makes the moves that the pipeline permits and no other, `fail_submission` makes its
-- move from every stage, and every stage that is stored is one of the pipeline.
use core_engine_ge_m.Base.{
  ℕ, ◌≡◌, refl, String, false, Option, some, [], ◌∷◌, ◌++◌, lookup, insert, any, ◌==◌, string_eq,
  ok, raised, if◌then◌else◌, ◌∙◌, ap, Bool-cases, inl, inr,
}
use core_engine_ge_m.Pipeline.{
  ProcessingStage, ingested, normalized, verification_pending, verified, ai_analysis_pending,
  ai_analyzed, explanation_pending, explanation_ready, complete, failed, stage_name, stage_eq,
  validate_transition, invalid_state_transition,
}
use core_engine_ge_m.Pipeline.Moves.{permitted, validate_transition_lem}
use core_engine_ge_m.Store.{Store}
use core_engine_ge_m.Store.Records.{SubmissionRecord, AuditEventRecord}
use core_engine_ge_m.Store.Entities.{save_submission, get_submission}
use core_engine_ge_m.Store.Events.{add_audit}
use core_engine_ge_m.Store.Linked.{IsLinked}
use core_engine_ge_m.Processing.{
  ProcessingError, from_pipeline, Body, and_then, call, transact, audit_event,
}
use core_engine_ge_m.Processing.Transactions.{from_body, settled, wrapped}
use core_engine_ge_m.Processing.Atomic.{transact_lem}
use core_engine_ge_m.Processing.Advance.{
  stage_of, advanced, advanced_event, save_advanced, advance_from, advance_found, advance_stage,
  failed_submission, failed_event, fail_found, fail_submission,
}

-- Reading the name of a stage gives the stage.
pub stage_of-stage_name : (s : ProcessingStage) → stage_of (stage_name s) ≡ some s
unfolding stage_of
stage_of-stage_name ingested = refl
stage_of-stage_name normalized = refl
stage_of-stage_name verification_pending = refl
stage_of-stage_name verified = refl
stage_of-stage_name ai_analysis_pending = refl
stage_of-stage_name ai_analyzed = refl
stage_of-stage_name explanation_pending = refl
stage_of-stage_name explanation_ready = refl
stage_of-stage_name complete = refl
stage_of-stage_name failed = refl

-- The store with a submission rewritten and an audit event appended.
abbrev pub rewritten : SubmissionRecord → AuditEventRecord → Store → Store
rewritten r event s = record s {
  submissions = insert r.submission_id r s.submissions;
  audit_events = s.audit_events ++ event ∷ [];
}

pub save_submission-existing :
    (s : Store) (r old : SubmissionRecord)
    → lookup r.submission_id s.submissions ≡ some old
    → save_submission r s
      ≡ (record s { submissions = insert r.submission_id r s.submissions }, ok r)
unfolding save_submission
save_submission-existing s r old found = rw found refl

pub add_audit-fresh :
    (s : Store) (event : AuditEventRecord)
    → any (λ e. e.event_id == event.event_id) s.audit_events ≡ false
    → add_audit event s ≡ (record s { audit_events = s.audit_events ++ event ∷ [] }, ok event)
unfolding add_audit
add_audit-fresh s event fresh = rw fresh refl

save_then_audit :
    (s : Store) (r old : SubmissionRecord) (event : AuditEventRecord)
    → lookup r.submission_id s.submissions ≡ some old
    → any (λ e. e.event_id == event.event_id) s.audit_events ≡ false
    → and_then
        (call (save_submission r s))
        (λ _ t. and_then (call (add_audit event t)) (λ _ u. (u, ok r)))
      ≡ (rewritten r event s, ok r)
unfolding and_then call
save_then_audit s r old event found fresh =
    rw
      (
        save_submission-existing s r old found,
        add_audit-fresh (record s { submissions = insert r.submission_id r s.submissions }) event
            fresh,
      )
      refl

pub settle_ok :
    {A : Type 0} (body : Body A) (s t : Store) (a : A)
    → body s ≡ (t, ok a)
    → transact body s ≡ (t, ok a)
settle_ok body s t a e = transact_lem body s ∙ ap (λ c. ((settled s c).0, wrapped c.1)) e

pub settle_raised :
    {A : Type 0} (body : Body A) (s t : Store) (x : ProcessingError)
    → body s ≡ (t, raised x)
    → transact body s ≡ (s, raised (from_body x))
settle_raised body s t x e = transact_lem body s ∙ ap (λ c. ((settled s c).0, wrapped c.1)) e

module _ (submission_id : String) (target : ProcessingStage) (correlation_id : Option String)
    (event_id : String) (now : ℕ) (s : Store) (sub : SubmissionRecord)
    (current : ProcessingStage) where
  abbrev pub AdvancesAs : Type 0
  AdvancesAs = advance_stage submission_id target correlation_id event_id now s ≡ (
      if permitted current target
      then (
        rewritten (advanced target now sub)
            (advanced_event submission_id target correlation_id event_id now sub) s,
        ok (advanced target now sub),
      )
      else (s, raised (from_body (from_pipeline invalid_state_transition))))

  advance_body :
      lookup submission_id s.submissions ≡ some sub
      → sub.stage ≡ stage_name current
      → advance_found submission_id target correlation_id event_id now
          (get_submission submission_id s)
          s
        ≡ save_advanced submission_id target correlation_id event_id now sub
            (if permitted current target then ok target else raised invalid_state_transition)
            s
  unfolding advance_found advance_from get_submission
  advance_body found staged =
      rw (found, staged, stage_of-stage_name current, validate_transition_lem current target) refl

  saved :
      IsLinked s
      → lookup submission_id s.submissions ≡ some sub
      → any (λ e. e.event_id == event_id) s.audit_events ≡ false
      → save_advanced submission_id target correlation_id event_id now sub (ok target) s ≡ (
        rewritten
            (advanced target now sub)
            (advanced_event submission_id target correlation_id event_id now sub)
            s,
        ok (advanced target now sub),
      )
  unfolding save_advanced audit_event
  saved l found fresh =
      save_then_audit s (advanced target now sub) sub
        (advanced_event submission_id target correlation_id event_id now sub)
        (ap (λ i. lookup i s.submissions) (l.submission_named submission_id sub found) ∙ found)
        fresh

  refused :
      save_advanced submission_id target correlation_id event_id now sub
        (raised invalid_state_transition)
        s
      ≡ (s, raised (from_pipeline invalid_state_transition))
  unfolding save_advanced
  refused = refl

  -- `advance_stage` on a submission that is there, in a stage of the pipeline, in a store whose
  -- references hold and under a new event ID: when the pipeline permits the move from the stage that
  -- is stored, the submission is stored under the new stage, without its last error and with the
  -- stage as its last completed one if it is completable, an audit event is appended, and nothing
  -- else changes; otherwise `InvalidStateTransitionError` is raised and nothing changes.
  pub advance_stage_lem :
      IsLinked s
      → lookup submission_id s.submissions ≡ some sub
      → sub.stage ≡ stage_name current
      → any (λ e. e.event_id == event_id) s.audit_events ≡ false
      → AdvancesAs
  unfolding advance_stage
  advance_stage_lem l found staged fresh = elim (Bool-cases (permitted current target)) [
    | inl legal ↦
        rw legal (settle_ok _ s _ _ (advance_body found staged ∙ rw legal (saved l found fresh)))
    | inr illegal ↦
        rw illegal (settle_raised _ s s _ (advance_body found staged ∙ rw illegal (refused)))
  ]

module _ (submission_id error error_kind : String) (correlation_id : Option String)
    (event_id : String) (now : ℕ) (s : Store) (sub : SubmissionRecord) where
  fail_body :
      IsLinked s
      → lookup submission_id s.submissions ≡ some sub
      → any (λ e. e.event_id == event_id) s.audit_events ≡ false
      → fail_found submission_id error error_kind correlation_id event_id now
          (get_submission submission_id s)
          s
        ≡ (
          rewritten
              (failed_submission error error_kind now sub)
              (failed_event submission_id error error_kind correlation_id event_id now)
              s,
          ok (failed_submission error error_kind now sub),
        )
  unfolding fail_found get_submission audit_event
  fail_body l found fresh = rw found (
      save_then_audit s (failed_submission error error_kind now sub) sub
        (failed_event submission_id error error_kind correlation_id event_id now)
        (ap (λ i. lookup i s.submissions) (l.submission_named submission_id sub found) ∙ found)
        fresh)

  -- `fail_submission` on a submission that is there, in a store whose references hold and under a new
  -- event ID: the submission is stored as FAILED, with the error and one more attempt, an audit event
  -- is appended, and nothing else changes. It makes the move from whatever stage the submission is
  -- in, COMPLETE too, from which the pipeline does not permit it.
  pub fail_submission_lem :
      IsLinked s
      → lookup submission_id s.submissions ≡ some sub
      → any (λ e. e.event_id == event_id) s.audit_events ≡ false
      → (fail_submission submission_id error error_kind correlation_id event_id now s ≡ (
        rewritten
            (failed_submission error error_kind now sub)
            (failed_event submission_id error error_kind correlation_id event_id now)
            s,
        ok (failed_submission error error_kind now sub),
      ))
        × (validate_transition complete failed ≡ raised invalid_state_transition)
  unfolding fail_submission
  fail_submission_lem l found fresh =
      (settle_ok _ s _ _ (fail_body l found fresh), validate_transition_lem complete failed)
