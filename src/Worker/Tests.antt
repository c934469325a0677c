-- ===== src/Worker/Tests.antt =====
-- The worker at a concrete queue, and the failure policy at a concrete failure.
use core_engine_ge_m.Base.{
  ℕ, ◌≡◌, refl, String, true, Option, none, some, List, [], ◌∷◌, lookup, insert, string_eq, Outcome,
  ok, raised, arith,
}
use core_engine_ge_m.Jobs.Model.{Job}
use core_engine_ge_m.Jobs.Queue.{claim, claim_scan}
use core_engine_ge_m.Jobs.Lease.{ack, fail}
use core_engine_ge_m.Jobs.Tests.{queued, queued-IsValid}
use core_engine_ge_m.Worker.Failures.{
  Exc, os_error, RetryPolicy, decide_failure, delay_for_attempt, Decides, decide_failure_lem,
  float_limit, other, transient_infrastructure,
}
use core_engine_ge_m.Worker.{
  WorkerError, Readings, JobResult, Round, WorkOutcome, unsupported, run_until_empty, run_once,
  run_claimed, done, process_job, refuse, conclude, give_up, finish, go_on, prepend, prepended,
}
use core_engine_ge_m.Worker.Drains.{attempts_left, Idles, run_until_empty_ends}

abbrev policy : RetryPolicy
policy = record { max_attempts = 3; base_delay = 1; multiplier = 2; max_delay = 60 }

abbrev clock : ℕ → Readings
clock n = record { claimed_at = 100; checked_at = 101; finished_at = 102 }

abbrev succeed : ℕ → Job → Outcome Exc JobResult
succeed n job = ok (record { bidder_id = "B1"; snapshot_id = "snap:1" })

abbrev quote : String → String
quote text = text

code : Unit {0}
unfolding lookup insert claim claim_scan ack fail attempts_left run_until_empty run_once run_claimed
    done process_job refuse conclude give_up finish go_on prepend prepended decide_failure
    delay_for_attempt
code = tt

abbrev answer_of :
    Option (Round (List WorkOutcome)) → Option (Outcome WorkerError (List WorkOutcome))
answer_of none = none
answer_of (some r) = some r.1

-- The job in the queue is of another type, and is refused.
run_queued :
    answer_of (run_until_empty quote succeed clock "worker-1" policy 60 2 0 queued)
    ≡ some (ok (unsupported "job-1" "PERMANENT_VALIDATION" ∷ []))
unfolding code
run_queued = refl

run_until_empty_ends_example :
    (end : Round (List WorkOutcome)) × (run_until_empty quote succeed clock "worker-1" policy 60 2 0
        queued
      ≡ some end)
    × Idles quote succeed clock "worker-1" policy 60 end
unfolding code
run_until_empty_ends_example =
    run_until_empty_ends quote succeed clock "worker-1" policy 60 2 0 queued queued-IsValid
      (omega arith)

decide_failure_lem_example : Decides policy (os_error "reset") 2
decide_failure_lem_example = decide_failure_lem policy (os_error "reset") 2 (omega arith)

-- A policy of very many attempts, at one whose power is out of range.
overflows :
    decide_failure (record policy { max_attempts = 2000 }) (os_error "reset") 1025
    ≡ raised (other "(34, 'Numerical result out of range')")
unfolding code float_limit
overflows = refl

doubled :
    decide_failure policy (os_error "reset") 2
    ≡ ok (record {
      kind = transient_infrastructure;
      can_be_retried = true;
      retry_delay = 2;
      text = "reset";
    })
unfolding code float_limit
doubled = refl
