-- ===== src/Jobs/Durable/Tests.antt =====
-- The durable queue: the theorems at concrete queues and tables.
use core_engine_ge_m.Base.{◌≡◌, true, some, [], lookup, insert, ok, arith, string_eq}
use core_engine_ge_m.Jobs.Queue
use core_engine_ge_m.Jobs.Valid.{empty-IsValid}
use core_engine_ge_m.Jobs.Tests.{
  first_job, running_job, leased, leased-IsOwner, new_job-IsAdmissible,
}
use core_engine_ge_m.Jobs.Durable.{
  Durable, record_of, save, saved, mirror, mirrored, enqueue, claim, claim_mirrored, renew_lease,
}
use core_engine_ge_m.Jobs.Durable.Mirror.{IsMirrored}
use core_engine_ge_m.Jobs.Durable.Trace.{
  enqueues, claims, Reach, here, next, Reach-IsMirrored, renewal_unmirrored,
}

abbrev nothing : Durable
nothing = record { queue = Queue.empty; table = record { jobs = []; jobs_by_idem = [] } }

nothing-IsMirrored : IsMirrored nothing
unfolding lookup
nothing-IsMirrored = record {
  valid = empty-IsValid;
  covered = λ id. tt;
  allowed = λ id job e. ground arith;
}

-- One job, enqueued and claimed at 100 for 60 ticks.
abbrev claimed_once : Durable
claimed_once = record {
  queue = leased;
  table = save (record_of running_job) (record { jobs = []; jobs_by_idem = [] });
}

code : Unit {0}
unfolding Queue.enqueue Queue.claim Queue.claim_scan lookup insert enqueue claim claim_mirrored
    mirrored mirror saved
code = tt

path_to_claimed_once : Reach nothing claimed_once
unfolding code
path_to_claimed_once =
    next (next here (enqueues first_job (new_job-IsAdmissible "job-1" "idem:1") (omega arith)))
      (claims "worker-1" 60 100)

Reach-IsMirrored_example : IsMirrored claimed_once
Reach-IsMirrored_example =
    Reach-IsMirrored {d = nothing} {e = claimed_once} nothing-IsMirrored path_to_claimed_once

renewal_unmirrored_example :
    ((renew_lease "job-1" "worker-1" 60 160 claimed_once).1 ≡ ok true)
    × (lookup "job-1" (renew_lease "job-1" "worker-1" 60 160 claimed_once).0.queue.jobs
        ≡ some (record running_job { lease_expires_at = some 220; updated_at = 160 }))
    × ((renew_lease "job-1" "worker-1" 60 160 claimed_once).0.table ≡ claimed_once.table)
renewal_unmirrored_example =
    renewal_unmirrored claimed_once "job-1" "worker-1" 60 160 running_job leased-IsOwner
