-- ===== src/Runtime/Queue/Present.antt =====
-- `InMemoryQueueBackend` (queueing.py): no command is lost, where no time overflows.
use matterloop.Base.{◌≡◌, ℕ, ◌≤◌, ◌+◌, String, Option, none, some, true, false, if◌then◌else◌, elem}
use matterloop.Runtime.Queue.{
  PendingJob, Backend, max_time, lease, release, validate_finite_seconds, default_seconds,
}
use matterloop.Runtime.Queue.Counts.{one}
use matterloop.Runtime.Queue.Calls.{Call}
use matterloop.Runtime.Queue.Places.{places}

-- A known run has a pending job or a lease.
pub record IsPresent (b : Backend) : Type 0 where
  pub somewhere : (k : String) → (if elem k b.known_runs then 1 else 0) ≤ places k b

-- The times that a call computes do not overflow.
abbrev pub InRange : Call → Type 0
InRange (Call.lease fresh worker seconds now) =
    (span : ℕ)
    → validate_finite_seconds (default_seconds seconds) true ≡ some span
    → now + span ≤ max_time
InRange (Call.release l delay now later) =
    (span : ℕ) → validate_finite_seconds delay false ≡ some span → later + span ≤ max_time
InRange _ = Unit

abbrev taken_count : String → Option PendingJob → ℕ
taken_count k none = 0
taken_count k (some p) = one p.job.run_id k

-- Every known run is pending, leased or taken.
record Takes (b : Backend) (r : Option PendingJob × Backend) : Type 0 where
  same_leases : r.1.leased ≡ b.leased
  somewhere :
      (k : String) → (if elem k r.1.known_runs then 1 else 0) ≤ taken_count k r.0 + places k r.1
