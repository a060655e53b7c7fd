-- ===== src/Runtime/Queue/Tests.antt =====
-- The queue backend at concrete commands.
use matterloop.Base.{◌≡◌, refl, String, List, [], ◌∷◌, some, none, false, arith, All, length, ◌==◌}
use matterloop.Base.Int.{pos}
use matterloop.Base.Dict.{get, put, remove}
use matterloop.Base.Set.{add, discard}
use matterloop.Core.Status.{ResumeMode}
use matterloop.Runtime.Queue
use matterloop.Runtime.Queue.{
  QueueAction, QueuedRun, QueueLease, Backend, Seconds, empty, enqueue, lease, cancel, renew,
  acknowledge, release, ok, err, lease_lost, validate_finite_seconds, reclaim_expired,
}
use matterloop.Runtime.Queue.Calls.{Call, run, apply, hands_out}
use matterloop.Runtime.Queue.Places.{IsExclusive, IsExclusive-empty}
use matterloop.Runtime.Queue.Exclusive.{IsExclusive-run, IsExclusive-cancel}
use matterloop.Runtime.Queue.Cancelled.{cancelled_never_leased, all_leases}
use matterloop.Runtime.Queue.Stale.{expired_lease_lost}
use matterloop.Runtime.Queue.Dropped.{LeaseCall, released_run_dropped, leases_of}

abbrev command : String → QueuedRun
command id = record {
  run_id = id;
  action = QueueAction.resume;
  request = none;
  resume_mode = ResumeMode.continue;
  enqueued_at = 0;
}

-- Two commands, of which a worker has leased the first.
abbrev calls : List Call
calls =
    Call.enqueue (command "r1") 10
    ∷ Call.enqueue (command "r2") 20
    ∷ Call.lease "l1" "w" (some (Seconds.finite (pos 100))) 30
    ∷ []

abbrev leased_first : Backend
leased_first = run calls empty

abbrev first_lease : QueueLease
first_lease = record {
  lease_id = "l1";
  job = command "r1";
  worker_id = "w";
  expires_at = 130;
  attempt = 1;
}

IsExclusive-run_example : IsExclusive leased_first
unfolding Queue.enqueue Queue.lease Queue.release Queue.cancel Queue.heappush run apply hands_out
    all_leases get put remove add discard
IsExclusive-run_example = IsExclusive-run calls empty (tt, (tt, (refl, tt))) IsExclusive-empty

-- The first command is cancelled while it is leased, its lease is released, and another is taken.
abbrev after_cancel : List Call
after_cancel =
    Call.release first_lease (Seconds.finite (pos 0)) 40 40 ∷ Call.lease "l2" "w" none 50 ∷ []

abbrev OtherThan : String → QueueLease → Type 0
OtherThan id l = (l.job.run_id == id) ≡ false

cancelled_never_leased_example :
    All (OtherThan "r1") (all_leases after_cancel (cancel "r1" leased_first).1)
unfolding Queue.enqueue Queue.lease Queue.release Queue.cancel Queue.heappush run apply hands_out
    all_leases get put remove add discard
cancelled_never_leased_example =
    cancelled_never_leased "r1" after_cancel leased_first IsExclusive-run_example refl
      (tt, (refl, tt)) (λ e. e, (λ e. e, tt))

-- The other command is handed out.
one_lease : length (all_leases after_cancel (cancel "r1" leased_first).1) ≡ 1
unfolding Queue.enqueue Queue.lease Queue.release Queue.cancel Queue.heappush run apply hands_out
    all_leases get put remove add discard
one_lease = refl

expired_lease_lost_example :
    (renew first_lease (Seconds.finite (pos 100)) 200 leased_first
      ≡ (err (lease_lost "l1"), reclaim_expired 200 leased_first))
    × (acknowledge first_lease 200 leased_first ≡ (ok tt, reclaim_expired 200 leased_first))
    × (release first_lease (Seconds.finite (pos 0)) 200 201 leased_first
        ≡ (ok tt, reclaim_expired 200 leased_first))
unfolding validate_finite_seconds
expired_lease_lost_example =
    expired_lease_lost first_lease 200 201 leased_first (Seconds.finite (pos 100))
      (Seconds.finite (pos 0)) 100 0 IsExclusive-run_example.leases (omega arith) refl refl

abbrev cancelled_first : Backend
cancelled_first = (cancel "r1" leased_first).1

-- The same command, enqueued again after the release.
abbrev enqueued_again : Backend
enqueued_again =
    (enqueue (command "r1") 60
      (release first_lease (Seconds.finite (pos 0)) 40 41 cancelled_first).1).1

abbrev one_call : List LeaseCall
one_call = record { fresh = "l3"; worker = "w"; seconds = none; now = 70 } ∷ []

released_run_dropped_example :
    ((enqueue
        (command "r1")
        60
        (release first_lease (Seconds.finite (pos 0)) 40 41 cancelled_first).1).0
      ≡ ok tt)
    × All (OtherThan "r1") (leases_of one_call enqueued_again)
unfolding Queue.enqueue Queue.lease Queue.release Queue.cancel Queue.heappush run apply hands_out
    all_leases get put remove add discard
released_run_dropped_example =
    released_run_dropped first_lease (Seconds.finite (pos 0)) 0 40 41 cancelled_first (command "r1")
      60 one_call (IsExclusive-cancel "r1" leased_first IsExclusive-run_example) refl refl refl refl
      (refl, tt)
