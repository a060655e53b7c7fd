-- ===== src/Runtime/Queue/Cancelled.antt =====
-- `InMemoryQueueBackend` (queueing.py): a cancelled run is not handed out.
use matterloop.Base.{
  ◌≡◌, refl, ℕ, String, List, [], ◌∷◌, Option, none, some, true, false, ◌==◌, arith, Bool-cases,
  Option-cases, inl, inr, elem, ltb, ◌++◌, All, All-append,
}
use matterloop.Base.Dict.{get}
use matterloop.Base.Set.{discard}
use matterloop.Runtime.Queue.{
  QueueLease, PendingJob, Backend, Seconds, Result, ok, reclaim_expired, take_pending, grant_lease,
  lease_for, add_span, lease, cancel, validate_finite_seconds, default_seconds,
}
use matterloop.Runtime.Queue.Counts.{pending_count, leased_count, leased_count-put}
use matterloop.Runtime.Queue.Places.{IsExclusive, fresh_after_reclaim}
use matterloop.Runtime.Queue.Exclusive.{IsExclusive-apply, IsExclusive-cancel}
use matterloop.Runtime.Queue.Stopped.{
  IsStopped, IsStopped-enqueue, IsStopped-acknowledge, IsStopped-release, IsStopped-renew,
  IsStopped-cancel, IsStopped-reclaim_expired, stops,
}
use matterloop.Runtime.Queue.Calls.{Call, apply, hands_out, handed, Fresh, FreshAll}

abbrev Other : String → Option PendingJob → Type 0
Other k none = Unit
Other k (some p) = (p.job.run_id == k) ≡ false

-- The loop of `lease` takes no job of a stopped run.
record Leaves (k : String) (b : Backend) (r : Option PendingJob × Backend) : Type 0 where
  other : Other k r.0
  stopped : IsStopped k r.1
  same_leases : r.1.leased ≡ b.leased

Leaves-take_pending :
    (k : String) (now : ℕ) (ps : List PendingJob) (b : Backend)
    → pending_count k ps ≡ 0
    → (elem k b.cancelled_runs ≡ false → leased_count k b.leased ≡ 0)
    → Leaves k b (take_pending now ps b)
unfolding take_pending pending_count
Leaves-take_pending k now [] b c u = record {
  other = tt;
  stopped = record { no_pending = refl; marked = u };
  same_leases = refl;
}
Leaves-take_pending k now (p ∷ ps) b c u = elim (Bool-cases (ltb now p.available_at)) [
  | inl later ↦
      rw (later, take_pending)
        (record { other = tt; stopped = record { no_pending = c; marked = u }; same_leases = refl })
  | inr due ↦ elim (Bool-cases (elem p.job.run_id b.cancelled_runs)) [
    | inl y ↦
        (let next =
            Leaves-take_pending k now ps
              (record b { known_runs = discard p.job.run_id b.known_runs }) (ground (arith, c)) u in
          rw (due, y, take_pending)
            (record { other = next.other; stopped = next.stopped; same_leases = next.same_leases }))
    | inr n ↦
        rw (due, n, take_pending)
          (record {
            other = ground (arith, c);
            stopped = record { no_pending = ground (arith, c); marked = u };
            same_leases = refl;
          })
  ]
]

abbrev NotRun : String → QueueLease → Type 0
NotRun k l = (l.job.run_id == k) ≡ false

abbrev Outcome : String → Result (Option QueueLease) × Backend → Type 0
Outcome k r = All (NotRun k) (handed r.0) × IsStopped k r.1

none_granted :
    (k fresh worker : String) (t : Option ℕ) (b : Backend) (r : Option PendingJob × Backend)
    → Leaves k b r
    → get b.leased fresh ≡ none
    → Outcome k (grant_lease fresh worker t r)
unfolding grant_lease
none_granted k fresh worker t b (none, c) h f = (tt, h.stopped)
none_granted k fresh worker none b (some p, c) h f = (tt, h.stopped)
none_granted k fresh worker (some t) b (some p, c) h f =
    let l : QueueLease = record {
      lease_id = fresh;
      job = p.job;
      worker_id = worker;
      expires_at = t;
      attempt = p.attempt;
    } in
    (
      (h.other, tt),
      record {
        no_pending = h.stopped.no_pending;
        marked = λ u. ground (
          arith,
          h.stopped.marked u,
          h.other,
          leased_count-put k fresh l c.leased (rw h.same_leases f),
        );
      },
    )

none_leased :
    (k fresh worker : String) (seconds : Option Seconds) (now : ℕ) (b : Backend)
    → get b.leased fresh ≡ none
    → IsExclusive b
    → IsStopped k b
    → Outcome k (lease fresh worker seconds now b)
unfolding lease lease_for
none_leased k fresh worker seconds now b f x y = elim (Bool-cases (worker == "")) [
  | inl e ↦ rw e (tt, y)
  | inr n ↦ rw n (elim (Option-cases (validate_finite_seconds (default_seconds seconds) true)) [
    | inl e ↦ rw (e, lease_for) (tt, y)
    | inr (span, e) ↦
        (let c = reclaim_expired now b in
          let z = IsStopped-reclaim_expired k now b x y in
          rw (e, lease_for)
            (none_granted k fresh worker (add_span now span) c (take_pending now c.pending c)
              (Leaves-take_pending k now c.pending c z.no_pending z.marked)
              (fresh_after_reclaim fresh now b x.leases f)))
  ])
]

abbrev Enqueues : String → Call → Type 0
Enqueues k (Call.enqueue job now) = (job.run_id == k) ≡ true
Enqueues k _ = ⊥

step_other :
    (k : String) (c : Call) (b : Backend)
    → Fresh c b
    → ¬ Enqueues k c
    → IsExclusive b
    → IsStopped k b
    → All (NotRun k) (hands_out c b) × IsStopped k (apply c b)
unfolding apply hands_out
step_other k (Call.enqueue job now) b f n x y = elim (Bool-cases (job.run_id == k)) [
  | inl e ↦ absurd (n e)
  | inr e ↦ (tt, IsStopped-enqueue k job now b e y)
]
step_other k (Call.lease fresh worker seconds now) b f n x y =
    none_leased k fresh worker seconds now b f x y
step_other k (Call.acknowledge l now) b f n x y = (tt, IsStopped-acknowledge k l now b x y)
step_other k (Call.release l delay now later) b f n x y =
    (tt, IsStopped-release k l delay now later b x y)
step_other k (Call.renew l seconds now) b f n x y = (tt, IsStopped-renew k l seconds now b x y)
step_other k (Call.cancel id) b f n x y = (tt, IsStopped-cancel k id b y)

-- The leases that a sequence of calls hands out.
unfoldable pub all_leases : List Call → Backend → List QueueLease
all_leases [] b = []
all_leases (c ∷ cs) b = hands_out c b ++ all_leases cs (apply c b)

run_other :
    (k : String) (cs : List Call) (b : Backend)
    → FreshAll cs b
    → All (λ (c : Call). ¬ Enqueues k c) cs
    → IsExclusive b
    → IsStopped k b
    → All (NotRun k) (all_leases cs b)
unfolding all_leases
run_other k [] b f n x y = tt
run_other k (c ∷ cs) b (f, fs) (n, ns) x y =
    let here = step_other k c b f n x y in
    All-append (NotRun k) (hands_out c b) (all_leases cs (apply c b)) here.0
      (run_other k cs (apply c b) fs ns (IsExclusive-apply c b f x) here.1)

-- Once `cancel` has accepted a run in an exclusive backend, no sequence of calls with fresh lease
-- identifiers, none of which enqueues the run, hands out a lease for it.
pub cancelled_never_leased :
    (k : String) (cs : List Call) (b : Backend)
    → IsExclusive b
    → (cancel k b).0 ≡ ok true
    → FreshAll cs (cancel k b).1
    → All (λ (c : Call). ¬ Enqueues k c) cs
    → All (λ (l : QueueLease). (l.job.run_id == k) ≡ false) (all_leases cs (cancel k b).1)
cancelled_never_leased k cs b x e f n =
    run_other k cs (cancel k b).1 f n (IsExclusive-cancel k b x) (stops k b x e)
