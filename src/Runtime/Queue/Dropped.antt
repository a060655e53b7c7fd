-- ===== src/Runtime/Queue/Dropped.antt =====
-- `InMemoryQueueBackend` (queueing.py): what becomes of a run whose lease is released after the run
-- was cancelled.
use matterloop.Base.{
  ◌≡◌, refl, ℕ, String, List, [], ◌∷◌, Option, none, some, true, false, ◌==◌, ◌++◌, All, All-append,
  arith, eq_iff, Bool-cases, Option-cases, inl, inr, ap, elem, ltb,
}
use matterloop.Base.Dict.{get}
use matterloop.Base.Set.{discard, elem-discard}
use matterloop.Runtime.Queue.{
  QueuedRun, QueueLease, PendingJob, Backend, Seconds, Result, ok, drop_lease, forget_run,
  push_pending, reclaim_one, reclaim_expired, take_pending, grant_lease, lease_for, give_back,
  add_span, is_current, lease, enqueue, release, validate_finite_seconds, default_seconds,
}
use matterloop.Runtime.Queue.Counts.{
  leased_count, Leases, leased_count-remove, leased_count-put, Leases-put, Leases-remove,
}
use matterloop.Runtime.Queue.Reclaim.{carry_reclaim}
use matterloop.Runtime.Queue.Places.{
  IsExclusive, places, IsExclusive-reclaim_expired, is_current→IsCurrent, same_lease→run,
  fresh_after_reclaim,
}
use matterloop.Runtime.Queue.Calls.{handed}

-- A run that is marked as cancelled and not leased.
record IsMarked (k : String) (b : Backend) : Type 0 where
  marked : elem k b.cancelled_runs ≡ true
  not_leased : leased_count k b.leased ≡ 0
  leases : Leases b.leased

IsMarked-reclaim_one :
    (k : String) (now : ℕ) (l : QueueLease) (b : Backend)
    → Leases b.leased
    → get b.leased l.lease_id ≡ some l
    → IsMarked k b
    → IsMarked k (reclaim_one now l b)
unfolding reclaim_one forget_run drop_lease push_pending
IsMarked-reclaim_one k now l b h e x =
    let gone = leased_count-remove k l.lease_id l b.leased h e in
    elim (Bool-cases (elem l.job.run_id b.cancelled_runs)) [
      | inl y ↦ rw y (record {
        marked =
            ground
              (arith, x.marked, gone, x.not_leased, elem-discard k l.job.run_id b.cancelled_runs);
        not_leased = ground (arith, gone, x.not_leased);
        leases = Leases-remove b.leased l.lease_id h;
      })
      | inr n ↦ rw n (record {
        marked = x.marked;
        not_leased = ground (arith, gone, x.not_leased);
        leases = Leases-remove b.leased l.lease_id h;
      })
    ]

-- The loop of `lease` takes no job of a marked run, and keeps the marks and the leases.
record Passes (k : String) (b : Backend) (r : Option PendingJob × Backend) : Type 0 where
  other : (p : PendingJob) → r.0 ≡ some p → (p.job.run_id == k) ≡ false
  same_marks : r.1.cancelled_runs ≡ b.cancelled_runs
  same_leases : r.1.leased ≡ b.leased

Passes-take_pending :
    (k : String) (now : ℕ) (ps : List PendingJob) (b : Backend)
    → elem k b.cancelled_runs ≡ true
    → Passes k b (take_pending now ps b)
unfolding take_pending
Passes-take_pending k now [] b y = record {
  other = λ p e. cc;
  same_marks = refl;
  same_leases = refl;
}
Passes-take_pending k now (p ∷ ps) b y = elim (Bool-cases (ltb now p.available_at)) [
  | inl later ↦
      rw (later, take_pending) (record { other = λ q e. cc; same_marks = refl; same_leases = refl })
  | inr due ↦ elim (Bool-cases (elem p.job.run_id b.cancelled_runs)) [
    | inl c ↦
        (let next =
            Passes-take_pending k now ps
              (record b { known_runs = discard p.job.run_id b.known_runs }) y in
          rw (due, c, take_pending)
            (record {
              other = next.other;
              same_marks = next.same_marks;
              same_leases = next.same_leases;
            }))
    | inr n ↦
        rw (due, n, take_pending)
          (record {
            other = λ q e. ground (
              arith,
              e,
              n,
              y,
              eq_iff p.job.run_id k,
              ap (λ (i : String). elem i b.cancelled_runs) ((eq_iff p.job.run_id k).0 _),
            );
            same_marks = refl;
            same_leases = refl;
          })
  ]
]

abbrev Other : String → Result (Option QueueLease) × Backend → Type 0
Other k r = All (λ (l : QueueLease). (l.job.run_id == k) ≡ false) (handed r.0) × IsMarked k r.1

none_granted :
    (k fresh worker : String) (t : Option ℕ) (b : Backend) (r : Option PendingJob × Backend)
    → IsMarked k b
    → Passes k b r
    → get b.leased fresh ≡ none
    → Other k (grant_lease fresh worker t r)
unfolding grant_lease
none_granted k fresh worker t b (none, c) x h f = (
  tt,
  record {
    marked = rw h.same_marks x.marked;
    not_leased = rw h.same_leases x.not_leased;
    leases = rw h.same_leases x.leases;
  },
)
none_granted k fresh worker none b (some p, c) x h f = (
  tt,
  record {
    marked = rw h.same_marks x.marked;
    not_leased = rw h.same_leases x.not_leased;
    leases = rw h.same_leases x.leases;
  },
)
none_granted k fresh worker (some t) b (some p, c) x h f =
    let l : QueueLease = record {
      lease_id = fresh;
      job = p.job;
      worker_id = worker;
      expires_at = t;
      attempt = p.attempt;
    } in
    let n = h.other p refl in
    (
      (n, tt),
      record {
        marked = rw h.same_marks x.marked;
        not_leased = ground (
          arith,
          n,
          x.not_leased,
          ap (leased_count k) h.same_leases,
          leased_count-put k fresh l c.leased (rw h.same_leases f),
        );
        leases = Leases-put c.leased l (rw h.same_leases x.leases);
      },
    )

-- The arguments of a call of `lease`.
pub record LeaseCall : Type 0 where
  pub fresh : String
  pub worker : String
  pub seconds : Option Seconds
  pub now : ℕ

abbrev answer : LeaseCall → Backend → Result (Option QueueLease) × Backend
answer q b = lease q.fresh q.worker q.seconds q.now b

none_leased :
    (k : String) (q : LeaseCall) (b : Backend)
    → get b.leased q.fresh ≡ none
    → IsMarked k b
    → Other k (answer q b)
unfolding lease lease_for
none_leased k q b f x = elim (Bool-cases (q.worker == "")) [
  | inl e ↦ rw e (tt, x)
  | inr n ↦ rw n (elim (Option-cases (validate_finite_seconds (default_seconds q.seconds) true)) [
    | inl e ↦ rw (e, lease_for) (tt, x)
    | inr (span, e) ↦
        (let c = reclaim_expired q.now b in
          let y =
            (carry_reclaim q.now (IsMarked k) (IsMarked-reclaim_one k q.now) b x.leases x).0 in
          rw (e, lease_for)
            (none_granted k q.fresh q.worker (add_span q.now span) c
              (take_pending q.now c.pending c) y (Passes-take_pending k q.now c.pending c y.marked)
              (fresh_after_reclaim q.fresh q.now b x.leases f)))
  ])
]

-- The leases that a sequence of calls of `lease` hands out.
unfoldable pub leases_of : List LeaseCall → Backend → List QueueLease
leases_of [] b = []
leases_of (q ∷ qs) b = handed (answer q b).0 ++ leases_of qs (answer q b).1

abbrev pub FreshLeases : List LeaseCall → Backend → Type 0
FreshLeases [] b = Unit
FreshLeases (q ∷ qs) b = (get b.leased q.fresh ≡ none) × FreshLeases qs (answer q b).1

none_handed :
    (k : String) (qs : List LeaseCall) (b : Backend)
    → FreshLeases qs b
    → IsMarked k b
    → All (λ (l : QueueLease). (l.job.run_id == k) ≡ false) (leases_of qs b)
unfolding leases_of
none_handed k [] b f x = tt
none_handed k (q ∷ qs) b (f, fs) x =
    let here = none_leased k q b f x in
    All-append (λ (l : QueueLease). (l.job.run_id == k) ≡ false) (handed (answer q b).0)
      (leases_of qs (answer q b).1) here.0 (none_handed k qs (answer q b).1 fs here.1)

-- The queue after a cancelled lease has been given back.
record IsReleased (k : String) (b : Backend) : Type 0 where
  unknown : elem k b.known_runs ≡ false
  mark : IsMarked k b

IsReleased-give_back :
    (l : QueueLease) (t : Option ℕ) (b : Backend)
    → IsExclusive b
    → is_current l b ≡ true
    → elem l.job.run_id b.cancelled_runs ≡ true
    → IsReleased l.job.run_id (give_back l t b).1
unfolding give_back drop_lease places
IsReleased-give_back l t b x y c =
    let k = l.job.run_id in
    let (m, e, s) = is_current→IsCurrent l b y in
    let gone = leased_count-remove k l.lease_id m b.leased x.leases e in
    let same = (eq_iff m.job.run_id k).1 (same_lease→run m l s) in
    rw c (record {
      unknown = ground (arith, elem-discard k k b.known_runs, eq_iff k k);
      mark = record {
        marked = c;
        not_leased = ground (arith, x.counted k, gone, same);
        leases = Leases-remove b.leased l.lease_id x.leases;
      };
    })

IsReleased-release :
    (l : QueueLease) (delay : Seconds) (pause now later : ℕ) (b : Backend)
    → IsExclusive b
    → validate_finite_seconds delay false ≡ some pause
    → is_current l (reclaim_expired now b) ≡ true
    → elem l.job.run_id (reclaim_expired now b).cancelled_runs ≡ true
    → IsReleased l.job.run_id (release l delay now later b).1
unfolding release
IsReleased-release l delay pause now later b x v y c =
    rw (v, y, release)
      (IsReleased-give_back l (add_span later pause) (reclaim_expired now b)
        (IsExclusive-reclaim_expired now b x) y c)

enqueued :
    (job : QueuedRun) (t : ℕ) (b : Backend)
    → IsReleased job.run_id b
    → ((enqueue job t b).0 ≡ ok tt) × IsMarked job.run_id (enqueue job t b).1
unfolding enqueue push_pending
enqueued job t b x = rw x.unknown (
  refl,
  record { marked = x.mark.marked; not_leased = x.mark.not_leased; leases = x.mark.leases },
)

-- The lease of a cancelled run, given back with a valid delay while it is current in an exclusive
-- backend, leaves the mark: a later command for the same run is accepted by `enqueue`, but no sequence
-- of calls of `lease` with fresh lease identifiers hands it out.
pub released_run_dropped :
    (l : QueueLease) (delay : Seconds) (pause now later : ℕ) (b : Backend) (job : QueuedRun) (t : ℕ)
    (qs : List LeaseCall)
    → IsExclusive b
    → validate_finite_seconds delay false ≡ some pause
    → is_current l (reclaim_expired now b) ≡ true
    → elem l.job.run_id (reclaim_expired now b).cancelled_runs ≡ true
    → job.run_id ≡ l.job.run_id
    → FreshLeases qs (enqueue job t (release l delay now later b).1).1
    → ((enqueue job t (release l delay now later b).1).0 ≡ ok tt)
      × All
          (λ (m : QueueLease). (m.job.run_id == job.run_id) ≡ false)
          (leases_of qs (enqueue job t (release l delay now later b).1).1)
released_run_dropped l delay pause now later b job t qs x v y c s f =
    let kept = IsReleased-release l delay pause now later b x v y c in
    let here = enqueued job t (release l delay now later b).1 (rw s kept) in
    (here.0, none_handed job.run_id qs _ f here.1)
