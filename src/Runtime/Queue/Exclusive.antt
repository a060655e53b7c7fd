-- ===== src/Runtime/Queue/Exclusive.antt =====
-- `InMemoryQueueBackend` (queueing.py): a run has one place, through every method.
use matterloop.Base.{
  ◌≡◌, refl, ℕ, ◌≤◌, ◌+◌, String, List, [], ◌∷◌, Option, none, some, true, false, ◌==◌, eqb, length,
  if◌then◌else◌, arith, eq_iff, Bool-cases, Option-cases, inl, inr, elem, ltb,
}
use matterloop.Base.Dict.{get}
use matterloop.Base.Set.{add, discard, elem-add, elem-discard}
use matterloop.Runtime.Queue.{
  QueuedRun, QueueLease, PendingJob, Backend, Seconds, forget_run, push_pending, reclaim_expired,
  take_pending, grant_lease, lease_for, is_current, same_lease, extend, extend_until, add_span,
  enqueue, lease, acknowledge, release, renew, cancel, other_runs, validate_finite_seconds,
  default_seconds,
}
use matterloop.Runtime.Queue.Counts.{
  one, pending_count, leased_count, Leases, pending_count-heappush, pending_count-other_runs,
  length-other_runs, leased_count-put, leased_count-put_same, Leases-put,
}
use matterloop.Runtime.Queue.Calls.{Call, apply, run, Fresh, FreshAll}
use matterloop.Runtime.Queue.Places.{
  places, IsExclusive, Leases-forget, Leases-give_back, Counted-give_back, Counted-forget,
  IsExclusive-reclaim_expired, is_current→IsCurrent, same_lease→run, same_lease→id,
  fresh_after_reclaim,
}

IsExclusive-push :
    (job : QueuedRun) (now : ℕ) (b : Backend)
    → elem job.run_id b.known_runs ≡ false
    → IsExclusive b
    → IsExclusive (push_pending job now 1 (record b { known_runs = add job.run_id b.known_runs }))
unfolding push_pending places
IsExclusive-push job now b n x = record {
  counted = λ k. ground (
    arith,
    x.counted k,
    n,
    elem-add k job.run_id b.known_runs,
    eq_iff job.run_id k,
    pending_count-heappush k
        (record { available_at = now; sequence = b.pending_sequence; job = job; attempt = 1 })
        b.pending,
  );
  leases = x.leases;
}

IsExclusive-enqueue :
    (job : QueuedRun) (now : ℕ) (b : Backend) → IsExclusive b → IsExclusive (enqueue job now b).1
unfolding enqueue
IsExclusive-enqueue job now b x = elim (Bool-cases (elem job.run_id b.known_runs)) [
  | inl y ↦ rw y x
  | inr n ↦ rw n (IsExclusive-push job now b n x)
]

IsExclusive-acknowledge :
    (l : QueueLease) (now : ℕ) (b : Backend) → IsExclusive b → IsExclusive (acknowledge l now b).1
unfolding acknowledge
IsExclusive-acknowledge l now b x =
    let y = IsExclusive-reclaim_expired now b x in
    let c = reclaim_expired now b in
    elim (Bool-cases (is_current l c)) [
      | inl t ↦
          (let (m, e, s) = is_current→IsCurrent l c t in
            rw t (record {
              counted = Counted-forget c l m y.leases e (same_lease→run m l s) y.counted;
              leases = Leases-forget c l y.leases;
            }))
      | inr n ↦ rw n y
    ]

IsExclusive-release :
    (l : QueueLease) (delay : Seconds) (now later : ℕ) (b : Backend)
    → IsExclusive b
    → IsExclusive (release l delay now later b).1
unfolding release
IsExclusive-release l delay now later b x =
    let y = IsExclusive-reclaim_expired now b x in
    let c = reclaim_expired now b in
    elim (Option-cases (validate_finite_seconds delay false)) [
      | inl n ↦ rw (n, release) x
      | inr (span, v) ↦ elim (Bool-cases (is_current l c)) [
        | inl t ↦
            (let (m, e, s) = is_current→IsCurrent l c t in
              rw (v, t, release)
                (record {
                  counted =
                      Counted-give_back c l m y.leases e (same_lease→run m l s)
                        (add_span later span) y.counted;
                  leases = Leases-give_back c l (add_span later span) y.leases;
                }))
        | inr n ↦ rw (v, n, release) y
      ]
    ]

IsExclusive-extend_until :
    (id : String) (m : QueueLease) (t : Option ℕ) (b : Backend)
    → get b.leased id ≡ some m
    → m.lease_id ≡ id
    → IsExclusive b
    → IsExclusive (extend_until id m t b).1
unfolding extend_until places
IsExclusive-extend_until id m none b e same x = x
IsExclusive-extend_until id m (some t) b e same x =
    let renewed : QueueLease = record m { expires_at = t } in
    record {
      counted =
          λ k. omega (arith, x.counted k, leased_count-put_same k id m renewed b.leased e refl);
      leases = rw (← same) (Leases-put b.leased renewed x.leases);
    }

IsExclusive-extend :
    (l : QueueLease) (t : Option ℕ) (b : Backend)
    → IsExclusive b
    → IsExclusive (extend l t (get b.leased l.lease_id) b).1
unfolding extend
IsExclusive-extend l t b x = elim (Option-cases (get b.leased l.lease_id)) [
  | inl n ↦ rw (n, extend) x
  | inr (m, e) ↦ elim (Bool-cases (same_lease m l)) [
    | inl y ↦
        rw (e, y, extend) (IsExclusive-extend_until l.lease_id m t b e (same_lease→id m l y) x)
    | inr n ↦ rw (e, n, extend) x
  ]
]

IsExclusive-renew :
    (l : QueueLease) (seconds : Seconds) (now : ℕ) (b : Backend)
    → IsExclusive b
    → IsExclusive (renew l seconds now b).1
unfolding renew
IsExclusive-renew l seconds now b x = elim (Option-cases (validate_finite_seconds seconds true)) [
  | inl n ↦ rw (n, renew) x
  | inr (span, v) ↦
      rw (v, renew)
        (IsExclusive-extend l (add_span now span) (reclaim_expired now b)
          (IsExclusive-reclaim_expired now b x))
]

abbrev taken_count : String → Option PendingJob → ℕ
taken_count k none = 0
taken_count k (some p) = one p.job.run_id k

-- What `take_pending` leaves, with the job that it has taken, of pending jobs `ps`.
record Takes (b : Backend) (r : Option PendingJob × Backend) : Type 0 where
  same_leases : r.1.leased ≡ b.leased
  counted :
      (k : String) → taken_count k r.0 + places k r.1 ≤ (if elem k r.1.known_runs then 1 else 0)

Takes-take_pending :
    (now : ℕ) (ps : List PendingJob) (b : Backend)
    → ((k : String)
        → pending_count k ps + leased_count k b.leased ≤ (if elem k b.known_runs then 1 else 0))
    → Takes b (take_pending now ps b)
unfolding take_pending places pending_count
Takes-take_pending now [] b c = record { same_leases = refl; counted = λ k. omega (arith, c k) }
Takes-take_pending now (p ∷ ps) b c = elim (Bool-cases (ltb now p.available_at)) [
  | inl later ↦
      rw (later, take_pending) (record { same_leases = refl; counted = λ k. omega (arith, c k) })
  | inr due ↦ elim (Bool-cases (elem p.job.run_id b.cancelled_runs)) [
    | inl y ↦
        (let next =
            Takes-take_pending now ps (record b { known_runs = discard p.job.run_id b.known_runs })
              (λ k.
                ground
                  (arith, c k, elem-discard k p.job.run_id b.known_runs, eq_iff p.job.run_id k)) in
          rw (due, y, take_pending)
            (record { same_leases = next.same_leases; counted = next.counted }))
    | inr n ↦
        rw (due, n, take_pending)
          (record { same_leases = refl; counted = λ k. ground (arith, c k) })
  ]
]

IsExclusive-grant_lease :
    (fresh worker : String) (t : Option ℕ) (b : Backend) (r : Option PendingJob × Backend)
    → Takes b r
    → Leases b.leased
    → get b.leased fresh ≡ none
    → IsExclusive (grant_lease fresh worker t r).1
unfolding grant_lease places
IsExclusive-grant_lease fresh worker t b (none, c) h x f = record {
  counted = λ k. omega (arith, h.counted k);
  leases = rw h.same_leases x;
}
IsExclusive-grant_lease fresh worker none b (some p, c) h x f = record {
  counted = λ k. omega (arith, h.counted k);
  leases = rw h.same_leases x;
}
IsExclusive-grant_lease fresh worker (some t) b (some p, c) h x f =
    let l : QueueLease = record {
      lease_id = fresh;
      job = p.job;
      worker_id = worker;
      expires_at = t;
      attempt = p.attempt;
    } in
    record {
      counted =
          λ k. omega (arith, h.counted k, leased_count-put k fresh l c.leased (rw h.same_leases f));
      leases = Leases-put c.leased l (rw h.same_leases x);
    }

IsExclusive-lease_for :
    (fresh worker : String) (o : Option ℕ) (now : ℕ) (b : Backend)
    → get b.leased fresh ≡ none
    → IsExclusive b
    → IsExclusive (lease_for fresh worker o now b).1
unfolding lease_for places
IsExclusive-lease_for fresh worker none now b f x = x
IsExclusive-lease_for fresh worker (some span) now b f x =
    let y = IsExclusive-reclaim_expired now b x in
    let c = reclaim_expired now b in
    IsExclusive-grant_lease fresh worker (add_span now span) c (take_pending now c.pending c)
      (Takes-take_pending now c.pending c y.counted) y.leases
      (fresh_after_reclaim fresh now b x.leases f)

IsExclusive-lease :
    (fresh worker : String) (seconds : Option Seconds) (now : ℕ) (b : Backend)
    → get b.leased fresh ≡ none
    → IsExclusive b
    → IsExclusive (lease fresh worker seconds now b).1
unfolding lease
IsExclusive-lease fresh worker seconds now b f x = elim (Bool-cases (worker == "")) [
  | inl y ↦ rw y x
  | inr n ↦ rw n (
      IsExclusive-lease_for fresh worker (validate_finite_seconds (default_seconds seconds) true)
        now b f x)
]

pub IsExclusive-cancel : (id : String) (b : Backend) → IsExclusive b → IsExclusive (cancel id b).1
unfolding cancel places forget_run
IsExclusive-cancel id b x =
    let count = length-other_runs id b.pending in
    elim (Bool-cases (elem id b.known_runs)) [
      | inr n ↦ rw n x
      | inl y ↦ elim (Bool-cases (eqb (length (other_runs id b.pending)) (length b.pending))) [
        | inl s ↦ rw (y, s, cancel) (record { counted = x.counted; leases = x.leases })
        | inr m ↦
            rw (y, m, cancel)
              (record {
                counted = λ k. ground (
                  arith,
                  x.counted k,
                  m,
                  y,
                  count,
                  eq_iff id k,
                  elem-discard k id b.known_runs,
                  pending_count-other_runs k id b.pending,
                );
                leases = x.leases;
              })
      ]
    ]

pub IsExclusive-apply :
    (c : Call) (b : Backend) → Fresh c b → IsExclusive b → IsExclusive (apply c b)
unfolding apply
IsExclusive-apply (Call.enqueue job now) b f x = IsExclusive-enqueue job now b x
IsExclusive-apply (Call.lease fresh worker seconds now) b f x =
    IsExclusive-lease fresh worker seconds now b f x
IsExclusive-apply (Call.acknowledge l now) b f x = IsExclusive-acknowledge l now b x
IsExclusive-apply (Call.release l delay now later) b f x = IsExclusive-release l delay now later b x
IsExclusive-apply (Call.renew l seconds now) b f x = IsExclusive-renew l seconds now b x
IsExclusive-apply (Call.cancel id) b f x = IsExclusive-cancel id b x

-- Any sequence of calls that draws each lease identifier fresh keeps the backend exclusive: a known
-- run has at most one pending job or lease, a run that is not known has none, and each lease stands
-- once, under its own identifier.
pub IsExclusive-run :
    (cs : List Call) (b : Backend) → FreshAll cs b → IsExclusive b → IsExclusive (run cs b)
unfolding run
IsExclusive-run [] b f x = x
IsExclusive-run (c ∷ cs) b (f, fs) x = IsExclusive-run cs (apply c b) fs (IsExclusive-apply c b f x)
