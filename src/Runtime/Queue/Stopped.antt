-- ===== src/Runtime/Queue/Stopped.antt =====
-- `InMemoryQueueBackend` (queueing.py): a run that `cancel` has stopped stays so through the methods.
use matterloop.Base.{
  ◌≡◌, refl, ℕ, suc, String, Option, none, some, true, false, ◌==◌, eqb, length, arith, eq_iff,
  Bool-cases, Option-cases, inl, inr, ap, elem,
}
use matterloop.Base.Dict.{get}
use matterloop.Base.Set.{add, elem-add, elem-discard}
use matterloop.Runtime.Queue.{
  QueuedRun, QueueLease, Backend, Seconds, ok, drop_lease, forget_run, push_pending, reclaim_one,
  reclaim_expired, give_back, push_back, add_span, is_current, same_lease, extend, extend_until,
  enqueue, acknowledge, release, renew, cancel, other_runs, validate_finite_seconds,
}
use matterloop.Runtime.Queue.Counts.{
  one, pending_count, leased_count, Leases, pending_count-heappush, pending_count-other_runs,
  length-other_runs, leased_count-remove, leased_count-put_same,
}
use matterloop.Runtime.Queue.Reclaim.{carry_reclaim}
use matterloop.Runtime.Queue.Places.{
  IsExclusive, Counted, places, Counted-reclaim_one, IsExclusive-reclaim_expired,
  is_current→IsCurrent, same_lease→run,
}

-- A run that is not pending, and that is marked as cancelled if it is leased.
pub record IsStopped (k : String) (b : Backend) : Type 0 where
  pub no_pending : pending_count k b.pending ≡ 0
  pub marked : elem k b.cancelled_runs ≡ false → leased_count k b.leased ≡ 0

module _ (k : String) (b : Backend) (c : Counted b) (x : IsStopped k b) (l m : QueueLease)
    (h : Leases b.leased) (e : get b.leased l.lease_id ≡ some m)
    (s : m.job.run_id ≡ l.job.run_id) where
  IsStopped-push :
      (now : ℕ)
      → elem l.job.run_id b.cancelled_runs ≡ false
      → IsStopped k (push_pending l.job now (suc l.attempt) (drop_lease l b))
  unfolding push_pending drop_lease
  IsStopped-push now n =
      let here =
        pending_count-heappush k
          (record {
            available_at = now;
            sequence = b.pending_sequence;
            job = l.job;
            attempt = suc l.attempt;
          })
          b.pending in
      let gone = leased_count-remove k l.lease_id m b.leased h e in
      let same = ap (λ (r : String). one r k) s in
      record {
        no_pending =
            ground (arith, here, gone, same, x.no_pending, x.marked, n, eq_iff l.job.run_id k);
        marked = λ u. ground (arith, gone, x.marked u);
      }

  none_left : elem k b.cancelled_runs ≡ false → leased_count k (drop_lease l b).leased ≡ 0
  unfolding drop_lease
  none_left u = ground (arith, leased_count-remove k l.lease_id m b.leased h e, x.marked u)

  IsStopped-push_back :
      (t : Option ℕ) → elem l.job.run_id b.cancelled_runs ≡ false → IsStopped k (push_back l t b).1
  unfolding push_back drop_lease
  IsStopped-push_back none n = record { no_pending = x.no_pending; marked = none_left }
  IsStopped-push_back (some now) n = IsStopped-push now n

  IsStopped-give_back : (t : Option ℕ) → IsStopped k (give_back l t b).1
  unfolding give_back drop_lease
  IsStopped-give_back t = elim (Bool-cases (elem l.job.run_id b.cancelled_runs)) [
    | inl y ↦ rw y (record { no_pending = x.no_pending; marked = none_left })
    | inr n ↦ rw n (IsStopped-push_back t n)
  ]

  IsStopped-forget : IsStopped k (forget_run l.job.run_id (drop_lease l b))
  unfolding forget_run drop_lease places
  IsStopped-forget = record {
    no_pending = x.no_pending;
    marked = λ u. ground (
      arith,
      u,
      c k,
      ap (λ (r : String). one r k) s,
      leased_count-remove k l.lease_id m b.leased h e,
      x.marked,
      elem-discard k l.job.run_id b.cancelled_runs,
      eq_iff l.job.run_id k,
    );
  }

  IsStopped-reclaim_one : (now : ℕ) → IsStopped k (reclaim_one now l b)
  unfolding reclaim_one
  IsStopped-reclaim_one now = elim (Bool-cases (elem l.job.run_id b.cancelled_runs)) [
    | inl y ↦ rw y IsStopped-forget
    | inr n ↦ rw n (IsStopped-push now n)
  ]

pub IsStopped-reclaim_expired :
    (k : String) (now : ℕ) (b : Backend)
    → IsExclusive b
    → IsStopped k b
    → IsStopped k (reclaim_expired now b)
IsStopped-reclaim_expired k now b x y =
    let carried =
      carry_reclaim now (λ b. Counted b × IsStopped k b)
        (λ l c h e p. (
          Counted-reclaim_one c l l h e refl now p.0,
          IsStopped-reclaim_one k c p.0 p.1 l l h e refl now,
        ))
        b x.leases (x.counted, y) in
    carried.0.1

pub IsStopped-enqueue :
    (k : String) (job : QueuedRun) (now : ℕ) (b : Backend)
    → (job.run_id == k) ≡ false
    → IsStopped k b
    → IsStopped k (enqueue job now b).1
unfolding enqueue push_pending
IsStopped-enqueue k job now b n x = elim (Bool-cases (elem job.run_id b.known_runs)) [
  | inl y ↦ rw y x
  | inr new ↦ rw new (record {
    no_pending = ground (
      arith,
      n,
      x.no_pending,
      pending_count-heappush k
          (record { available_at = now; sequence = b.pending_sequence; job = job; attempt = 1 })
          b.pending,
    );
    marked = x.marked;
  })
]

pub IsStopped-acknowledge :
    (k : String) (l : QueueLease) (now : ℕ) (b : Backend)
    → IsExclusive b
    → IsStopped k b
    → IsStopped k (acknowledge l now b).1
unfolding acknowledge
IsStopped-acknowledge k l now b x y =
    let c = reclaim_expired now b in
    let x' = IsExclusive-reclaim_expired now b x in
    let y' = IsStopped-reclaim_expired k now b x y in
    elim (Bool-cases (is_current l c)) [
      | inl t ↦
          (let (m, e, s) = is_current→IsCurrent l c t in
            rw t (IsStopped-forget k c x'.counted y' l m x'.leases e (same_lease→run m l s)))
      | inr n ↦ rw n y'
    ]

pub IsStopped-release :
    (k : String) (l : QueueLease) (delay : Seconds) (now later : ℕ) (b : Backend)
    → IsExclusive b
    → IsStopped k b
    → IsStopped k (release l delay now later b).1
unfolding release
IsStopped-release k l delay now later b x y =
    let c = reclaim_expired now b in
    let x' = IsExclusive-reclaim_expired now b x in
    let y' = IsStopped-reclaim_expired k now b x y in
    elim (Option-cases (validate_finite_seconds delay false)) [
      | inl n ↦ rw (n, release) y
      | inr (span, v) ↦ elim (Bool-cases (is_current l c)) [
        | inl t ↦
            (let (m, e, s) = is_current→IsCurrent l c t in
              rw (v, t, release)
                (IsStopped-give_back k c x'.counted y' l m x'.leases e (same_lease→run m l s)
                  (add_span later span)))
        | inr n ↦ rw (v, n, release) y'
      ]
    ]

IsStopped-extend_until :
    (k id : String) (m : QueueLease) (t : Option ℕ) (b : Backend)
    → get b.leased id ≡ some m
    → IsStopped k b
    → IsStopped k (extend_until id m t b).1
unfolding extend_until
IsStopped-extend_until k id m none b e x = x
IsStopped-extend_until k id m (some t) b e x =
    let renewed : QueueLease = record m { expires_at = t } in
    record {
      no_pending = x.no_pending;
      marked = λ u. omega (arith, x.marked u, leased_count-put_same k id m renewed b.leased e refl);
    }

IsStopped-extend :
    (k : String) (l : QueueLease) (t : Option ℕ) (b : Backend)
    → IsStopped k b
    → IsStopped k (extend l t (get b.leased l.lease_id) b).1
unfolding extend
IsStopped-extend k l t b x = elim (Option-cases (get b.leased l.lease_id)) [
  | inl n ↦ rw (n, extend) x
  | inr (m, e) ↦ elim (Bool-cases (same_lease m l)) [
    | inl y ↦ rw (e, y, extend) (IsStopped-extend_until k l.lease_id m t b e x)
    | inr n ↦ rw (e, n, extend) x
  ]
]

pub IsStopped-renew :
    (k : String) (l : QueueLease) (seconds : Seconds) (now : ℕ) (b : Backend)
    → IsExclusive b
    → IsStopped k b
    → IsStopped k (renew l seconds now b).1
unfolding renew
IsStopped-renew k l seconds now b x y = elim (Option-cases (validate_finite_seconds seconds true)) [
  | inl n ↦ rw (n, renew) y
  | inr (span, v) ↦
      rw (v, renew)
        (IsStopped-extend k l (add_span now span) (reclaim_expired now b)
          (IsStopped-reclaim_expired k now b x y))
]

pub IsStopped-cancel : (k id : String) (b : Backend) → IsStopped k b → IsStopped k (cancel id b).1
unfolding cancel forget_run
IsStopped-cancel k id b x =
    let count = length-other_runs id b.pending in
    elim (Bool-cases (elem id b.known_runs)) [
      | inr n ↦ rw n x
      | inl y ↦ elim (Bool-cases (eqb (length (other_runs id b.pending)) (length b.pending))) [
        | inl s ↦
            rw (y, s, cancel)
              (record {
                no_pending = x.no_pending;
                marked = λ u. x.marked (ground (arith, u, elem-add k id b.cancelled_runs));
              })
        | inr m ↦
            rw (y, m, cancel)
              (record {
                no_pending = ground (arith, x.no_pending, pending_count-other_runs k id b.pending);
                marked = λ u. x.marked (
                    ground (
                      arith,
                      u,
                      m,
                      count,
                      x.no_pending,
                      eq_iff id k,
                      ap (λ (i : String). pending_count i b.pending) ((eq_iff id k).0 _),
                      elem-discard k id (add id b.cancelled_runs),
                      elem-add k id b.cancelled_runs,
                    ));
              })
      ]
    ]

-- `cancel` says yes.
pub stops :
    (k : String) (b : Backend)
    → IsExclusive b
    → (cancel k b).0 ≡ ok true
    → IsStopped k (cancel k b).1
unfolding cancel forget_run places
stops k b x e =
    let count = length-other_runs k b.pending in
    elim (Bool-cases (elem k b.known_runs)) [
      | inr n ↦ cc (rw (n, cancel) at e)
      | inl y ↦ elim (Bool-cases (eqb (length (other_runs k b.pending)) (length b.pending))) [
        | inl s ↦
            rw (y, s, cancel)
              (record {
                no_pending = ground (arith, s, count);
                marked = λ u. absurd (ground (arith, u, elem-add k k b.cancelled_runs, eq_iff k k));
              })
        | inr m ↦
            rw (y, m, cancel)
              (record {
                no_pending = ground (arith, pending_count-other_runs k k b.pending, eq_iff k k);
                marked = λ u. ground (arith, x.counted k, y, m, count);
              })
      ]
    ]
