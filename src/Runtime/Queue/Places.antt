-- ===== src/Runtime/Queue/Places.antt =====
-- `InMemoryQueueBackend` (queueing.py): the places of a run, and what reclaiming and giving back a lease
-- do to them.
use matterloop.Base.{
  ◌≡◌, refl, ◌≤◌, ℕ, ◌+◌, suc, String, Option, none, some, true, if◌then◌else◌, arith, eq_iff,
  Bool-cases, Option-cases, inl, inr, ap, elem,
}
use matterloop.Base.Dict.{get}
use matterloop.Base.Set.{elem-discard}
use matterloop.Runtime.Queue.{
  QueueLease, Backend, empty, drop_lease, forget_run, push_pending, reclaim_one, reclaim_expired,
  give_back, push_back, is_current, same_lease, same_run,
}
use matterloop.Runtime.Queue.Counts.{
  one, pending_count, leased_count, Leases, pending_count-heappush, leased_count-remove,
  Leases-remove,
}
use matterloop.Runtime.Queue.Reclaim.{carry_reclaim, get-reclaim_expired}

unfoldable pub places : String → Backend → ℕ
places k b = pending_count k b.pending + leased_count k b.leased

abbrev pub Counted : Backend → Type 0
Counted b = (k : String) → places k b ≤ (if elem k b.known_runs then 1 else 0)

-- A known run has at most one pending job or lease, never both and never two; a run that is not known
-- has none; and a lease stands once, under its own identifier.
pub record IsExclusive (b : Backend) : Type 0 where
  pub counted : Counted b
  pub leases : Leases b.leased

pub IsExclusive-empty : IsExclusive empty
unfolding places pending_count leased_count
IsExclusive-empty = record { counted = λ k. omega arith; leases = tt }

module _ (b : Backend) (l m : QueueLease) (h : Leases b.leased)
    (e : get b.leased l.lease_id ≡ some m) (s : m.job.run_id ≡ l.job.run_id) where
  Counted-push_pending :
      (now : ℕ) → Counted b → Counted (push_pending l.job now (suc l.attempt) (drop_lease l b))
  unfolding places drop_lease push_pending
  Counted-push_pending now c k = omega (
    arith,
    c k,
    ap (λ (r : String). one r k) s,
    leased_count-remove k l.lease_id m b.leased h e,
    pending_count-heappush k
        (record {
          available_at = now;
          sequence = b.pending_sequence;
          job = l.job;
          attempt = suc l.attempt;
        })
        b.pending,
  )

  Counted-drop : Counted b → Counted (drop_lease l b)
  unfolding places drop_lease
  Counted-drop c k = ground (arith, c k, leased_count-remove k l.lease_id m b.leased h e)

  Counted-push_back : (t : Option ℕ) → Counted b → Counted (push_back l t b).1
  unfolding push_back
  Counted-push_back none c = Counted-drop c
  Counted-push_back (some now) c = Counted-push_pending now c

  pub Counted-forget : Counted b → Counted (forget_run l.job.run_id (drop_lease l b))
  unfolding places forget_run drop_lease
  Counted-forget c k = ground (
    arith,
    c k,
    ap (λ (r : String). one r k) s,
    leased_count-remove k l.lease_id m b.leased h e,
    elem-discard k l.job.run_id b.known_runs,
    eq_iff l.job.run_id k,
  )

  pub Counted-give_back : (t : Option ℕ) → Counted b → Counted (give_back l t b).1
  unfolding give_back forget_run places
  Counted-give_back t c = elim (Bool-cases (elem l.job.run_id b.cancelled_runs)) [
    | inl y ↦ rw y (λ k. Counted-forget c k)
    | inr n ↦ rw n (Counted-push_back t c)
  ]

  pub Counted-reclaim_one : (now : ℕ) → Counted b → Counted (reclaim_one now l b)
  unfolding reclaim_one
  Counted-reclaim_one now c = elim (Bool-cases (elem l.job.run_id b.cancelled_runs)) [
    | inl y ↦ rw y (Counted-forget c)
    | inr n ↦ rw n (Counted-push_pending now c)
  ]

pub Leases-forget :
    (b : Backend) (l : QueueLease)
    → Leases b.leased
    → Leases (forget_run l.job.run_id (drop_lease l b)).leased
unfolding forget_run drop_lease
Leases-forget b l h = Leases-remove b.leased l.lease_id h

Leases-push_back :
    (b : Backend) (l : QueueLease) (t : Option ℕ)
    → Leases b.leased
    → Leases (push_back l t b).1.leased
unfolding push_back drop_lease push_pending
Leases-push_back b l none h = Leases-remove b.leased l.lease_id h
Leases-push_back b l (some now) h = Leases-remove b.leased l.lease_id h

pub Leases-give_back :
    (b : Backend) (l : QueueLease) (t : Option ℕ)
    → Leases b.leased
    → Leases (give_back l t b).1.leased
unfolding give_back drop_lease
Leases-give_back b l t h = elim (Bool-cases (elem l.job.run_id b.cancelled_runs)) [
  | inl y ↦ rw y (Leases-remove b.leased l.lease_id h)
  | inr n ↦ rw n (Leases-push_back b l t h)
]

pub IsExclusive-reclaim_expired :
    (now : ℕ) (b : Backend) → IsExclusive b → IsExclusive (reclaim_expired now b)
IsExclusive-reclaim_expired now b x =
    let carried =
      carry_reclaim now Counted (λ l c h e p. Counted-reclaim_one c l l h e refl now p) b x.leases
        x.counted in
    record { counted = carried.0; leases = carried.1 }

-- `current == lease` in a backend where leases stand under their identifiers.
abbrev pub IsCurrent : QueueLease → Backend → Type 0
IsCurrent l b = (m : QueueLease) × (get b.leased l.lease_id ≡ some m) × (same_lease m l ≡ true)

pub is_current→IsCurrent : (l : QueueLease) (b : Backend) → is_current l b ≡ true → IsCurrent l b
unfolding is_current
is_current→IsCurrent l b y = elim (Option-cases (get b.leased l.lease_id)) [
  | inl n ↦ cc (rw (n, is_current) at y)
  | inr (m, e) ↦ (m, e, rw (e, is_current) at y)
]

pub same_lease→run : (m l : QueueLease) → same_lease m l ≡ true → m.job.run_id ≡ l.job.run_id
unfolding same_lease same_run
same_lease→run m l y = ground (arith, eq_iff m.job.run_id l.job.run_id, y)

pub same_lease→id : (m l : QueueLease) → same_lease m l ≡ true → m.lease_id ≡ l.lease_id
unfolding same_lease
same_lease→id m l y = ground (arith, eq_iff m.lease_id l.lease_id, y)

pub fresh_after_reclaim :
    (fresh : String) (now : ℕ) (b : Backend)
    → Leases b.leased
    → get b.leased fresh ≡ none
    → get (reclaim_expired now b).leased fresh ≡ none
fresh_after_reclaim fresh now b h f = ground (arith, get-reclaim_expired now fresh b h, f)
