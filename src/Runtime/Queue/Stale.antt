-- ===== src/Runtime/Queue/Stale.antt =====
-- `InMemoryQueueBackend` (queueing.py): leases that have run out.
use matterloop.Base.{
  ◌≡◌, refl, ℕ, ◌≤◌, Option, some, true, false, arith, Bool-cases, Option-cases, inl, inr,
}
use matterloop.Base.Dict.{get}
use matterloop.Runtime.Queue.{
  QueueLease, Backend, Seconds, ok, err, lease_lost, reclaim_expired, is_current, extend,
  same_lease, acknowledge, release, renew, add_span, validate_finite_seconds,
}
use matterloop.Runtime.Queue.Counts.{Leases}
use matterloop.Runtime.Queue.Reclaim.{get-reclaim_expired}

same_lease→expires : (m l : QueueLease) → same_lease m l ≡ true → m.expires_at ≡ l.expires_at
unfolding same_lease
same_lease→expires m l y = ground (arith, y)

module _ (l : QueueLease) (now : ℕ) (b : Backend) (h : Leases b.leased)
    (over : l.expires_at ≤ now) where
  expired_entry :
      (m : QueueLease)
      → get (reclaim_expired now b).leased l.lease_id ≡ some m
      → same_lease m l ≡ false
  expired_entry m e = elim (Bool-cases (same_lease m l)) [
    | inr n ↦ n
    | inl y ↦
        absurd (
          ground (arith, e, get-reclaim_expired now l.lease_id b h, same_lease→expires m l y, over))
  ]

  not_current : is_current l (reclaim_expired now b) ≡ false
  unfolding is_current
  not_current = elim (Option-cases (get (reclaim_expired now b).leased l.lease_id)) [
    | inl n ↦ rw (n, is_current) refl
    | inr (m, e) ↦ rw (e, is_current) (expired_entry m e)
  ]

  lost :
      (t : Option ℕ)
      → extend l t (get (reclaim_expired now b).leased l.lease_id) (reclaim_expired now b)
        ≡ (err (lease_lost l.lease_id), reclaim_expired now b)
  unfolding extend
  lost t = elim (Option-cases (get (reclaim_expired now b).leased l.lease_id)) [
    | inl n ↦ rw (n, extend) refl
    | inr (m, e) ↦ rw (e, expired_entry m e, extend) refl
  ]

-- A lease that has run out gives no right to its job, where each lease stands once under its
-- identifier: renewing it for a valid span raises the error that it is lost, acknowledging it returns,
-- releasing it with a valid delay returns, and each changes nothing but what reclaiming the expired
-- leases does.
pub expired_lease_lost :
    (l : QueueLease) (now later : ℕ) (b : Backend) (seconds delay : Seconds) (span pause : ℕ)
    → Leases b.leased
    → l.expires_at ≤ now
    → validate_finite_seconds seconds true ≡ some span
    → validate_finite_seconds delay false ≡ some pause
    → (renew l seconds now b ≡ (err (lease_lost l.lease_id), reclaim_expired now b))
      × (acknowledge l now b ≡ (ok tt, reclaim_expired now b))
      × (release l delay now later b ≡ (ok tt, reclaim_expired now b))
unfolding renew acknowledge release
expired_lease_lost l now later b seconds delay span pause h over v w = (
  rw (v, renew) (lost l now b h over (add_span now span)),
  rw (not_current l now b h over) refl,
  rw (w, not_current l now b h over, release) refl,
)
