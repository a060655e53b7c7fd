-- ===== src/Runtime/Queue/Reclaim.antt =====
-- `_reclaim_expired` of `InMemoryQueueBackend` (queueing.py): what is carried through its loop, and
-- which leases are left.
use matterloop.Base.{
  ◌≡◌, refl, ℕ, String, List, [], ◌∷◌, none, some, Bool, true, false, ◌==◌, keep, any,
  if◌then◌else◌, arith, eq_iff, Bool-cases, inl, inr, sym, ap, elem, All,
}
use matterloop.Base.Dict.{Dict, get, remove, values, get-remove}
use matterloop.Runtime.Queue.{
  QueueLease, Backend, reclaim_one, reclaim_all, has_expired, reclaim_expired,
}
use matterloop.Runtime.Queue.Counts.{Leases, remove_absent, Leases-remove}

-- Each lease of the list is the one that the dictionary has when its turn comes.
abbrev Current : List QueueLease → Dict QueueLease → Type 0
Current [] d = Unit
Current (l ∷ ls) d = (get d l.lease_id ≡ some l) × Current ls (remove d l.lease_id)

leased-reclaim_one :
    (now : ℕ) (l : QueueLease) (b : Backend)
    → (reclaim_one now l b).leased ≡ remove b.leased l.lease_id
unfolding reclaim_one
leased-reclaim_one now l b = elim (Bool-cases (elem l.job.run_id b.cancelled_runs)) [
  | inl y ↦ rw y refl
  | inr n ↦ rw n refl
]

module _ (now : ℕ) (P : Backend → Type 0)
    (keeps : (l : QueueLease) (b : Backend)
      → Leases b.leased
      → get b.leased l.lease_id ≡ some l
      → P b
      → P (reclaim_one now l b)) where
  carry :
      (ls : List QueueLease) (b : Backend)
      → Current ls b.leased
      → Leases b.leased
      → P b
      → P (reclaim_all now ls b) × Leases (reclaim_all now ls b).leased
  unfolding reclaim_all
  carry [] b c h p = (p, h)
  carry (l ∷ ls) b (e, c) h p =
      let same = leased-reclaim_one now l b in
      carry ls (reclaim_one now l b) (rw same c) (rw same (Leases-remove b.leased l.lease_id h))
        (keeps l b h e p)

abbrev Apart : String → List QueueLease → Type 0
Apart id ls = All (λ (l : QueueLease). (l.lease_id == id) ≡ false) ls

Current-cons :
    (id : String) (m : QueueLease) (ls : List QueueLease) (d : Dict QueueLease)
    → Apart id ls
    → Current ls d
    → Current ls ((id, m) ∷ d)
unfolding get remove
Current-cons id m [] d a c = tt
Current-cons id m (l ∷ ls) d (n, a) (e, c) =
    let flip : (id == l.lease_id) ≡ false =
      ground (arith, eq_iff l.lease_id id, eq_iff id l.lease_id, n) in
    rw flip (e, Current-cons id m ls (remove d l.lease_id) a c)

Apart-values :
    (now : ℕ) (id : String) (d : Dict QueueLease)
    → Leases d
    → get d id ≡ none
    → Apart id (keep (has_expired now) (values d))
unfolding get
Apart-values now id [] h e = tt
Apart-values now id ((j, l) ∷ d) (own, once, h) e = elim (Bool-cases (j == id)) [
  | inl y ↦ absurd (ground (arith, e, y))
  | inr n ↦ elim (Bool-cases (has_expired now l)) [
    | inl x ↦ rw (x, keep, Apart) (rw own n, Apart-values now id d h (ground (arith, e, n)))
    | inr x ↦ rw (x, keep, Apart) (Apart-values now id d h (ground (arith, e, n)))
  ]
]

Current-values :
    (now : ℕ) (d : Dict QueueLease) → Leases d → Current (keep (has_expired now) (values d)) d
unfolding get remove
Current-values now [] h = tt
Current-values now ((j, l) ∷ d) (own, once, h) =
    let ih = Current-values now d h in
    let here : (j == l.lease_id) ≡ true = (eq_iff j l.lease_id).1 (sym own) in
    elim (Bool-cases (has_expired now l)) [
      | inl x ↦
          rw (x, keep, Current) (rw here (refl, rw (remove_absent d l.lease_id (rw own once)) ih))
      | inr x ↦ rw (x, keep, Current) (Current-cons j l _ d (Apart-values now j d h once) ih)
    ]

pub carry_reclaim :
    (now : ℕ) (P : Backend → Type 0)
    → ((l : QueueLease) (b : Backend)
        → Leases b.leased
        → get b.leased l.lease_id ≡ some l
        → P b
        → P (reclaim_one now l b))
    → (b : Backend) → Leases b.leased
    → P b
    → P (reclaim_expired now b) × Leases (reclaim_expired now b).leased
unfolding reclaim_expired
carry_reclaim now P keeps b h p =
    carry now P keeps (keep (has_expired now) (values b.leased)) b (Current-values now b.leased h) h
      p

-- The leases that are left.
named : String → List QueueLease → Bool
named id ls = any (λ (l : QueueLease). l.lease_id == id) ls

get-reclaim_all :
    (now : ℕ) (id : String) (ls : List QueueLease) (b : Backend)
    → get (reclaim_all now ls b).leased id ≡ (if named id ls then none else get b.leased id)
unfolding reclaim_all named
get-reclaim_all now id [] b = refl
get-reclaim_all now id (l ∷ ls) b = ground (
  arith,
  get-reclaim_all now id ls (reclaim_one now l b),
  ap (λ (d : Dict QueueLease). get d id) (leased-reclaim_one now l b),
  get-remove b.leased l.lease_id id,
)

named-values :
    (now : ℕ) (id : String) (d : Dict QueueLease)
    → Leases d
    → named id (keep (has_expired now) (values d))
      ≡ elim (get d id) [ none ↦ false | some l ↦ has_expired now l ]
unfolding get named
named-values now id [] h = refl
named-values now id ((j, l) ∷ d) (own, once, h) =
    ground (arith, eq_iff j id, eq_iff l.lease_id id, named-values now id d h, own, once)

-- A lease is still there exactly when it has not expired.
pub get-reclaim_expired :
    (now : ℕ) (id : String) (b : Backend)
    → Leases b.leased
    → get (reclaim_expired now b).leased id
      ≡ elim (get b.leased id) [ none ↦ none | some l ↦ if has_expired now l then none else some l ]
unfolding reclaim_expired
get-reclaim_expired now id b h = ground (
  arith,
  get-reclaim_all now id (keep (has_expired now) (values b.leased)) b,
  named-values now id b.leased h,
)
