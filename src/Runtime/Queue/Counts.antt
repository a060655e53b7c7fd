-- ===== src/Runtime/Queue/Counts.antt =====
-- The places of a run in `InMemoryQueueBackend` (queueing.py): how many of its pending jobs and
-- leases are for it, and how the changes of the two collections change the number.
use matterloop.Base.{
  ◌≡◌, refl, sym, ℕ, ◌+◌, suc, String, List, [], ◌∷◌, none, some, false, ◌==◌, length,
  if◌then◌else◌, arith, eq_iff, Bool-cases, inl, inr,
}
use matterloop.Base.Dict.{Dict, get, put, remove, get-remove}
use matterloop.Runtime.Queue.{QueueLease, PendingJob, heappush, other_runs}

unfoldable pub pending_count : String → List PendingJob → ℕ
pending_count k [] = 0
pending_count k (p ∷ ps) =
    let rest = pending_count k ps in if p.job.run_id == k then suc rest else rest

unfoldable pub leased_count : String → Dict QueueLease → ℕ
leased_count k [] = 0
leased_count k ((id, l) ∷ d) =
    let rest = leased_count k d in if l.job.run_id == k then suc rest else rest

-- Each lease stands once, under its own identifier.
abbrev pub Leases : Dict QueueLease → Type 0
Leases [] = Unit
Leases ((id, l) ∷ d) = (l.lease_id ≡ id) × (get d id ≡ none) × Leases d

-- The number of `j` among one run.
abbrev pub one : String → String → ℕ
one j k = if j == k then 1 else 0

pub pending_count-heappush :
    (k : String) (p : PendingJob) (ps : List PendingJob)
    → pending_count k (heappush p ps) ≡ one p.job.run_id k + pending_count k ps
unfolding pending_count heappush
pending_count-heappush k p [] = ground arith
pending_count-heappush k p (q ∷ ps) = ground (arith, pending_count-heappush k p ps)

pub pending_count-other_runs :
    (k id : String) (ps : List PendingJob)
    → pending_count k (other_runs id ps) ≡ (if id == k then 0 else pending_count k ps)
unfolding pending_count other_runs
pending_count-other_runs k id [] = ground arith
pending_count-other_runs k id (p ∷ ps) = ground (
  arith,
  eq_iff p.job.run_id id,
  eq_iff p.job.run_id k,
  eq_iff id k,
  pending_count-other_runs k id ps,
)

pub length-other_runs :
    (id : String) (ps : List PendingJob)
    → length ps ≡ length (other_runs id ps) + pending_count id ps
unfolding pending_count other_runs
length-other_runs id [] = omega arith
length-other_runs id (p ∷ ps) = ground (arith, length-other_runs id ps)

pub remove_absent : (d : Dict QueueLease) (id : String) → get d id ≡ none → remove d id ≡ d
unfolding get remove
remove_absent [] id h = refl
remove_absent ((j, l) ∷ d) id h = elim (Bool-cases (j == id)) [
  | inl y ↦ absurd (ground (arith, h, y))
  | inr n ↦ rw n (rw (remove_absent d id (ground (arith, h, n))))
]

pub leased_count-remove :
    (k id : String) (l : QueueLease) (d : Dict QueueLease)
    → Leases d
    → get d id ≡ some l
    → leased_count k d ≡ one l.job.run_id k + leased_count k (remove d id)
unfolding get remove leased_count
leased_count-remove k id l [] h e = cc
leased_count-remove k id l ((j, m) ∷ d) (own, once, h) e = elim (Bool-cases (j == id)) [
  | inl y ↦
      ground (arith, eq_iff j id, y, remove_absent d id (ground (arith, once, eq_iff j id, y)), e)
  | inr n ↦ ground (arith, n, leased_count-remove k id l d h (ground (arith, e, n)))
]

pub leased_count-put :
    (k id : String) (l : QueueLease) (d : Dict QueueLease)
    → get d id ≡ none
    → leased_count k (put d id l) ≡ one l.job.run_id k + leased_count k d
unfolding get put leased_count
leased_count-put k id l [] e = ground arith
leased_count-put k id l ((j, m) ∷ d) e = elim (Bool-cases (j == id)) [
  | inl y ↦ absurd (ground (arith, e, y))
  | inr n ↦ ground (arith, n, leased_count-put k id l d (ground (arith, e, n)))
]

pub leased_count-put_same :
    (k id : String) (l m : QueueLease) (d : Dict QueueLease)
    → get d id ≡ some l
    → m.job ≡ l.job
    → leased_count k (put d id m) ≡ leased_count k d
unfolding get put leased_count
leased_count-put_same k id l m [] e s = cc
leased_count-put_same k id l m ((j, o) ∷ d) e s = elim (Bool-cases (j == id)) [
  | inl y ↦ ground (arith, y, e, s)
  | inr n ↦ ground (arith, n, leased_count-put_same k id l m d (ground (arith, e, n)) s)
]

get_other_put :
    (d : Dict QueueLease) (id j : String) (l : QueueLease)
    → (id == j) ≡ false
    → get d j ≡ none
    → get (put d id l) j ≡ none
unfolding get put
get_other_put [] id j l n e = rw n refl
get_other_put ((i, m) ∷ d) id j l n e = elim (Bool-cases (i == id)) [
  | inl y ↦ ground (arith, y, e, n)
  | inr u ↦ ground (arith, u, e, n, get_other_put d id j l n)
]

pub Leases-put : (d : Dict QueueLease) (l : QueueLease) → Leases d → Leases (put d l.lease_id l)
unfolding get put
Leases-put [] l h = (refl, refl, tt)
Leases-put ((j, m) ∷ d) l (own, once, h) = elim (Bool-cases (j == l.lease_id)) [
  | inl y ↦ rw y (sym ((eq_iff j l.lease_id).0 y), once, h)
  | inr n ↦ rw n (
    own,
    get_other_put d l.lease_id j l (ground (arith, n, eq_iff j l.lease_id, eq_iff l.lease_id j))
        once,
    Leases-put d l h,
  )
]

get-remove-none :
    (d : Dict QueueLease) (id j : String) → get d j ≡ none → get (remove d id) j ≡ none
get-remove-none d id j e = ground (arith, get-remove d id j, e)

pub Leases-remove : (d : Dict QueueLease) (id : String) → Leases d → Leases (remove d id)
unfolding remove
Leases-remove [] id h = tt
Leases-remove ((j, m) ∷ d) id (own, once, h) = elim (Bool-cases (j == id)) [
  | inl y ↦ rw y (Leases-remove d id h)
  | inr n ↦ rw n (own, get-remove-none d id j once, Leases-remove d id h)
]
