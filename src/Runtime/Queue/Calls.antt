-- ===== src/Runtime/Queue/Calls.antt =====
-- Sequences of calls of `InMemoryQueueBackend` (queueing.py), with the leases that they hand out.
use matterloop.Base.{◌≡◌, ℕ, String, List, [], ◌∷◌, Option, none, some}
use matterloop.Base.Dict.{get}
use matterloop.Runtime.Queue
use matterloop.Runtime.Queue.{QueuedRun, QueueLease, Backend, Seconds, Result}

pub data Call : Type 0 where
  enqueue : QueuedRun → ℕ → Call
  lease : (fresh worker : String) → Option Seconds → ℕ → Call
  acknowledge : QueueLease → ℕ → Call
  release : QueueLease → Seconds → (now later : ℕ) → Call
  renew : QueueLease → Seconds → ℕ → Call
  cancel : String → Call

unfoldable pub apply : Call → Backend → Backend
apply (Call.enqueue job now) b = (Queue.enqueue job now b).1
apply (Call.lease fresh worker seconds now) b = (Queue.lease fresh worker seconds now b).1
apply (Call.acknowledge l now) b = (Queue.acknowledge l now b).1
apply (Call.release l delay now later) b = (Queue.release l delay now later b).1
apply (Call.renew l seconds now) b = (Queue.renew l seconds now b).1
apply (Call.cancel id) b = (Queue.cancel id b).1

abbrev pub handed : Result (Option QueueLease) → List QueueLease
handed (Result.ok (some l)) = l ∷ []
handed _ = []

-- The lease that a call hands out.
unfoldable pub hands_out : Call → Backend → List QueueLease
hands_out (Call.lease fresh worker seconds now) b =
    handed (Queue.lease fresh worker seconds now b).0
hands_out _ b = []

unfoldable pub run : List Call → Backend → Backend
run [] b = b
run (c ∷ cs) b = run cs (apply c b)

-- Each lease identifier that is drawn is not in use.
abbrev pub Fresh : Call → Backend → Type 0
Fresh (Call.lease fresh worker seconds now) b = get b.leased fresh ≡ none
Fresh _ b = Unit

abbrev pub FreshAll : List Call → Backend → Type 0
FreshAll [] b = Unit
FreshAll (c ∷ cs) b = Fresh c b × FreshAll cs (apply c b)
