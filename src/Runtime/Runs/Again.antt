-- ===== src/Runtime/Runs/Again.antt =====
-- `submit` of `QueueRuntime` (queueing.py) for a run that is there already.
use matterloop.Base.{◌≡◌, refl, ℕ, String, some, false, ◌==◌, if◌then◌else◌, ◌∙◌, suc}
use matterloop.Base.Dict.{get}
use matterloop.Core.Context.{LoopRequest, same_request}
use matterloop.Runtime.Runs.{
  RunRecord, ok, err, Repository, create, request_conflict, duplicate_run,
}
use matterloop.Runtime.Runs.Update.{Environment, World, await_others, create_record}
use matterloop.Runtime.Runs.Methods.{submit, submit_known, new_record}

-- Other writers keep a record and its request.
abbrev pub IsSteady : Environment → Type 0
IsSteady env =
    (n : ℕ) (d : Repository) (id : String) (r : RunRecord)
    → get d id ≡ some r
    → (s : RunRecord) × (get (env.others n d) id ≡ some s) × (s.request ≡ r.request)

create_known :
    (s : RunRecord) (r : RunRecord) (d : Repository)
    → get d r.run_id ≡ some s
    → create r d ≡ (err (duplicate_run r.run_id), d)
unfolding create
create_known s r d found = rw (found, create) refl

-- Where other writers keep the records and their requests: `submit` with the identifier, not empty,
-- of a run that is there answers with the identifier if the run has the same request, and raises the
-- conflict of requests if not; it sends no command and writes no record.
pub submit_again :
    (env : Environment) (q : LoopRequest) (id fresh : String) (r : RunRecord) (w : World)
    → IsSteady env
    → (id == "") ≡ false
    → get w.repository id ≡ some r
    → ((submit env q (some id) fresh w).0
        ≡ (if same_request r.request q then ok id else err (request_conflict id)))
      × ((submit env q (some id) fresh w).1.sent ≡ w.sent)
      × ((submit env q (some id) fresh w).1.writes ≡ w.writes)
unfolding submit create_record await_others
submit_again env q id fresh r w steady named here =
    let (s, found, same) = steady w.step w.repository id r here in
    let (t, found', same') = steady (suc w.step) (env.others w.step w.repository) id s found in
    rw named (
      rw (create_known s (new_record q id (env.now w.step)) (env.others w.step w.repository) found)
        (rw (found', submit_known, same' ∙ same) refl, refl, refl))
