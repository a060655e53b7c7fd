-- ===== src/Core/Status/Walks.antt =====
-- What the transition table of state/machine.py permits, at a state that is terminal or not.
use matterloop.Base.{◌≡◌, refl, ◌↔◌, inl, inr, true, false, arith, Bool-cases}
use matterloop.Core.Status.{LoopStatus, is_terminal, allowed, same_status}

-- No transition leaves a terminal state.
pub allowed_of_terminal : (s t : LoopStatus) → is_terminal s ≡ true → allowed s t ≡ false
unfolding is_terminal allowed
allowed_of_terminal LoopStatus.completed t h = refl
allowed_of_terminal LoopStatus.cancelled t h = refl
allowed_of_terminal LoopStatus.timed_out t h = refl
allowed_of_terminal LoopStatus.failed t h = refl
allowed_of_terminal _ t h = cc

-- From a state that is not terminal the run can be cancelled, timed out and failed.
pub allowed_abort :
    (s : LoopStatus)
    → is_terminal s ≡ false
    → (allowed s LoopStatus.cancelled ≡ true)
      × (allowed s LoopStatus.timed_out ≡ true)
      × (allowed s LoopStatus.failed ≡ true)
unfolding is_terminal allowed
allowed_abort LoopStatus.created h = (refl, refl, refl)
allowed_abort _ h = ground arith

-- A state is terminal exactly when the table permits no transition out of it.
pub terminal_iff_no_exit :
    (s : LoopStatus) → (is_terminal s ≡ true) ↔ ((t : LoopStatus) → allowed s t ≡ false)
terminal_iff_no_exit s = (
  λ h t. allowed_of_terminal s t h,
  λ h. elim (Bool-cases (is_terminal s)) [
    | inl y ↦ y
    | inr n ↦ cc (h LoopStatus.failed, (allowed_abort s n).2)
  ],
)

-- `same_status` decides equality.
pub same_status_self : (s : LoopStatus) → same_status s s ≡ true
unfolding same_status
same_status_self LoopStatus.created = refl
same_status_self _ = refl

pub same_status→eq : (s t : LoopStatus) → same_status s t ≡ true → s ≡ t
unfolding same_status
same_status→eq LoopStatus.created LoopStatus.created h = refl
same_status→eq LoopStatus.planning LoopStatus.planning h = refl
same_status→eq LoopStatus.executing LoopStatus.executing h = refl
same_status→eq LoopStatus.verifying LoopStatus.verifying h = refl
same_status→eq LoopStatus.waiting_approval LoopStatus.waiting_approval h = refl
same_status→eq LoopStatus.paused LoopStatus.paused h = refl
same_status→eq LoopStatus.completed LoopStatus.completed h = refl
same_status→eq LoopStatus.blocked LoopStatus.blocked h = refl
same_status→eq LoopStatus.cancelled LoopStatus.cancelled h = refl
same_status→eq LoopStatus.timed_out LoopStatus.timed_out h = refl
same_status→eq LoopStatus.failed LoopStatus.failed h = refl
same_status→eq _ _ h = cc
