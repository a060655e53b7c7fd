-- ===== src/Core/Status/Tests.antt =====
-- The theorems on the transition table at concrete states.
use matterloop.Base.{◌≡◌, ◌↔◌, refl, true, false}
use matterloop.Core.Status.{LoopStatus, is_terminal, allowed}
use matterloop.Core.Status.Walks.{terminal_iff_no_exit}

terminal_iff_no_exit_example :
    (is_terminal LoopStatus.paused ≡ true)
    ↔ ((t : LoopStatus) → allowed LoopStatus.paused t ≡ false)
terminal_iff_no_exit_example = terminal_iff_no_exit LoopStatus.paused

-- A blocked run cannot be completed without another state in between.
blocked_to_completed : allowed LoopStatus.blocked LoopStatus.completed ≡ false
unfolding allowed
blocked_to_completed = refl
