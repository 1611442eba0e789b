-- ===== src/Kernel/Task/Timeout.antt =====
-- What a task that waits for a time relies on.
use onix.Base.{ℕ, ◌<◌, ◌≤◌, ◌≡◌, ◌≢◌, Option, some, List, ◌++◌, length}
use onix.Base.Int.{neg}
use onix.Libc.LinkedList.Chain.{All, Distinct}
use onix.Kernel.Task.{Kernel, timer_wakeup, etime}
use onix.Kernel.Task.Wake.{IsWoken}
use onix.Kernel.Task.Expire.{Waits, rest_expires, timer_wakeup-Wakes}

-- The timers of the list are in its order `xs`, whose times have come, and `ys`, whose first time has
-- not, and all are timers of `task_block` whose tasks wait. Then `timer_wakeup` ends, within more rounds
-- than there are timers in `xs`, and fails no `assert`. It takes the timers of `xs` out of the list, the
-- task of each is ready with -ETIME, in no list and with no timeout, and a task that none of them is
-- for is as it was.
pub timer_wakeup-IsWoken :
    (run : ℕ → ℕ → Kernel → Option Kernel) (k : Kernel) (xs ys : List ℕ) (fuel other : ℕ)
    → k.timer_list ≡ xs ++ ys
    → All (Waits k) (xs ++ ys)
    → Distinct (xs ++ ys)
    → All (λ t. (k.timers t).expires ≤ k.jiffies) xs
    → k.jiffies < rest_expires k ys
    → length xs < fuel
    → All (λ t. (k.timers t).task ≢ other) xs
    → (s : Kernel) × (timer_wakeup run fuel k ≡ some s)
      × (s.timer_list ≡ ys)
      × All (λ t. IsWoken (neg etime) (s.tasks (k.timers t).task)) xs
      × (s.tasks other ≡ k.tasks other)
timer_wakeup-IsWoken run k xs ys fuel other list waits distinct due later enough apart =
    let (s, ran, h) = timer_wakeup-Wakes run xs ys k fuel list waits distinct due later enough in
    (s, ran, h.0, h.1, h.2 other apart)
