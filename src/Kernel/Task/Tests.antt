-- ===== src/Kernel/Task/Tests.antt =====
-- Three tasks: the idle task 0, the running task 1, and task 2, which sleeps until its timer 0.
use onix.Base.{
  ◌≡◌, ◌⊎◌, true, ◌≢◌, refl, false, none, some, [], ◌∷◌, ◌==◌, ltb, if◌then◌else◌, arith, inl, inr,
  Bool-cases,
}
use onix.Base.Int.{neg}
use onix.Libc.LinkedList.Chain.{All}
use onix.Kernel.Task.{
  Kernel, Task, task_running, task_ready, task_sleeping, no_task, task_block, timer_wakeup,
  timer_expires, etime, sleep_list,
}
use onix.Kernel.Task.Schedule.{AtMostOne, OneRuns}
use onix.Kernel.Task.Block.{task_block-OneRuns}
use onix.Kernel.Task.Wake.{IsWoken}
use onix.Kernel.Task.Timeout.{timer_wakeup-IsWoken}

abbrev runner : Task
runner = record (no_task 1) { state = task_running; uid = 1000 }

abbrev sleeper : Task
sleeper = record (no_task 2) {
  state = task_sleeping;
  uid = 1000;
  timer = some 0;
  node = some sleep_list;
}

abbrev pub three : Kernel
three = record {
  current = 1;
  idle_task = 0;
  table = λ i. ltb i 3;
  tasks = λ i.
      if i == 1
      then runner
      else if i == 2
      then sleeper
      else record (no_task i) { state = task_ready };
  lists = λ l. if l == 1 then 2 ∷ [] else [];
  timer_list = 0 ∷ [];
  timers = λ t. record { task = 2; expires = 5; handler = none; active = false };
  fresh = 1;
  jiffies = 7;
}

three-AtMostOne : AtMostOne three
three-AtMostOne i = elim (Bool-cases (i == 1)) [
  | inl e ↦ inl (ground (arith, e))
  | inr e ↦ elim (Bool-cases (i == 2)) [
    | inl f ↦ inr (rw (e, f) refl)
    | inr f ↦ inr (rw (e, f) refl)
  ]
]

task_block-OneRuns_example :
    (s : Kernel) × (task_block 1 sleep_list task_sleeping 50 three ≡ some s)
    × OneRuns s
    × (s.current ≢ 1)
    × (((three.table s.current ≡ true) × ((three.tasks s.current).state ≡ task_ready))
        ⊎ (s.current ≡ three.idle_task))
    × ((s.tasks 1).state ≡ task_sleeping)
    × ((s.tasks 1).node ≡ some sleep_list)
task_block-OneRuns_example =
    task_block-OneRuns three sleep_list task_sleeping 50 (refl, three-AtMostOne)
      (λ e. absurd (omega (arith, e))) refl refl refl refl

timer_wakeup-IsWoken_example :
    (s : Kernel) × (timer_wakeup (λ h t k. none) 2 three ≡ some s)
    × (s.timer_list ≡ [])
    × All (λ t. IsWoken (neg etime) (s.tasks 2)) (0 ∷ [])
    × (s.tasks 1 ≡ three.tasks 1)
unfolding timer_expires
timer_wakeup-IsWoken_example =
    timer_wakeup-IsWoken (λ h t k. none) three (0 ∷ []) [] 2 1 refl ((refl, refl, refl, refl), tt)
      (tt, tt) (omega arith, tt) (omega arith) (omega arith) (λ e. absurd (omega (arith, e)), tt)
