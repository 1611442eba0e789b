-- ===== src/Kernel/Exit/Tests.antt =====
-- Task 2 exits, and task 1 waits for any child.
use onix.Base.{
  ℕ, ◌⊎◌, ◌≡◌, ◌≢◌, refl, true, false, none, some, [], ◌∷◌, ◌==◌, ltb, if◌then◌else◌, arith,
  Bool-cases, inl, inr,
}
use onix.Base.Int.{pos, negsuc}
use onix.Libc.Nodes.{put}
use onix.Kernel.Task.{
  Kernel, Task, task_died, task_running, task_ready, task_waiting, no_task, block_list,
}
use onix.Kernel.Task.Schedule.{OneRuns, AtMostOne}
use onix.Kernel.Exit.Fork.{task_fork-OneRuns}
use onix.Kernel.Exit.{task_fork, leave, reaps, wait_round}
use onix.Kernel.Exit.Steps.{IsNumbered, Reapable}
use onix.Kernel.Exit.Reap.{wait_round-leave}

abbrev waiter : Task
waiter = record (no_task 1) {
  state = task_waiting;
  uid = 1000;
  waitpid = negsuc 0;
  node = some block_list;
}

abbrev worker : Task
worker = record (no_task 2) { state = task_running; uid = 1000; ppid = 1 }

abbrev family : Kernel
family = record {
  current = 2;
  idle_task = 0;
  table = λ i. ltb i 3;
  tasks = λ i.
      if i == 1
      then waiter
      else if i == 2
      then worker
      else record (no_task i) { state = task_ready };
  lists = λ l. if l == 0 then 1 ∷ [] else [];
  timer_list = [];
  timers = λ t. record { task = 0; expires = 0; handler = none; active = false };
  fresh = 0;
  jiffies = 3;
}

family-IsNumbered : IsNumbered family
family-IsNumbered i = elim (Bool-cases (i == 1)) [
  | inl e ↦ rw e (ground (arith, e))
  | inr e ↦ elim (Bool-cases (i == 2)) [
    | inl f ↦ rw (e, f) (ground (arith, f))
    | inr f ↦ rw (e, f) refl
  ]
]

wait_round-leave_example :
    (s : Kernel) × (j : ℕ) × (leave (pos 7) family ≡ some s)
    × ((s.tasks 1).state ≡ task_ready)
    × ((s.tasks 2).state ≡ task_died)
    × ((s.tasks 2).status ≡ pos 7)
    × (wait_round (negsuc 0) (record s { current = 1 })
        ≡ some (reaps j (s.tasks j).status (record s { current = 1; table = put s.table j false })))
    × Reapable (negsuc 0) (record s { current = 1 }) j
    × ((j ≡ 2) ⊎ ((negsuc 0 ≢ pos 2) × (put s.table j false 2 ≡ true)))
wait_round-leave_example =
    wait_round-leave family 1 (pos 7) family-IsNumbered (omega arith) (omega arith) refl
      (omega arith) (omega arith) refl (λ e. absurd (omega (arith, e))) refl refl refl refl refl
      refl

family-AtMostOne : AtMostOne family
family-AtMostOne i = elim (Bool-cases (i == 2)) [
  | inl f ↦ inl (ground (arith, f))
  | inr f ↦ elim (Bool-cases (i == 1)) [ inl e ↦ inr (rw e refl) | inr e ↦ inr (rw (e, f) refl) ]
]

task_fork-OneRuns_example :
    (child : ℕ) × (s : Kernel) × (task_fork family ≡ some (child, s))
    × (family.table child ≡ false)
    × (s.table ≡ put family.table child true)
    × OneRuns s
    × ((s.tasks child).pid ≡ child)
    × ((s.tasks child).state ≡ task_ready)
    × ((s.tasks child).ppid ≡ 2)
    × ((s.tasks child).ticks ≡ pos worker.priority)
    × ((s.tasks child).uid ≡ 1000)
    × ((s.tasks child).alarm ≡ none)
    × ((s.tasks child).signal ≡ worker.signal)
    × ((i : ℕ) → i ≢ child → s.tasks i ≡ family.tasks i)
    × (s.current ≡ 2)
task_fork-OneRuns_example =
    task_fork-OneRuns family 5 (refl, family-AtMostOne) refl refl (omega arith) refl
