-- ===== src/Kernel/Signal/Tests.antt =====
-- A task with the pending signals 10, which has a handler, and 17.
use onix.Base.{
  ℕ, ◌+◌, ◌-◌, ◌^◌, ◌<◌, ◌≤◌, ◌≡◌, refl, false, none, some, [], ◌∷◌, ◌==◌, ltb, if◌then◌else◌,
  arith, ◌⊎◌, bit_or,
}
use onix.Base.Bits.{bit}
use onix.Kernel.Task.{
  Kernel, Task, task_running, task_ready, task_sleeping, no_task, get_task, first_place, sleep_list,
}
use onix.Kernel.Signal.{IntrFrame, SignalFrame, Delivery, handles, pending, task_signal, restore}
use onix.Kernel.Signal.Deliver.{ActsOn, signals, task_signal-lowest, restore-handles}

abbrev handling : Task
handling = record (no_task 1) {
  state = task_running;
  uid = 1000;
  signal = 2 ^ 9 + 2 ^ 16;
  actions = λ i. record { handler = 4096; mask = 2 ^ 9; flags = 0; restorer = 8192 };
}

abbrev asleep : Task
asleep = record (no_task 2) {
  state = task_sleeping;
  uid = 1000;
  timer = some 0;
  node = some sleep_list;
}

abbrev three : Kernel
three = record {
  current = 1;
  idle_task = 0;
  table = λ i. ltb i 3;
  tasks = λ i.
      if i == 1
      then handling
      else if i == 2
      then asleep
      else record (no_task i) { state = task_ready };
  lists = λ l. if l == 1 then 2 ∷ [] else [];
  timer_list = 0 ∷ [];
  timers = λ t. record { task = 2; expires = 5; handler = none; active = false };
  fresh = 1;
  jiffies = 3;
}

abbrev user : IntrFrame
user = record { edx = 1; ecx = 2; eax = 3; eip = 4; eflags = 5; esp = 65536 }

task_signal-lowest_example :
    (d : Delivery) × (sig : ℕ) × (task_signal user three ≡ some d)
    × (1 ≤ sig)
    × (bit (pending (three.tasks 1)) (sig - 1) ≡ 1)
    × ActsOn sig ((three.tasks 1).actions (sig - 1)) d
    × ((i : ℕ)
        → i < 31
        → ((sig ≤ i + 1) ⊎ (bit (pending (three.tasks 1)) i ≡ 0))
          × (bit (signals d) i ≡ (if sig - 1 == i then 0 else bit (three.tasks 1).signal i)))
task_signal-lowest_example = task_signal-lowest user three 16 refl (omega arith) (omega arith)

next_lem : 0 < pending (three.tasks 1)
next_lem = omega arith

restore-handles_example :
    (frame : SignalFrame) × (u : IntrFrame) × (s : Kernel) × (task_signal user three
      ≡ some (handles frame u s))
    × (u.eip ≡ 4096)
    × ((s.tasks s.current).blocked ≡ bit_or 0 (2 ^ 9))
    × (restore frame s ≡ s)
restore-handles_example = restore-handles user three next_lem (omega arith) (omega arith) refl

found : get_task 2 three ≡ some 2
unfolding get_task first_place
found = refl
