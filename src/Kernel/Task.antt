-- ===== src/Kernel/Task.antt =====
-- src/kernel/task.c, src/kernel/timer.c and src/kernel/clock.c: the task table, the scheduler, blocking
-- and timers. A task is its place in the table, a timer and a list of tasks their own numbers.
pub mod Search
pub mod Schedule
pub mod Block
pub mod Wake
pub mod Expire
pub mod Timeout
mod Tests
use onix.Base.{
  ℕ, zero, suc, ◌+◌, ◌-◌, ◌/◌, ◌%◌, ◌^◌, Bool, true, false, not, Option, none, some, List, [], ◌∷◌,
  ◌==◌, ltb, leb, if◌then◌else◌, ◌&&◌, ◌||◌, ◌>>=◌, ◌>>◌, assert,
}
use onix.Base.Int.{ℤ, pos, negsuc, neg, leb_ℤ, ◌-ℤ◌}
use onix.Libc.Nodes.{has, without, insert_by, put}

-- `task_state_t`
pub data TaskState : Type 0 where
  task_init : TaskState
  task_running : TaskState
  task_ready : TaskState
  task_blocked : TaskState
  task_sleeping : TaskState
  task_waiting : TaskState
  task_died : TaskState

abbrev pub state_number : TaskState → ℕ
state_number task_init = 0
state_number task_running = 1
state_number task_ready = 2
state_number task_blocked = 3
state_number task_sleeping = 4
state_number task_waiting = 5
state_number task_died = 6

abbrev pub same_state : TaskState → TaskState → Bool
same_state s t = state_number s == state_number t

-- `sigaction_t`
pub record Action : Type 0 where
  pub handler : ℕ
  pub mask : ℕ
  pub flags : ℕ
  pub restorer : ℕ

-- `task_t`; `node` is the list that the task's node is in, and `actions` starts at 0.
pub record Task : Type 0 where
  pub state : TaskState
  pub priority : ℕ
  pub ticks : ℤ
  pub jiffies : ℕ
  pub uid : ℕ
  pub pid : ℕ
  pub ppid : ℕ
  pub sid : ℕ
  pub status : ℤ
  pub waitpid : ℤ
  pub signal : ℕ
  pub blocked : ℕ
  pub actions : ℕ → Action
  pub alarm : Option ℕ
  pub timer : Option ℕ
  pub node : Option ℕ

-- `timer_t`; a timer without a handler wakes its task.
pub record Timer : Type 0 where
  pub task : ℕ
  pub expires : ℕ
  pub handler : Option ℕ
  pub active : Bool

-- The variables of task.c, timer.c and clock.c. `table` tells which tasks there are, and `fresh` is the
-- timer that `kmalloc` gives next.
pub record Kernel : Type 0 where
  pub current : ℕ
  pub idle_task : ℕ
  pub table : ℕ → Bool
  pub tasks : ℕ → Task
  pub lists : ℕ → List ℕ
  pub timer_list : List ℕ
  pub timers : ℕ → Timer
  pub fresh : ℕ
  pub jiffies : ℕ

-- `TASK_NR`, `JIFFY`, `EOF` as a `u32`, `ETIME`, `block_list` and `sleep_list`
abbrev pub task_nr : ℕ
task_nr = 64

abbrev pub jiffy : ℕ
jiffy = 10

abbrev pub no_expiry : ℕ
no_expiry = 2 ^ 32 - 100

abbrev pub etime : ℕ
etime = 62

abbrev pub block_list : ℕ
block_list = 0

abbrev pub sleep_list : ℕ
sleep_list = 1

abbrev pub set_task : ℕ → Task → Kernel → Kernel
set_task i t k = record k { tasks = put k.tasks i t }

-- The first of the `n` places from `i` on that passes a test.
unfoldable pub first_place : (ℕ → Bool) → ℕ → ℕ → Option ℕ
first_place p zero i = none
first_place p (suc n) i = if p i then some i else first_place p n (i + 1)

abbrev pub no_task : ℕ → Task
no_task pid = record {
  state = task_init;
  priority = 0;
  ticks = pos 0;
  jiffies = 0;
  uid = 0;
  pid = pid;
  ppid = 0;
  sid = 0;
  status = pos 0;
  waitpid = pos 0;
  signal = 0;
  blocked = 0;
  actions = λ i. record { handler = 0; mask = 0; flags = 0; restorer = 0 };
  alarm = none;
  timer = none;
  node = none;
}

-- `get_free_task`; `none` is its panic.
pub get_free_task : Kernel → Option (ℕ × Kernel)
get_free_task k = elim (first_place (λ i. not (k.table i)) task_nr 0) [
  | none ↦ none
  | some i ↦ some (i, record k { table = put k.table i true; tasks = put k.tasks i (no_task i) })
]

-- `get_task`
unfoldable pub get_task : ℕ → Kernel → Option ℕ
get_task pid k = first_place (λ i. k.table i && (k.tasks i).pid == pid) task_nr 0

-- The condition of `task_search` for a better task.
pub better : Kernel → ℕ → Option ℕ → Bool
better k i none = true
better k i (some best) =
    not (leb_ℤ (k.tasks i).ticks (k.tasks best).ticks)
    || ltb (k.tasks i).jiffies (k.tasks best).jiffies

abbrev pub is_candidate : Kernel → TaskState → ℕ → Bool
is_candidate k state i = k.table i && same_state (k.tasks i).state state && not (i == k.current)

-- The loop of `task_search`, with the best task so far.
pub search_loop : Kernel → TaskState → ℕ → ℕ → Option ℕ → Option ℕ
search_loop k state zero i best = best
search_loop k state (suc n) i best =
    search_loop k state n (i + 1)
      (if is_candidate k state i && better k i best then some i else best)

-- `task_search`
pub task_search : TaskState → Kernel → Option ℕ
task_search state k = elim (search_loop k state task_nr 0 none) [
  | some i ↦ some i
  | none ↦ if same_state state task_ready then some k.idle_task else none
]

-- What `schedule` does to the running task.
abbrev pub stopped : Task → Task
stopped t = record t {
  state = if same_state t.state task_running then task_ready else t.state;
  ticks = elim t.ticks [ pos n ↦ if n == 0 then pos t.priority else pos n | negsuc n ↦ negsuc n ];
}

-- `schedule`
pub schedule : Kernel → Option Kernel
schedule k = elim (task_search task_ready k) [
  | none ↦ none
  | some next ↦
      let s = set_task k.current (stopped (k.tasks k.current)) k in
      some (record s {
        current = next;
        tasks = put s.tasks next (record (s.tasks next) { state = task_running });
      })
]

-- `list_insert_sort` compares expiry times as `int`.
abbrev pub timer_key : (ℕ → Timer) → ℕ → ℕ
timer_key timers t = ((timers t).expires + 2 ^ 31) % 2 ^ 32

-- `timer_expire_jiffies`
pub timer_expire_jiffies : ℕ → Kernel → ℕ
timer_expire_jiffies expire_ms k = (k.jiffies + expire_ms / jiffy) % 2 ^ 32

-- `timer_is_expires`
pub timer_is_expires : ℕ → Kernel → Bool
timer_is_expires expires k = ltb expires k.jiffies

-- `timer_add`
pub timer_add : ℕ → Option ℕ → Kernel → ℕ × Kernel
timer_add expire_ms handler k =
    let timers = put k.timers k.fresh (record {
      task = k.current;
      expires = timer_expire_jiffies expire_ms k;
      handler = handler;
      active = false;
    }) in
    (
      k.fresh,
      record k {
        timers = timers;
        timer_list = insert_by (timer_key timers) k.fresh k.timer_list;
        fresh = k.fresh + 1;
      },
    )

-- `timer_put`
pub timer_put : ℕ → Kernel → Option Kernel
timer_put t k =
    if has t k.timer_list then some (record k { timer_list = without t k.timer_list }) else none

-- `timer_update`
pub timer_update : ℕ → ℕ → Kernel → Option Kernel
timer_update t expire_ms k = elim (timer_put t k) [
  | none ↦ none
  | some s ↦
      let timers =
        put s.timers t (record (s.timers t) { expires = timer_expire_jiffies expire_ms s }) in
      some (record s { timers = timers; timer_list = insert_by (timer_key timers) t s.timer_list })
]

-- `timer_expires`
pub timer_expires : Kernel → ℕ
timer_expires k = elim k.timer_list [ [] ↦ no_expiry | t ∷ ts ↦ (k.timers t).expires ]

-- The loop of `timer_remove`.
pub others_of : (ℕ → Timer) → ℕ → List ℕ → List ℕ
others_of timers task [] = []
others_of timers task (t ∷ ts) =
    if (timers t).task == task then others_of timers task ts else t ∷ others_of timers task ts

-- `timer_remove`
pub timer_remove : ℕ → Kernel → Kernel
timer_remove task k = record k { timer_list = others_of k.timers task k.timer_list }

-- `task_unblock` up to its last lines: the node and the timer.
pub unlist : ℕ → Kernel → Kernel
unlist task k = elim (k.tasks task).node [
  | none ↦ k
  | some l ↦
      set_task task (record (k.tasks task) { node = none })
        (record k { lists = put k.lists l (without task (k.lists l)) })
]

pub untime : ℕ → Kernel → Option Kernel
untime task k = elim (k.tasks task).timer [
  | none ↦ some k
  | some t ↦ elim (k.timers t).active [
    | true ↦ some (set_task task (record (k.tasks task) { timer = none }) k)
    | false ↦ elim (timer_put t k) [
      | none ↦ none
      | some s ↦ some (set_task task (record (s.tasks task) { timer = none }) s)
    ]
  ]
]

-- `task_unblock`
pub task_unblock : ℕ → ℤ → Kernel → Option Kernel
task_unblock task reason k = elim (untime task (unlist task k)) [
  | none ↦ none
  | some s ↦ elim (same_state (s.tasks task).state task_running) [
    | true ↦ none
    | false ↦ some (set_task task (record (s.tasks task) { status = reason; state = task_ready }) s)
  ]
]

abbrev pub is_none : Option ℕ → Bool
is_none none = true
is_none (some a) = false

-- The task's node in front of a list.
abbrev pub listed : ℕ → ℕ → Kernel → Kernel
listed task blist k =
    set_task task (record (k.tasks task) { node = some blist })
      (record k { lists = put k.lists blist (task ∷ k.lists blist) })

abbrev pub enter_state : ℕ → TaskState → Kernel → Kernel
enter_state task state k = set_task task (record (k.tasks task) { state = state }) k

-- A timeout for the task, with the timer that wakes the running task.
abbrev pub timed : ℕ → ℕ → Kernel → Kernel
timed task timeout_ms k =
    let a = timer_add timeout_ms none k in
    set_task task (record (a.1.tasks task) { timer = some a.0 }) a.1

-- `task_block` up to its `schedule`, with a timeout of `TIMELESS` as 0.
pub block : ℕ → ℕ → TaskState → ℕ → Kernel → Option Kernel
block task blist state timeout_ms k =
    elim (is_none (k.tasks task).node
      && not (same_state state task_ready)
      && not (same_state state task_running)) [
        | false ↦ none
        | true ↦ elim (ltb 0 timeout_ms) [
          | false ↦ some (enter_state task state (listed task blist k))
          | true ↦ elim (is_none (k.tasks task).timer) [
            | false ↦ none
            | true ↦ some (enter_state task state (timed task timeout_ms (listed task blist k)))
          ]
        ]
      ]

-- `task_block`
pub task_block : ℕ → ℕ → TaskState → ℕ → Kernel → Option Kernel
task_block task blist state timeout_ms k = elim (block task blist state timeout_ms k) [
  | none ↦ none
  | some s ↦ if s.current == task then schedule s else some s
]

-- `task_sleep`
pub task_sleep : ℕ → Kernel → Option Kernel
task_sleep ms k = task_block k.current sleep_list task_sleeping ms k

-- The handler of a timer, or `default_timeout`; `run` is what a handler does with its timer.
pub run_timer : (ℕ → ℕ → Kernel → Option Kernel) → ℕ → Kernel → Option Kernel
run_timer run t k = elim (k.timers t).handler [
  | some h ↦ run h t k
  | none ↦ task_unblock (k.timers t).task (neg etime) k
]

abbrev pub activated : ℕ → Kernel → Kernel
activated t k = record k { timers = put k.timers t (record (k.timers t) { active = true }) }

-- A round of `timer_wakeup`.
pub fire : (ℕ → ℕ → Kernel → Option Kernel) → ℕ → Kernel → Option Kernel
fire run t k = elim (run_timer run t (activated t k)) [ none ↦ none | some s ↦ timer_put t s ]

-- `timer_wakeup`, on fuel.
pub timer_wakeup : (ℕ → ℕ → Kernel → Option Kernel) → ℕ → Kernel → Option Kernel
timer_wakeup run zero k = none
timer_wakeup run (suc fuel) k = elim (leb (timer_expires k) k.jiffies) [
  | false ↦ some k
  | true ↦ elim k.timer_list [
    | [] ↦ none
    | t ∷ ts ↦ elim (fire run t k) [ none ↦ none | some s ↦ timer_wakeup run fuel s ]
  ]
]

-- The end of `clock_handler`.
pub tick : Kernel → Option Kernel
tick k =
    let t = k.tasks k.current in
    let s = set_task k.current (record t { jiffies = k.jiffies; ticks = t.ticks -ℤ pos 1 }) k in
    elim (s.tasks k.current).ticks [
      | pos n ↦ if n == 0 then schedule s else some s
      | negsuc n ↦ some s
    ]

-- `clock_handler`
pub clock_handler : (ℕ → ℕ → Kernel → Option Kernel) → ℕ → Kernel → Option Kernel
clock_handler run fuel k =
    elim (timer_wakeup run fuel (record k { jiffies = (k.jiffies + 1) % 2 ^ 32 })) [
      | none ↦ none
      | some s ↦ tick s
    ]
