-- ===== src/Kernel/Exit.antt =====
-- src/kernel/task.c: `task_fork`, and `task_exit` without the memory, the files and the terminal that it gives back,
-- and the rounds of `task_waitpid`.
pub mod Steps
pub mod Reap
pub mod Fork
mod Tests
use onix.Base.{
  ℕ, zero, suc, ◌+◌, ◌-◌, ◌^◌, Bool, true, false, not, Option, none, some, ◌==◌, ltb, if◌then◌else◌,
  ◌&&◌, ◌||◌, bit_or,
}
use onix.Base.Int.{ℤ, pos, negsuc}
use onix.Libc.Nodes.{put}
use onix.Kernel.Task.{
  Kernel, Task, TaskState, task_running, task_ready, task_waiting, get_free_task, task_died,
  same_state, set_task, first_place, task_nr, task_unblock, timer_remove, schedule, is_none,
  task_block, block_list,
}
use onix.Kernel.Signal.{sigmask, sigchld}

-- `SIGHUP`
abbrev pub sighup : ℕ
sighup = 1

abbrev pub signalled : ℕ → Task → Task
signalled sig t = record t { signal = bit_or t.signal (sigmask sig) }

-- `task_kill_session`; each round of its loop changes one task.
pub task_kill_session : ℕ → Kernel → Kernel
task_kill_session task k =
    let me = k.tasks task in
    let hit =
      λ (i : ℕ). ltb i task_nr && k.table i && not (i == task) && me.sid == (k.tasks i).sid in
    if me.sid == me.pid
    then record k { tasks = λ i. if hit i then signalled sighup (k.tasks i) else k.tasks i }
    else k

-- `task_tell_father`; `none` is its panic.
pub task_tell_father : ℕ → Kernel → Option Kernel
task_tell_father task k = elim ((k.tasks task).ppid == 0) [
  | true ↦ some k
  | false ↦
      elim (first_place (λ i. k.table i && (k.tasks i).pid == (k.tasks task).ppid) task_nr 0) [
        | none ↦ none
        | some i ↦ some (set_task i (signalled sigchld (k.tasks i)) k)
      ]
]

-- The loop of `task_exit` that gives the children of the task to its own parent.
pub give_children : ℕ → Kernel → Kernel
give_children task k =
    let me = k.tasks task in
    let child =
      λ (i : ℕ). not (ltb i 2) && ltb i task_nr && k.table i && (k.tasks i).ppid == me.pid in
    record k { tasks = λ i. if child i then record (k.tasks i) { ppid = me.ppid } else k.tasks i }

-- `pid == -1 || pid == p`
abbrev pub matches : ℤ → ℕ → Bool
matches (pos n) p = n == p
matches (negsuc n) p = n == 0

-- The parent that waits for the task is woken.
pub wake_parent : ℕ → Kernel → Option Kernel
wake_parent task k =
    let parent = (k.tasks task).ppid in
    elim (same_state (k.tasks parent).state task_waiting
      && matches (k.tasks parent).waitpid (k.tasks task).pid) [
        | true ↦ task_unblock parent (pos 0) k
        | false ↦ some k
      ]

-- `task_exit` up to its `schedule`.
pub leave : ℤ → Kernel → Option Kernel
leave status k =
    let me = k.tasks k.current in
    let died = set_task k.current (record me { state = task_died; status = status }) k in
    elim (is_none me.node && same_state me.state task_running) [
      | false ↦ none
      | true ↦ elim (task_tell_father k.current (task_kill_session k.current died)) [
        | none ↦ none
        | some s ↦ wake_parent k.current (give_children k.current (timer_remove k.current s))
      ]
    ]

-- `task_exit`
pub task_exit : ℤ → Kernel → Option Kernel
task_exit status k = elim (leave status k) [ none ↦ none | some s ↦ schedule s ]

-- A child that `task_waitpid` waits for.
abbrev pub is_child : ℤ → Kernel → ℕ → Bool
is_child pid k i =
    k.table i && (k.tasks i).ppid == (k.tasks k.current).pid && matches pid (k.tasks i).pid

-- What a round of `task_waitpid` does: it takes a dead child out of the table, blocks the task, or
-- finds no child.
pub data Round : Type 0 where
  reaps : ℕ → ℤ → Kernel → Round
  waits : Kernel → Round
  fails : Round

-- A round of the loop of `task_waitpid`; `none` is a failed `assert` of `task_block`.
pub wait_round : ℤ → Kernel → Option Round
wait_round pid k =
    elim (first_place (λ i. is_child pid k i && same_state (k.tasks i).state task_died) 62 2) [
      | some i ↦
          some (reaps (k.tasks i).pid (k.tasks i).status (record k { table = put k.table i false }))
      | none ↦ elim (first_place (is_child pid k) 62 2) [
        | none ↦ some fails
        | some i ↦
            elim (task_block k.current block_list task_waiting 0
              (set_task k.current (record (k.tasks k.current) { waitpid = pid }) k)) [
                | none ↦ none
                | some s ↦ some (waits s)
              ]
      ]
    ]

-- `task_fork`, without the memory and the files that the child gets: the child is a copy of its parent.
pub task_fork : Kernel → Option (ℕ × Kernel)
task_fork k =
    let me = k.tasks k.current in
    elim (is_none me.node && same_state me.state task_running) [
      | false ↦ none
      | true ↦ elim (get_free_task k) [
        | none ↦ none
        | some r ↦
            (let child = record me {
              pid = r.0;
              ppid = me.pid;
              ticks = pos me.priority;
              state = task_ready;
            } in
              some (child.pid, set_task r.0 child r.1))
      ]
    ]
