-- ===== src/Kernel/Exit/Fork.antt =====
-- `task_fork`: the child is a new task, ready to run.
use onix.Base.{
  ℕ, ◌<◌, ◌≡◌, ◌≢◌, refl, ap, ◌∙◌, true, false, none, some, ◌==◌, ◌&&◌, arith, inl, inr, ℕ_discrete,
}
use onix.Base.Int.{pos}
use onix.Libc.Nodes.{put}
use onix.Libc.Nodes.Laws.{put_self, put_other}
use onix.Kernel.Task.{
  Kernel, Task, task_running, task_ready, same_state, set_task, task_nr, is_none, no_task,
}
use onix.Kernel.Task.Search.{get_free_task-some}
use onix.Kernel.Task.Schedule.{OneRuns}
use onix.Kernel.Exit.{task_fork}

-- When exactly one task runs, which is in the table and in no list, and a place of the table is free,
-- `task_fork` of the running task fails no `assert` and returns the pid of the child. This is its place in the table, where no task was before and the child is now. The
-- child is ready, its parent is the running task, its ticks are all of its priority, and it has the user,
-- the alarm and the pending signals of its parent. No other task changes, and still exactly one runs.
pub task_fork-OneRuns :
    (k : Kernel) (m : ℕ)
    → OneRuns k
    → k.table k.current ≡ true
    → (k.tasks k.current).node ≡ none
    → m < task_nr
    → k.table m ≡ false
    → (child : ℕ) × (s : Kernel) × (task_fork k ≡ some (child, s))
      × (k.table child ≡ false)
      × (s.table ≡ put k.table child true)
      × OneRuns s
      × ((s.tasks child).pid ≡ child)
      × ((s.tasks child).state ≡ task_ready)
      × ((s.tasks child).ppid ≡ (k.tasks k.current).pid)
      × ((s.tasks child).ticks ≡ pos (k.tasks k.current).priority)
      × ((s.tasks child).uid ≡ (k.tasks k.current).uid)
      × ((s.tasks child).alarm ≡ (k.tasks k.current).alarm)
      × ((s.tasks child).signal ≡ (k.tasks k.current).signal)
      × ((i : ℕ) → i ≢ child → s.tasks i ≡ k.tasks i)
      × (s.current ≡ k.current)
unfolding task_fork
task_fork-OneRuns k m one here node l free =
    let (i, run, was_free) = get_free_task-some k m l free in
    let me = k.tasks k.current in
    let child = record me { pid = i; ppid = me.pid; ticks = pos me.priority; state = task_ready } in
    let r = record k { table = put k.table i true; tasks = put k.tasks i (no_task i) } in
    let s = set_task i child r in
    let cond : (is_none me.node && same_state me.state task_running) ≡ true =
      rw (node, one.0) refl in
    let self : (i == i) ≡ true = ground arith in
    let away : k.current ≢ i = λ e. absurd (ground (arith, here, was_free, ap k.table e)) in
    let same : s.tasks k.current ≡ k.tasks k.current =
      put_other r.tasks i k.current child away ∙ put_other k.tasks i k.current (no_task i) away in
    let new : s.tasks i ≡ child = put_self r.tasks i child in
    (
      i,
      s,
      rw (task_fork, cond, run) refl,
      was_free,
      refl,
      (
        ap (λ (t : Task). t.state) same ∙ one.0,
        λ j. elim (ℕ_discrete j i) [
          | yes e ↦ inr (rw (e, new) refl)
          | no n ↦ elim (one.1 j) [
            | inl e ↦ inl e
            | inr e ↦
                inr (rw (put_other r.tasks i j child n, put_other k.tasks i j (no_task i) n) e)
          ]
        ],
      ),
      ap (λ (t : Task). t.pid) new,
      ap (λ (t : Task). t.state) new,
      ap (λ (t : Task). t.ppid) new,
      ap (λ (t : Task). t.ticks) new,
      ap (λ (t : Task). t.uid) new,
      ap (λ (t : Task). t.alarm) new,
      ap (λ (t : Task). t.signal) new,
      λ j n. put_other r.tasks i j child n ∙ put_other k.tasks i j (no_task i) n,
      refl,
    )
