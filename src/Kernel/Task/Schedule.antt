-- ===== src/Kernel/Task/Schedule.antt =====
-- `schedule`: one task runs.
use onix.Base.{ℕ, ◌≡◌, refl, true, false, some, ◌==◌, arith, ℕ_discrete, ◌⊎◌, inl, inr, Bool-cases}
use onix.Libc.Nodes.{put}
use onix.Kernel.Task.{
  Kernel, Task, task_running, task_ready, same_state, is_candidate, stopped, schedule, task_search,
  set_task,
}
use onix.Kernel.Task.Search.{task_search-ready}

-- No task besides the current one is in the state `TASK_RUNNING`.
abbrev pub AtMostOne : Kernel → Type 0
AtMostOne k = (i : ℕ) → (i ≡ k.current) ⊎ (same_state (k.tasks i).state task_running ≡ false)

-- The current task, and only it, is in the state `TASK_RUNNING`.
abbrev pub OneRuns : Kernel → Type 0
OneRuns k = ((k.tasks k.current).state ≡ task_running) × AtMostOne k

stopped_lem : (t : Task) → same_state (stopped t).state task_running ≡ false
stopped_lem t = elim (Bool-cases (same_state t.state task_running)) [
  | inl e ↦ rw e refl
  | inr e ↦ rw (e, e) refl
]

-- The state when `schedule` has chosen a task.
abbrev pub switched : ℕ → Kernel → Kernel
switched next k =
    let mid = set_task k.current (stopped (k.tasks k.current)) k in
    record mid {
      current = next;
      tasks = put mid.tasks next (record (mid.tasks next) { state = task_running });
    }

pub schedule_to :
    (k : Kernel) (next : ℕ)
    → task_search task_ready k ≡ some next
    → schedule k ≡ some (switched next k)
unfolding schedule
schedule_to k next e = rw (schedule, e) refl

pub switched-OneRuns : (k : Kernel) (next : ℕ) → AtMostOne k → OneRuns (switched next k)
switched-OneRuns k next h =
    let self : (next == next) ≡ true = ground arith in
    (
      rw self refl,
      λ i. elim (ℕ_discrete i next) [
        | yes d ↦ inl d
        | no d ↦
            let ne : (i == next) ≡ false = ground (arith, d) in
            elim (ℕ_discrete i k.current) [
              | yes c ↦
                  let same : (i == k.current) ≡ true = ground (arith, c) in
                  inr (rw (ne, same) (stopped_lem (k.tasks k.current)))
              | no c ↦
                  let other : (i == k.current) ≡ false = ground (arith, c) in
                  elim (h i) [ inl e ↦ absurd (c e) | inr e ↦ inr (rw (ne, other) e) ]
            ]
      ],
    )

-- When at most one task runs, `schedule` fails no `assert`, and then exactly one task runs: a ready
-- one of the table or the idle task.
pub schedule-OneRuns :
    (k : Kernel)
    → AtMostOne k
    → (s : Kernel) × (schedule k ≡ some s)
      × OneRuns s
      × ((is_candidate k task_ready s.current ≡ true) ⊎ (s.current ≡ k.idle_task))
schedule-OneRuns k h =
    let (next, run, good) = task_search-ready k in
    (switched next k, schedule_to k next run, switched-OneRuns k next h, good)
