-- ===== src/Kernel/Task/Block.antt =====
-- `task_block`: a task that blocks gives the processor away.
use onix.Base.{
  ℕ, ◌≡◌, ◌≢◌, refl, sym, ◌∙◌, true, false, not, none, some, ◌==◌, ltb, ◌&&◌, arith, ℕ_discrete,
  inl, inr, ◌⊎◌, ap, Bool, Bool-cases,
}
use onix.Kernel.Task.{
  Kernel, Task, TaskState, is_candidate, task_running, task_ready, task_init, task_blocked,
  task_sleeping, task_waiting, task_died, same_state, block, task_block, is_none, timer_add, listed,
  timed, enter_state,
}
use onix.Kernel.Task.Search.{task_search-ready}
use onix.Kernel.Task.Schedule.{OneRuns, AtMostOne, switched, schedule_to, switched-OneRuns}

differ : (i j : ℕ) → i ≢ j → (i == j) ≡ false
differ i j n = ground (arith, n)

module _ (k : Kernel) (task blist : ℕ) (state : TaskState) (timeout_ms : ℕ) where
  -- What `task_block` has done before its `schedule`.
  abbrev Blocks : Kernel → Type 0
  Blocks b =
      (b.current ≡ k.current)
      × (b.idle_task ≡ k.idle_task)
      × (b.table ≡ k.table)
      × ((b.tasks task).state ≡ state)
      × ((b.tasks task).node ≡ some blist)
      × ((i : ℕ) → i ≢ task → b.tasks i ≡ k.tasks i)

  pub block-Blocks :
      (k.tasks task).node ≡ none
      → (k.tasks task).timer ≡ none
      → same_state state task_ready ≡ false
      → same_state state task_running ≡ false
      → (b : Kernel) × (block task blist state timeout_ms k ≡ some b) × Blocks b
  unfolding block timer_add
  block-Blocks node timer ready running =
      let self : (task == task) ≡ true = ground arith in
      let free : (is_none (k.tasks task).node
            && not (same_state state task_ready)
            && not (same_state state task_running))
          ≡ true =
        rw (node, ready, running) refl in
      let untimed : is_none (k.tasks task).timer ≡ true = rw timer refl in
      elim (Bool-cases (ltb 0 timeout_ms)) [
        | inl t ↦ (
          enter_state task state (timed task timeout_ms (listed task blist k)),
          rw (block, free, t, untimed) refl,
          (refl, refl, refl, rw self refl, rw self refl, λ i n. rw (differ i task n) refl),
        )
        | inr t ↦ (
          enter_state task state (listed task blist k),
          rw (block, free, t) refl,
          (refl, refl, refl, rw self refl, rw self refl, λ i n. rw (differ i task n) refl),
        )
      ]

same_state-ready : (st : TaskState) → same_state st task_ready ≡ true → st ≡ task_ready
same_state-ready task_ready h = refl
same_state-ready task_init h = absurd (ground (arith, h))
same_state-ready task_running h = absurd (ground (arith, h))
same_state-ready task_blocked h = absurd (ground (arith, h))
same_state-ready task_sleeping h = absurd (ground (arith, h))
same_state-ready task_waiting h = absurd (ground (arith, h))
same_state-ready task_died h = absurd (ground (arith, h))

is_candidate-listed :
    (k : Kernel) (state : TaskState) (i : ℕ) → is_candidate k state i ≡ true → k.table i ≡ true
is_candidate-listed k state i h = ground (arith, h)

is_candidate-ready :
    (k : Kernel) (i : ℕ) → is_candidate k task_ready i ≡ true → (k.tasks i).state ≡ task_ready
is_candidate-ready k i h = same_state-ready (k.tasks i).state (ground (arith, h))

blocked_lem :
    (k : Kernel) (blist : ℕ) (state : TaskState) (timeout_ms : ℕ) (b : Kernel)
    → block k.current blist state timeout_ms k ≡ some b
    → b.current ≡ k.current
    → b.idle_task ≡ k.idle_task
    → b.table ≡ k.table
    → (b.tasks k.current).state ≡ state
    → (b.tasks k.current).node ≡ some blist
    → ((i : ℕ) → i ≢ k.current → b.tasks i ≡ k.tasks i)
    → OneRuns k
    → k.current ≢ k.idle_task
    → same_state state task_running ≡ false
    → (s : Kernel) × (task_block k.current blist state timeout_ms k ≡ some s)
      × OneRuns s
      × (s.current ≢ k.current)
      × (((k.table s.current ≡ true) × ((k.tasks s.current).state ≡ task_ready))
          ⊎ (s.current ≡ k.idle_task))
      × ((s.tasks k.current).state ≡ state)
      × ((s.tasks k.current).node ≡ some blist)
unfolding task_block
blocked_lem k blist state timeout_ms b run cur idle table st nd same one busy running =
    let (next, found, good) = task_search-ready b in
    let at_most : AtMostOne b = λ i. elim (ℕ_discrete i k.current) [
      | yes d ↦ inl (d ∙ sym cur)
      | no d ↦ elim (one.1 i) [ inl e ↦ absurd (d e) | inr e ↦ inr (rw (same i d) e) ]
    ] in
    let away : next ≢ k.current = λ e. elim good [
      | inl c ↦ absurd (ground (arith, c, e, cur))
      | inr c ↦ busy (sym e ∙ c ∙ idle)
    ] in
    let back : (k.current == next) ≡ false = differ k.current next (λ e. away (sym e)) in
    let is : (b.current == k.current) ≡ true = ground (arith, cur) in
    let self : (k.current == k.current) ≡ true = ground arith in
    (
      switched next b,
      rw (task_block, run, is) (schedule_to b next found),
      switched-OneRuns b next at_most,
      away,
      elim good [
        | inl c ↦ inl (
          ap (λ (f : ℕ → Bool). f next) (sym table) ∙ is_candidate-listed b task_ready next c,
          ap (λ (t : Task). t.state) (sym (same next away)) ∙ is_candidate-ready b next c,
        )
        | inr c ↦ inr (c ∙ idle)
      ],
      rw (back, cur, self, st, running) refl,
      rw (back, cur, self, nd) refl,
    )

-- Exactly one task runs. It is in no list, has no timeout and is not the idle task, and it blocks in a state
-- that is neither ready nor running: `task_block` fails
-- no `assert`, the task is then in the state and the list that were asked for, and exactly one task
-- runs. It is another task, which was in the table and ready before, or it is the idle task.
pub task_block-OneRuns :
    (k : Kernel) (blist : ℕ) (state : TaskState) (timeout_ms : ℕ)
    → OneRuns k
    → k.current ≢ k.idle_task
    → (k.tasks k.current).node ≡ none
    → (k.tasks k.current).timer ≡ none
    → same_state state task_ready ≡ false
    → same_state state task_running ≡ false
    → (s : Kernel) × (task_block k.current blist state timeout_ms k ≡ some s)
      × OneRuns s
      × (s.current ≢ k.current)
      × (((k.table s.current ≡ true) × ((k.tasks s.current).state ≡ task_ready))
          ⊎ (s.current ≡ k.idle_task))
      × ((s.tasks k.current).state ≡ state)
      × ((s.tasks k.current).node ≡ some blist)
unfolding task_block
task_block-OneRuns k blist state timeout_ms one busy node timer ready running =
    let (b, run, h) = block-Blocks k k.current blist state timeout_ms node timer ready running in
    blocked_lem k blist state timeout_ms b run h.0 h.1 h.2 h.3 h.4 h.5 one busy running
