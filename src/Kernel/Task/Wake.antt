-- ===== src/Kernel/Task/Wake.antt =====
-- `task_unblock` and `timer_wakeup`: the tasks whose time has come are woken, and only they.
use onix.Base.{
  ℕ, ◌≡◌, ◌≢◌, refl, ap, ◌∙◌, true, false, none, some, ◌==◌, arith, inl, inr, Option-cases,
}
use onix.Base.Int.{ℤ}
use onix.Libc.Nodes.{has, without}
use onix.Kernel.Task.{
  Kernel, Task, Timer, task_running, task_ready, same_state, set_task, unlist, untime, task_unblock,
  timer_put, timer_remove,
}

-- A task that is ready with the reason for its waking, in no list and with no timeout.
abbrev pub IsWoken : ℤ → Task → Type 0
IsWoken reason t = (t.state ≡ task_ready) × (t.status ≡ reason) × (t.timer ≡ none) × (t.node ≡ none)

-- What `task_unblock` leaves of what is not the task's.
abbrev pub SameTimers : Kernel → Kernel → Type 0
SameTimers k s = (s.timer_list ≡ k.timer_list) × (s.timers ≡ k.timers) × (s.jiffies ≡ k.jiffies)

pub differ : (i j : ℕ) → i ≢ j → (i == j) ≡ false
differ i j n = ground (arith, n)

module _ (k : Kernel) (o : ℕ) where
  abbrev pub Unlists : Kernel → Type 0
  Unlists u =
      SameTimers k u
      × ((u.tasks o).timer ≡ (k.tasks o).timer)
      × ((u.tasks o).state ≡ (k.tasks o).state)
      × ((u.tasks o).node ≡ none)
      × ((i : ℕ) → i ≢ o → u.tasks i ≡ k.tasks i)
      × ((u.tasks o).signal ≡ (k.tasks o).signal)
      × ((u.tasks o).pid ≡ (k.tasks o).pid)

  pub unlist-Unlists : Unlists (unlist o k)
  unfolding unlist
  unlist-Unlists =
      let self : (o == o) ≡ true = ground arith in
      elim (Option-cases (k.tasks o).node) [
        | inl e ↦ rw (unlist, e) ((refl, refl, refl), refl, refl, e, λ i n. refl, refl, refl)
        | inr (l, e) ↦
            rw (unlist, e)
              (
                (refl, refl, refl),
                rw self refl,
                rw self refl,
                rw self refl,
                λ i n. rw (differ i o n) refl,
                rw self refl,
                rw self refl,
              )
      ]

  -- A task whose timeout is firing.
  pub task_unblock-IsWoken :
      (t : ℕ) (reason : ℤ)
      → (k.tasks o).timer ≡ some t
      → (k.timers t).active ≡ true
      → same_state (k.tasks o).state task_running ≡ false
      → (s : Kernel) × (task_unblock o reason k ≡ some s)
        × SameTimers k s
        × IsWoken reason (s.tasks o)
        × ((i : ℕ) → i ≢ o → s.tasks i ≡ k.tasks i)
  unfolding task_unblock untime
  task_unblock-IsWoken t reason timer active stopped =
      let v = unlist-Unlists in
      let u = unlist o k in
      let w = set_task o (record (u.tasks o) { timer = none }) u in
      let self : (o == o) ≡ true = ground arith in
      let timer_here : (u.tasks o).timer ≡ some t = v.1 ∙ timer in
      let active_here : (u.timers t).active ≡ true =
        ap (λ (f : ℕ → Timer). (f t).active) (v.0.1) ∙ active in
      let untimed : untime o u ≡ some w = rw (untime, timer_here, active_here) refl in
      let stopped_here : same_state (w.tasks o).state task_running ≡ false =
        rw (self, v.2) stopped in
      let s = set_task o (record (w.tasks o) { status = reason; state = task_ready }) w in
      (
        s,
        rw (task_unblock, untimed, stopped_here) refl,
        v.0,
        (rw self refl, rw self refl, rw self refl, rw self (v.3)),
        λ i n. rw (differ i o n) (v.4 i n),
      )

-- `task_unblock` of a task whose timeout has not come: the timer goes.
pub task_unblock-early :
    (k : Kernel) (o t : ℕ) (reason : ℤ)
    → (k.tasks o).timer ≡ some t
    → (k.timers t).active ≡ false
    → has t k.timer_list ≡ true
    → same_state (k.tasks o).state task_running ≡ false
    → (s : Kernel) × (task_unblock o reason k ≡ some s)
      × (s.timer_list ≡ without t k.timer_list)
      × IsWoken reason (s.tasks o)
      × ((s.tasks o).signal ≡ (k.tasks o).signal)
      × ((i : ℕ) → i ≢ o → s.tasks i ≡ k.tasks i)
unfolding task_unblock untime timer_put
task_unblock-early k o t reason timer active here stopped =
    let v = unlist-Unlists k o in
    let u = unlist o k in
    let p = record u { timer_list = without t u.timer_list } in
    let w = set_task o (record (p.tasks o) { timer = none }) p in
    let self : (o == o) ≡ true = ground arith in
    let timer_here : (u.tasks o).timer ≡ some t = v.1 ∙ timer in
    let active_here : (u.timers t).active ≡ false =
      ap (λ (f : ℕ → Timer). (f t).active) (v.0.1) ∙ active in
    let listed : has t u.timer_list ≡ true = ap (has t) (v.0.0) ∙ here in
    let untimed : untime o u ≡ some w =
      rw (untime, timer_here, active_here, timer_put, listed) refl in
    let stopped_here : same_state (w.tasks o).state task_running ≡ false = rw (self, v.2) stopped in
    let s = set_task o (record (w.tasks o) { status = reason; state = task_ready }) w in
    (
      s,
      rw (task_unblock, untimed, stopped_here) refl,
      ap (without t) (v.0.0),
      (rw self refl, rw self refl, rw self refl, rw self (v.3)),
      rw self (v.5),
      λ i n. rw (differ i o n) (v.4 i n),
    )

unlist-table : (k : Kernel) (o : ℕ) → (unlist o k).table ≡ k.table
unfolding unlist
unlist-table k o = elim (Option-cases (k.tasks o).node) [
  | inl e ↦ rw (unlist, e) refl
  | inr (l, e) ↦ rw (unlist, e) refl
]

-- `task_unblock` of a task without a timeout.
pub task_unblock-timeless :
    (k : Kernel) (o : ℕ) (reason : ℤ)
    → (k.tasks o).timer ≡ none
    → same_state (k.tasks o).state task_running ≡ false
    → (s : Kernel) × (task_unblock o reason k ≡ some s)
      × ((s.tasks o).state ≡ task_ready)
      × ((s.tasks o).pid ≡ (k.tasks o).pid)
      × ((i : ℕ) → i ≢ o → s.tasks i ≡ k.tasks i)
      × (s.table ≡ k.table)
unfolding task_unblock untime unlist
task_unblock-timeless k o reason timer stopped =
    let v = unlist-Unlists k o in
    let u = unlist o k in
    let self : (o == o) ≡ true = ground arith in
    let timer_here : (u.tasks o).timer ≡ none = v.1 ∙ timer in
    let untimed : untime o u ≡ some u = rw (untime, timer_here) refl in
    let stopped_here : same_state (u.tasks o).state task_running ≡ false = rw (v.2) stopped in
    let s = set_task o (record (u.tasks o) { status = reason; state = task_ready }) u in
    (
      s,
      rw (task_unblock, untimed, stopped_here) refl,
      rw self refl,
      rw self (v.6),
      λ i n. rw (differ i o n) (v.4 i n),
      unlist-table k o,
    )

-- `timer_remove` changes no task.
pub timer_remove-tasks :
    (k : Kernel) (task : ℕ)
    → ((timer_remove task k).tasks ≡ k.tasks) × ((timer_remove task k).table ≡ k.table)
unfolding timer_remove
timer_remove-tasks k task = (refl, refl)
