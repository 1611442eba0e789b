-- ===== src/Kernel/Signal/Kill.antt =====
-- `sys_kill` of a task that sleeps or waits.
use onix.Base.{
  ℕ, ◌<◌, ◌≤◌, ◌≡◌, ◌≢◌, refl, ◌∙◌, true, false, some, ◌==◌, ltb, ◌||◌, arith, ◌⊎◌, inl, inr,
  bit_or, Bool-cases,
}
use onix.Base.Int.{neg}
use onix.Libc.Nodes.{has, without}
use onix.Libc.Nodes.Laws.{put_other}
use onix.Kernel.Task.{Kernel, task_waiting, task_sleeping, same_state, set_task, get_task}
use onix.Kernel.Task.Wake.{IsWoken, task_unblock-early}
use onix.Kernel.Signal.{sigmask, minsig, maxsig, kernel_user, send, sys_kill, eintr, sig_eof}

kill_step :
    (k s : Kernel) (pid sig task : ℕ)
    → (ltb sig minsig || ltb maxsig sig) ≡ false
    → get_task pid k ≡ some task
    → ((k.tasks task).uid == kernel_user || (k.tasks task).pid == 1) ≡ false
    → send task sig k ≡ some s
    → sys_kill pid sig k ≡ some (0, s)
unfolding sys_kill
kill_step k s pid sig task range found killable sent =
    rw (sys_kill, range, found, killable, sent) refl

-- `sys_kill` of a task of a user other than init, which sleeps until a timeout: the signal is pending,
-- the task is ready with -EINTR and its timer is gone. A task other than this one is as it was.
pub sys_kill-IsWoken :
    (k : Kernel) (pid sig task t other : ℕ)
    → minsig ≤ sig
    → sig ≤ maxsig
    → get_task pid k ≡ some task
    → 0 < (k.tasks task).uid
    → (k.tasks task).pid ≢ 1
    → (k.tasks task).state ≡ task_sleeping
    → (k.tasks task).timer ≡ some t
    → (k.timers t).active ≡ false
    → has t k.timer_list ≡ true
    → other ≢ task
    → (s : Kernel) × (sys_kill pid sig k ≡ some (0, s))
      × IsWoken (neg eintr) (s.tasks task)
      × ((s.tasks task).signal ≡ bit_or (k.tasks task).signal (sigmask sig))
      × (s.timer_list ≡ without t k.timer_list)
      × (s.tasks other ≡ k.tasks other)
unfolding sys_kill send
sys_kill-IsWoken k pid sig task t other low high found user not_init asleep timer active here ne =
    let k_task = record (k.tasks task) { signal = bit_or (k.tasks task).signal (sigmask sig) } in
    let m = set_task task k_task k in
    let self : (task == task) ≡ true = ground arith in
    let (s, run, list, woken, signal, others) =
      task_unblock-early m task t (neg eintr) (rw self timer) active here
        (rw (self, asleep) refl) in
    let in_range : (ltb sig minsig || ltb maxsig sig) ≡ false = ground arith in
    let killable : ((k.tasks task).uid == kernel_user || (k.tasks task).pid == 1) ≡ false =
      ground arith in
    let wakes : (same_state (k.tasks task).state task_waiting
          || same_state (k.tasks task).state task_sleeping)
        ≡ true =
      rw asleep refl in
    let sent : send task sig k ≡ some s = rw (send, wakes) run in
    (
      s,
      kill_step k s pid sig task in_range found killable sent,
      woken,
      rw self at signal,
      list,
      others other ne ∙ put_other k.tasks task other k_task ne,
    )

-- `sys_kill` refuses, and changes nothing: a number that is no signal, and a task of the kernel.
pub sys_kill-refuses :
    (k : Kernel) (pid sig : ℕ)
    → (sig ≡ 0)
      ⊎ ((maxsig < sig)
          ⊎ ((task : ℕ) × (get_task pid k ≡ some task) × ((k.tasks task).uid ≡ kernel_user)))
    → sys_kill pid sig k ≡ some (sig_eof, k)
unfolding sys_kill
sys_kill-refuses k pid sig (inl h) =
    let e : (ltb sig minsig || ltb maxsig sig) ≡ true = ground arith in rw (sys_kill, e) refl
sys_kill-refuses k pid sig (inr (inl h)) =
    let e : (ltb sig minsig || ltb maxsig sig) ≡ true = ground arith in rw (sys_kill, e) refl
sys_kill-refuses k pid sig (inr (inr (task, found, kernel))) =
    let no : ((k.tasks task).uid == kernel_user || (k.tasks task).pid == 1) ≡ true =
      ground (arith, kernel) in
    elim (Bool-cases (ltb sig minsig || ltb maxsig sig)) [
      | inl e ↦ rw (sys_kill, e) refl
      | inr e ↦ rw (sys_kill, e, found, no) refl
    ]
