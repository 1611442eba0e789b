-- ===== src/Kernel/Exit/Steps.antt =====
-- The steps of `task_exit` and `task_waitpid`, one by one.
use onix.Base.{
  ℕ, ◌<◌, ◌≤◌, ◌≡◌, ◌≢◌, refl, ◌∙◌, Bool, true, false, not, none, some, ◌==◌, ltb, if◌then◌else◌,
  ◌&&◌, arith, inl, inr, Bool-cases, ℕ_discrete,
}
use onix.Base.Int.{ℤ, pos}
use onix.Libc.Nodes.{put}
use onix.Kernel.Task.{
  Kernel, Task, TaskState, task_init, task_ready, task_blocked, task_sleeping, task_running,
  task_waiting, task_died, same_state, set_task, task_nr, task_unblock, timer_remove, is_none,
}
use onix.Kernel.Task.Search.{first_place-only, first_place-some}
use onix.Kernel.Task.Wake.{differ}
use onix.Kernel.Signal.{sigchld}
use onix.Kernel.Exit.{
  task_kill_session, task_tell_father, give_children, matches, wake_parent, leave, is_child, reaps,
  wait_round, signalled, sighup,
}

-- What signals and timers do not change of a task.
abbrev pub Like : Task → Task → Type 0
Like a b =
    (a.pid ≡ b.pid)
    × (a.ppid ≡ b.ppid)
    × (a.state ≡ b.state)
    × (a.status ≡ b.status)
    × (a.waitpid ≡ b.waitpid)
    × (a.timer ≡ b.timer)

abbrev pub AllLike : Kernel → Kernel → Type 0
AllLike s k = ((i : ℕ) → Like (s.tasks i) (k.tasks i)) × (s.table ≡ k.table)

pub trans-AllLike : (r s k : Kernel) → AllLike r s → AllLike s k → AllLike r k
trans-AllLike r s k a b = (
  λ i. (
    (a.0 i).0 ∙ (b.0 i).0,
    (a.0 i).1 ∙ (b.0 i).1,
    (a.0 i).2 ∙ (b.0 i).2,
    (a.0 i).3 ∙ (b.0 i).3,
    (a.0 i).4 ∙ (b.0 i).4,
    (a.0 i).5 ∙ (b.0 i).5,
  ),
  a.1 ∙ b.1,
)

pub signalled-Like : (c : Bool) (sig : ℕ) (t : Task) → Like (if c then signalled sig t else t) t
signalled-Like true sig t = (refl, refl, refl, refl, refl, refl)
signalled-Like false sig t = (refl, refl, refl, refl, refl, refl)

pub task_kill_session-AllLike : (task : ℕ) (k : Kernel) → AllLike (task_kill_session task k) k
unfolding task_kill_session
task_kill_session-AllLike task k = elim (Bool-cases ((k.tasks task).sid == (k.tasks task).pid)) [
  | inl e ↦
      rw (task_kill_session, e)
        (
          λ i.
              signalled-Like
                (ltb i task_nr
                  && k.table i
                  && not (i == task)
                  && (k.tasks task).sid == (k.tasks i).sid)
                sighup (k.tasks i),
          refl,
        )
  | inr e ↦ rw (task_kill_session, e) (λ i. (refl, refl, refl, refl, refl, refl), refl)
]

pub set-Like : (k : Kernel) (j : ℕ) (t : Task) → Like t (k.tasks j) → AllLike (set_task j t k) k
set-Like k j t h = (
  λ i. elim (ℕ_discrete i j) [
    | yes e ↦ let self : (i == j) ≡ true = ground (arith, e) in rw (self, e) h
    | no n ↦ rw (differ i j n) (refl, refl, refl, refl, refl, refl)
  ],
  refl,
)

-- Each task has its place as its pid.
abbrev pub IsNumbered : Kernel → Type 0
IsNumbered k = (i : ℕ) → (k.tasks i).pid ≡ i

pub task_tell_father-parent :
    (k : Kernel) (task p : ℕ)
    → IsNumbered k
    → (k.tasks task).ppid ≡ p
    → 0 < p
    → p < task_nr
    → k.table p ≡ true
    → task_tell_father task k ≡ some (set_task p (signalled sigchld (k.tasks p)) k)
unfolding task_tell_father
task_tell_father-parent k task p numbered father one l here =
    let some_father : ((k.tasks task).ppid == 0) ≡ false = ground (arith, father) in
    let found =
      first_place-only (λ i. k.table i && (k.tasks i).pid == (k.tasks task).ppid) task_nr 0 p
        (omega arith) (omega arith) (rw here (ground (arith, numbered p, father)))
        (λ j n. ground (arith, numbered j, father, n)) in
    rw (task_tell_father, some_father, found) refl

-- What is kept when children get another parent.
abbrev pub Given : Kernel → Kernel → ℕ → Type 0
Given s k me =
    ((i : ℕ) → (s.tasks i).pid ≡ (k.tasks i).pid)
    × ((i : ℕ) → (s.tasks i).state ≡ (k.tasks i).state)
    × ((i : ℕ) → (s.tasks i).status ≡ (k.tasks i).status)
    × ((i : ℕ) → (s.tasks i).waitpid ≡ (k.tasks i).waitpid)
    × ((i : ℕ) → (s.tasks i).timer ≡ (k.tasks i).timer)
    × ((s.tasks me).ppid ≡ (k.tasks me).ppid)
    × (s.table ≡ k.table)

if_same {ℓ} :
    {A : Type ℓ} (c : Bool) (f : Task → A) (t u : Task) → f t ≡ f u → f (if c then t else u) ≡ f u
if_same true f t u e = e
if_same false f t u e = refl

pub give_children-Given :
    (k : Kernel) (me : ℕ) → (k.tasks me).ppid ≢ (k.tasks me).pid → Given (give_children me k) k me
unfolding give_children
give_children-Given k me n =
    let c = λ (i : ℕ).
      not (ltb i 2) && ltb i task_nr && k.table i && (k.tasks i).ppid == (k.tasks me).pid in
    let t = λ (i : ℕ). record (k.tasks i) { ppid = (k.tasks me).ppid } in
    (
      λ i. if_same (c i) (λ x. x.pid) (t i) (k.tasks i) refl,
      λ i. if_same (c i) (λ x. x.state) (t i) (k.tasks i) refl,
      λ i. if_same (c i) (λ x. x.status) (t i) (k.tasks i) refl,
      λ i. if_same (c i) (λ x. x.waitpid) (t i) (k.tasks i) refl,
      λ i. if_same (c i) (λ x. x.timer) (t i) (k.tasks i) refl,
      if_same (c me) (λ x. x.ppid) (t me) (k.tasks me) refl,
      refl,
    )

pub wake_parent-run :
    (g : Kernel) (me p : ℕ)
    → (g.tasks me).ppid ≡ p
    → (g.tasks p).state ≡ task_waiting
    → matches (g.tasks p).waitpid (g.tasks me).pid ≡ true
    → wake_parent me g ≡ task_unblock p (pos 0) g
unfolding wake_parent
wake_parent-run g me p father waiting for_me =
    let cond : (same_state (g.tasks p).state task_waiting
          && matches (g.tasks p).waitpid (g.tasks me).pid)
        ≡ true =
      rw (waiting, for_me) refl in
    rw (wake_parent, father, cond, father) refl

pub leave-run :
    (k s : Kernel) (status : ℤ)
    → (k.tasks k.current).node ≡ none
    → (k.tasks k.current).state ≡ task_running
    → task_tell_father k.current (
        task_kill_session k.current (
          set_task k.current (record (k.tasks k.current) { state = task_died; status = status }) k))
      ≡ some s
    → leave status k ≡ wake_parent k.current (give_children k.current (timer_remove k.current s))
unfolding leave
leave-run k s status node running told =
    let cond : (is_none (k.tasks k.current).node
          && same_state (k.tasks k.current).state task_running)
        ≡ true =
      rw (node, running) refl in
    rw (leave, cond, told) refl

-- A dead child of the running task, of those that it waits for.
pub record Reapable (pid : ℤ) (w : Kernel) (j : ℕ) : Type 0 where
  pub listed : w.table j ≡ true
  pub father : (w.tasks j).ppid ≡ w.current
  pub matched : matches pid j ≡ true
  pub dead : (w.tasks j).state ≡ task_died

died-state : (st : TaskState) → same_state st task_died ≡ true → st ≡ task_died
died-state task_died h = refl
died-state task_init h = absurd (ground (arith, h))
died-state task_running h = absurd (ground (arith, h))
died-state task_ready h = absurd (ground (arith, h))
died-state task_blocked h = absurd (ground (arith, h))
died-state task_sleeping h = absurd (ground (arith, h))
died-state task_waiting h = absurd (ground (arith, h))

-- When there is such a child, one is reaped.
pub wait_round-child :
    (pid : ℤ) (w : Kernel) (c : ℕ)
    → IsNumbered w
    → 2 ≤ c
    → c < task_nr
    → Reapable pid w c
    → (j : ℕ) × (wait_round pid w
        ≡ some (reaps j (w.tasks j).status (record w { table = put w.table j false })))
      × Reapable pid w j
unfolding wait_round
wait_round-child pid w c numbered low high r =
    let test = λ (i : ℕ). is_child pid w i && same_state (w.tasks i).state task_died in
    let mine : test c ≡ true =
      rw (r.listed, r.father, numbered w.current, numbered c, r.matched, r.dead) (ground arith) in
    let (j, found, ok) = first_place-some test 62 2 c low (omega arith) mine in
    let k : matches pid (w.tasks j).pid ≡ true = ground (arith, ok) in
    (
      j,
      rw (wait_round, found, numbered j) refl,
      record {
        listed = ground (arith, ok);
        father = ground (arith, ok, numbered w.current);
        matched = rw (numbered j) at k;
        dead = died-state (w.tasks j).state (ground (arith, ok));
      },
    )
