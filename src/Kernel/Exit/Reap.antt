-- ===== src/Kernel/Exit/Reap.antt =====
-- A parent that waits for a child gets its pid and its status.
use onix.Base.{
  ◌⊎◌, inl, inr, ℕ, arith, ◌<◌, ◌≤◌, ◌≡◌, ◌≢◌, sym, ap, ap₂, ◌∙◌, Bool, true, false, none, some,
  ℕ_discrete,
}
use onix.Base.Int.{ℤ, pos}
use onix.Libc.Nodes.{put}
use onix.Libc.Nodes.Laws.{put_self, put_other}
use onix.Kernel.Task.{
  Kernel, Task, task_running, task_waiting, task_died, task_ready, same_state, set_task, task_nr,
  timer_remove,
}
use onix.Kernel.Task.Wake.{task_unblock-timeless, timer_remove-tasks}
use onix.Kernel.Signal.{sigchld}
use onix.Kernel.Exit.{
  task_kill_session, task_tell_father, give_children, matches, leave, reaps, wait_round, signalled,
}
use onix.Kernel.Exit.Steps.{
  Reapable, AllLike, Given, IsNumbered, trans-AllLike, signalled-Like, task_kill_session-AllLike,
  set-Like, task_tell_father-parent, give_children-Given, wake_parent-run, leave-run,
  wait_round-child,
}

module _ (k : Kernel) (parent : ℕ) (status : ℤ) (numbered : IsNumbered k) (low : 2 ≤ k.current)
    (high : k.current < task_nr) (here : k.table k.current ≡ true) (one : 0 < parent)
    (two : parent < task_nr) (there : k.table parent ≡ true) (apart : parent ≢ k.current)
    (father : (k.tasks k.current).ppid ≡ parent) (waiting : (k.tasks parent).state ≡ task_waiting)
    (for_me : matches (k.tasks parent).waitpid k.current ≡ true)
    (timeless : (k.tasks parent).timer ≡ none) where
  abbrev died : Kernel
  died = set_task k.current (record (k.tasks k.current) { state = task_died; status = status }) k

  abbrev told : Kernel
  told =
      let s = task_kill_session k.current died in
      set_task parent (signalled sigchld (s.tasks parent)) s

  abbrev given : Kernel
  given = give_children k.current (timer_remove k.current told)

  told-AllLike : AllLike told died
  told-AllLike =
      let s = task_kill_session k.current died in
      trans-AllLike told s died
        (set-Like s parent (signalled sigchld (s.tasks parent))
          (signalled-Like true sigchld (s.tasks parent)))
        (task_kill_session-AllLike k.current died)

  died_at :
      (died.tasks k.current) ≡ record (k.tasks k.current) { state = task_died; status = status }
  died_at =
      put_self k.tasks k.current (record (k.tasks k.current) { state = task_died; status = status })

  died_other : (i : ℕ) → i ≢ k.current → died.tasks i ≡ k.tasks i
  died_other i n =
      put_other k.tasks k.current i
        (record (k.tasks k.current) { state = task_died; status = status }) n

  died-IsNumbered : IsNumbered died
  died-IsNumbered i = elim (ℕ_discrete i k.current) [
    | yes e ↦ rw (e, died_at) (numbered k.current)
    | no n ↦ ap (λ (t : Task). t.pid) (died_other i n) ∙ numbered i
  ]

  told-run : task_tell_father k.current (task_kill_session k.current died) ≡ some told
  told-run =
      let s = task_kill_session k.current died in
      let like = task_kill_session-AllLike k.current died in
      task_tell_father-parent s k.current parent (λ i. (like.0 i).0 ∙ died-IsNumbered i)
        ((like.0 k.current).1 ∙ ap (λ (t : Task). t.ppid) died_at ∙ father) one two
        (ap (λ (f : ℕ → Bool). f parent) like.1 ∙ there)

  given-Given : Given given told k.current
  given-Given =
      let r = timer_remove k.current told in
      let kept = timer_remove-tasks told k.current in
      let same = λ (i : ℕ). ap (λ (f : ℕ → Task). f i) kept.0 in
      let me = told-AllLike.0 k.current in
      let pid : (r.tasks k.current).pid ≡ k.current =
        ap (λ (t : Task). t.pid) (same k.current) ∙ me.0 ∙ died-IsNumbered k.current in
      let ppid : (r.tasks k.current).ppid ≡ parent =
        ap (λ (t : Task). t.ppid) (same k.current)
        ∙ me.1
        ∙ ap (λ (t : Task). t.ppid) died_at
        ∙ father in
      let g = give_children-Given r k.current (λ e. apart (sym ppid ∙ e ∙ pid)) in
      (
        λ i. g.0 i ∙ ap (λ (t : Task). t.pid) (same i),
        λ i. g.1 i ∙ ap (λ (t : Task). t.state) (same i),
        λ i. g.2 i ∙ ap (λ (t : Task). t.status) (same i),
        λ i. g.3 i ∙ ap (λ (t : Task). t.waitpid) (same i),
        λ i. g.4 i ∙ ap (λ (t : Task). t.timer) (same i),
        g.5 ∙ ap (λ (t : Task). t.ppid) (same k.current),
        g.6 ∙ kept.1,
      )

  -- What `leave` leaves.
  abbrev Left : Kernel → Type 0
  Left s =
      ((s.tasks parent).state ≡ task_ready)
      × IsNumbered s
      × (s.table ≡ k.table)
      × ((s.tasks k.current).state ≡ task_died)
      × ((s.tasks k.current).status ≡ status)
      × ((s.tasks k.current).ppid ≡ parent)

  leave-Left :
      (k.tasks k.current).node ≡ none
      → (k.tasks k.current).state ≡ task_running
      → (s : Kernel) × (leave status k ≡ some s) × Left s
  leave-Left node running =
      let g = given in
      let pid = λ (i : ℕ). given-Given.0 i ∙ (told-AllLike.0 i).0 ∙ died-IsNumbered i in
      let state_p : (g.tasks parent).state ≡ task_waiting =
        given-Given.1 parent
        ∙ (told-AllLike.0 parent).2
        ∙ ap (λ (t : Task). t.state) (died_other parent apart)
        ∙ waiting in
      let waitpid_p : (g.tasks parent).waitpid ≡ (k.tasks parent).waitpid =
        given-Given.3 parent
        ∙ (told-AllLike.0 parent).4
        ∙ ap (λ (t : Task). t.waitpid) (died_other parent apart) in
      let timer_p : (g.tasks parent).timer ≡ none =
        given-Given.4 parent
        ∙ (told-AllLike.0 parent).5
        ∙ ap (λ (t : Task). t.timer) (died_other parent apart)
        ∙ timeless in
      let ppid_me : (g.tasks k.current).ppid ≡ parent =
        given-Given.5 ∙ (told-AllLike.0 k.current).1 ∙ ap (λ (t : Task). t.ppid) died_at ∙ father in
      let state_me : (g.tasks k.current).state ≡ task_died =
        given-Given.1 k.current
        ∙ (told-AllLike.0 k.current).2
        ∙ ap (λ (t : Task). t.state) died_at in
      let status_me : (g.tasks k.current).status ≡ status =
        given-Given.2 k.current
        ∙ (told-AllLike.0 k.current).3
        ∙ ap (λ (t : Task). t.status) died_at in
      let matched : matches (g.tasks parent).waitpid (g.tasks k.current).pid ≡ true =
        ap₂ matches waitpid_p (pid k.current) ∙ for_me in
      let (s, run, ready, same_pid, others, table) =
        task_unblock-timeless g parent (pos 0) timer_p
          (ap (λ x. same_state x task_running) state_p) in
      let me = others k.current (λ e. apart (sym e)) in
      (
        s,
        leave-run k told status node running told-run
            ∙ wake_parent-run g k.current parent ppid_me state_p matched
            ∙ run,
        (
          ready,
          λ i. elim (ℕ_discrete i parent) [
            | yes e ↦ rw e (same_pid ∙ pid parent)
            | no n ↦ ap (λ (t : Task). t.pid) (others i n) ∙ pid i
          ],
          table ∙ given-Given.6 ∙ told-AllLike.1,
          ap (λ (t : Task). t.state) me ∙ state_me,
          ap (λ (t : Task). t.status) me ∙ status_me,
          ap (λ (t : Task). t.ppid) me ∙ ppid_me,
        ),
      )

-- The pid of every task is its place. The running task, which is in no list and neither task 0 nor 1, a child
-- that its parent waits for without a timeout, exits; both are in the table: no `assert` fails, the
-- parent, which is found, becomes ready, and the child is dead with its status. When the parent then runs,
-- the next round of its `task_waitpid`, for what it waits for, takes a dead child of those out of the table,
-- and gives its pid and the status that it has. This is the task that has exited if the parent waits for its
-- pid; else it may be another dead child, and the task stays in the table.
pub wait_round-leave :
    (k : Kernel) (parent : ℕ) (status : ℤ)
    → IsNumbered k
    → 2 ≤ k.current
    → k.current < task_nr
    → k.table k.current ≡ true
    → 0 < parent
    → parent < task_nr
    → k.table parent ≡ true
    → parent ≢ k.current
    → (k.tasks k.current).ppid ≡ parent
    → (k.tasks parent).state ≡ task_waiting
    → matches (k.tasks parent).waitpid k.current ≡ true
    → (k.tasks parent).timer ≡ none
    → (k.tasks k.current).node ≡ none
    → (k.tasks k.current).state ≡ task_running
    → (s : Kernel) × (j : ℕ) × (leave status k ≡ some s)
      × ((s.tasks parent).state ≡ task_ready)
      × ((s.tasks k.current).state ≡ task_died)
      × ((s.tasks k.current).status ≡ status)
      × (wait_round (k.tasks parent).waitpid (record s { current = parent })
          ≡ some (
              reaps j
                (s.tasks j).status
                (record s { current = parent; table = put s.table j false })))
      × Reapable (k.tasks parent).waitpid (record s { current = parent }) j
      × ((j ≡ k.current)
          ⊎ (((k.tasks parent).waitpid ≢ pos k.current) × (put s.table j false k.current ≡ true)))
wait_round-leave k parent status numbered low high here one two there apart father waiting for_me
      timeless node running =
    let (s, run, h) =
      leave-Left k parent status numbered low high here one two there apart father waiting for_me
        timeless node running in
    let w = record s { current = parent } in
    let there_still : s.table k.current ≡ true = ap (λ (f : ℕ → Bool). f k.current) h.2 ∙ here in
    let mine : Reapable (k.tasks parent).waitpid w k.current = record {
      listed = there_still;
      father = h.5;
      matched = for_me;
      dead = h.3;
    } in
    let (j, reaped, good) =
      wait_round-child (k.tasks parent).waitpid w k.current h.1 low high mine in
    (
      s,
      j,
      run,
      h.0,
      h.3,
      h.4,
      reaped,
      good,
      elim (ℕ_discrete j k.current) [
        | yes e ↦ inl e
        | no n ↦ inr (
          λ e. n (let m = good.matched in ground (arith, rw e at m)),
          put_other s.table j k.current false (λ e. n (sym e)) ∙ there_still,
        )
      ],
    )
