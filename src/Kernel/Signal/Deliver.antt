-- ===== src/Kernel/Signal/Deliver.antt =====
-- Which signal `task_signal` delivers, and what `sys_kill` and `sys_ssetmask` do.
use onix.Base.{
  ℕ, ◌+◌, ◌-◌, ◌%◌, ◌^◌, ◌≤◌, ◌<◌, ◌≡◌, ◌≢◌, refl, ap, true, false, some, ◌==◌, if◌then◌else◌, ◌&&◌,
  ◌||◌, arith, ◌⊎◌, inl, inr, Bool-cases, bit_and, bit_or, ℕ_discrete, dec_lt,
}
use onix.Base.Bits.{bit, complement, bit-zero}
use onix.Libc.Nodes.Laws.{put_self}
use onix.Kernel.Task.{Kernel, Task, Action, set_task}
use onix.Kernel.Signal.{
  sigmask, maxsig, first_signal, sys_ssetmask, sig_eof, sigkill, IntrFrame, SignalFrame, Delivery,
  returns, exits, handles, pending, task_signal, signal_frame, in_handler, no_mask, sig_ign,
  sig_dfl, sigchld, restore,
}
use onix.Kernel.Signal.Masks.{bit-cleared, first_signal-IsFirst}

-- The state when `task_signal` has done its work.
abbrev pub left_by : Delivery → Kernel
left_by (returns k) = k
left_by (exits status k) = k
left_by (handles frame iframe k) = k

-- The pending signals of the running task after a delivery.
abbrev pub signals : Delivery → ℕ
signals d = ((left_by d).tasks (left_by d).current).signal

-- What becomes of a signal with an action: `task_signal` returns when it is ignored, or is SIGCHLD with
-- the default action; it calls `task_exit` with the signal's bit for another default action; and it enters
-- the handler of the action else, with the signal and the restorer of the action in the frame.
pub data ActsOn (sig : ℕ) (a : Action) : Delivery → Type 0 where
  quiet :
      {k : Kernel}
      → (a.handler ≡ sig_ign) ⊎ ((a.handler ≡ sig_dfl) × (sig ≡ sigchld))
      → ActsOn sig a (returns k)
  fatal : {k : Kernel} → a.handler ≡ sig_dfl → sig ≢ sigchld → ActsOn sig a (exits (sigmask sig) k)
  caught :
      {frame : SignalFrame} {user : IntrFrame} {k : Kernel}
      → a.handler ≢ sig_ign
      → a.handler ≢ sig_dfl
      → frame.sig ≡ sig
      → frame.restorer ≡ a.restorer
      → user.eip ≡ a.handler
      → ActsOn sig a (handles frame user k)

module _ (iframe : IntrFrame) (k : Kernel) where
  abbrev me : Task
  me = k.tasks k.current

  abbrev next_sig : ℕ
  next_sig = first_signal (pending me) maxsig 1

  abbrev taken : Task
  taken = record me { signal = bit_and me.signal (complement 32 (sigmask next_sig)) }

  abbrev action : Action
  action = me.actions (next_sig - 1)

  abbrev handled : Delivery
  handled =
      handles (signal_frame next_sig action taken iframe)
        (record iframe { esp = (iframe.esp + 2 ^ 32 - 32) % 2 ^ 32; eip = action.handler })
        (set_task k.current (in_handler next_sig action taken) k)

  -- Whatever the action of the signal is, the signal is no longer pending.
  task_signal-signals :
      (pending me == 0) ≡ false
      → (me.uid == 0) ≡ false
      → (d : Delivery) × (task_signal iframe k ≡ some d)
        × ActsOn next_sig action d
        × (signals d ≡ bit_and me.signal (complement 32 (sigmask next_sig)))
  unfolding task_signal
  task_signal-signals some_pending user =
      let s = set_task k.current taken k in
      elim (Bool-cases
        (action.handler == sig_ign || (action.handler == sig_dfl && next_sig == sigchld))) [
          | inl e ↦ (
            returns s,
            rw (task_signal, some_pending, user, e) refl,
            quiet (elim (Bool-cases (action.handler == sig_ign)) [
              | inl g ↦ inl (ground (arith, g))
              | inr g ↦ inr (ground (arith, e, g))
            ]),
            ap (λ (t : Task). t.signal) (put_self k.tasks k.current taken),
          )
          | inr e ↦ elim (Bool-cases (action.handler == sig_dfl)) [
            | inl f ↦ (
              exits (sigmask next_sig) s,
              rw (task_signal, some_pending, user, e, f) refl,
              fatal (ground (arith, f)) (ground (arith, e, f)),
              ap (λ (t : Task). t.signal) (put_self k.tasks k.current taken),
            )
            | inr f ↦ (
              handled,
              rw (task_signal, some_pending, user, e, f) refl,
              caught (ground (arith, e)) (ground (arith, f)) refl refl refl,
              ap (λ (t : Task). t.signal)
                  (put_self k.tasks k.current (in_handler next_sig action taken)),
            )
          ]
        ]

-- When a signal is pending and not blocked, `task_signal` of a task of a user fails no `assert` and takes
-- one signal: it is pending and not blocked, every other such signal is higher, and its own action is
-- carried out. Afterwards this signal is not pending, and each other one is pending if it was before.
pub task_signal-lowest :
    (iframe : IntrFrame) (k : Kernel) (j : ℕ)
    → bit (pending (k.tasks k.current)) j ≡ 1
    → j < 31
    → 0 < (k.tasks k.current).uid
    → (d : Delivery) × (sig : ℕ) × (task_signal iframe k ≡ some d)
      × (1 ≤ sig)
      × (bit (pending (k.tasks k.current)) (sig - 1) ≡ 1)
      × ActsOn sig ((k.tasks k.current).actions (sig - 1)) d
      × ((i : ℕ)
          → i < 31
          → ((sig ≤ i + 1) ⊎ (bit (pending (k.tasks k.current)) i ≡ 0))
            × (bit (signals d) i ≡ (if sig - 1 == i then 0 else bit (k.tasks k.current).signal i)))
task_signal-lowest iframe k j set l user =
    let map = pending (k.tasks k.current) in
    let found = first_signal-IsFirst map maxsig 1 j (omega arith) (omega arith) (omega arith) set in
    let sig = first_signal map maxsig 1 in
    let some_pending : (map == 0) ≡ false = elim (ℕ_discrete map 0) [
      | yes z ↦ absurd (let q = ap (λ m. bit m j) z in omega (arith, q, bit-zero j, set))
      | no z ↦ ground (arith, z)
    ] in
    let (d, run, acts, after) = task_signal-signals iframe k some_pending (ground arith) in
    (
      d,
      sig,
      run,
      found.0.not_before,
      found.0.there,
      acts,
      λ i li. (
        elim (dec_lt (i + 1) sig) [
          | yes p ↦ inr (found.0.clear i (omega arith) p)
          | no p ↦ inl (omega arith)
        ],
        rw after (
            bit-cleared (sig - 1) i (k.tasks k.current).signal (omega (arith, found.1))
              (omega arith)),
      ),
    )

-- `sys_ssetmask` answers with the old mask, and blocks the signals of the new one except `SIGKILL`.
pub sys_ssetmask-bits :
    (k : Kernel) (newmask i : ℕ)
    → newmask ≢ sig_eof
    → i < 32
    → ((sys_ssetmask newmask k).0 ≡ (k.tasks k.current).blocked)
      × (bit (((sys_ssetmask newmask k).1).tasks k.current).blocked i
          ≡ (if sigkill - 1 == i then 0 else bit newmask i))
unfolding sys_ssetmask
sys_ssetmask-bits k newmask i n l =
    let no_eof : (newmask == sig_eof) ≡ false = ground (arith, n) in
    let self : (k.current == k.current) ≡ true = ground arith in
    (
      rw (sys_ssetmask, no_eof) refl,
      rw (sys_ssetmask, no_eof, self) (bit-cleared 8 i newmask (omega arith) l),
    )

-- The action of the signal that `task_signal` takes.
abbrev pub next_action : Kernel → Action
next_action k =
    (k.tasks k.current).actions (first_signal (pending (k.tasks k.current)) maxsig 1 - 1)

-- When the signal has a handler, and its action lacks `SIG_NOMASK`, `task_signal` blocks the signals of
-- the action's mask and enters the handler, and `restorer` unblocks none of them when the handler
-- returns: the mask stays as it was in the handler.
pub restore-handles :
    (iframe : IntrFrame) (k : Kernel)
    → 0 < pending (k.tasks k.current)
    → 0 < (k.tasks k.current).uid
    → sig_ign < (next_action k).handler
    → no_mask (next_action k) ≡ false
    → (frame : SignalFrame) × (user : IntrFrame) × (s : Kernel) × (task_signal iframe k
        ≡ some (handles frame user s))
      × (user.eip ≡ (next_action k).handler)
      × ((s.tasks s.current).blocked ≡ bit_or (k.tasks k.current).blocked (next_action k).mask)
      × (restore frame s ≡ s)
unfolding sys_ssetmask task_signal
restore-handles iframe k some_pending user handler masked =
    let some_bit : (pending (k.tasks k.current) == 0) ≡ false = ground arith in
    let of_user : ((k.tasks k.current).uid == 0) ≡ false = ground arith in
    let h_ign : ((next_action k).handler == sig_ign) ≡ false = ground arith in
    let h_dfl : ((next_action k).handler == sig_dfl) ≡ false = ground arith in
    let taken_here = taken iframe k in
    let sig = next_sig iframe k in
    (
      signal_frame sig (next_action k) taken_here iframe,
      record iframe { esp = (iframe.esp + 2 ^ 32 - 32) % 2 ^ 32; eip = (next_action k).handler },
      set_task k.current (in_handler sig (next_action k) taken_here) k,
      rw (task_signal, some_bit, of_user, h_ign, h_dfl, h_dfl) refl,
      refl,
      ap (λ (t : Task). t.blocked)
          (put_self k.tasks k.current (in_handler sig (next_action k) taken_here)),
      rw masked refl,
    )
