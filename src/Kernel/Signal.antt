-- ===== src/Kernel/Signal.antt =====
-- src/kernel/signal.c, and `restorer` of lib/restorer.asm as its call of `ssetmask`. An `int` is its bit
-- pattern. The interrupt frame of the running task is an argument.
pub mod Masks
pub mod Deliver
pub mod Kill
mod Tests
use onix.Base.{
  ℕ, zero, suc, ◌+◌, ◌-◌, ◌*◌, ◌%◌, ◌^◌, Bool, true, false, not, Option, none, some, ◌==◌, ltb,
  if◌then◌else◌, ◌&&◌, ◌||◌, bit_and, bit_or,
}
use onix.Base.Bits.{complement}
use onix.Base.Int.{ℤ, pos, negsuc, neg}
use onix.Libc.Nodes.{put}
use onix.Kernel.Task.{
  Kernel, Task, Action, TaskState, task_waiting, task_sleeping, same_state, set_task, get_task,
  task_unblock, timer_add, timer_put,
}

-- `MINSIG`, `MAXSIG`, `SIGKILL`, `SIGCHLD`, `SIG_DFL`, `SIG_IGN`, the bits of `SIG_NOMASK` and
-- `SIG_ONESHOT`, `KERNEL_USER`, `EOF`, `-EPERM` and `EINTR`
abbrev pub minsig : ℕ
minsig = 1

abbrev pub maxsig : ℕ
maxsig = 31

abbrev pub sigkill : ℕ
sigkill = 9

abbrev pub sigchld : ℕ
sigchld = 17

abbrev pub sig_dfl : ℕ
sig_dfl = 0

abbrev pub sig_ign : ℕ
sig_ign = 1

abbrev pub sig_nomask : ℕ
sig_nomask = 2 ^ 30

abbrev pub sig_oneshot : ℕ
sig_oneshot = 2 ^ 31

abbrev pub kernel_user : ℕ
kernel_user = 0

abbrev pub sig_eof : ℕ
sig_eof = 2 ^ 32 - 100

abbrev pub not_permitted : ℕ
not_permitted = 2 ^ 32 - 1

abbrev pub eintr : ℕ
eintr = 4

-- `SIGMASK`
abbrev pub sigmask : ℕ → ℕ
sigmask sig = 2 ^ (sig - 1)

-- `sys_sgetmask`
pub sys_sgetmask : Kernel → ℕ
sys_sgetmask k = (k.tasks k.current).blocked

-- `sys_ssetmask`
pub sys_ssetmask : ℕ → Kernel → ℕ × Kernel
sys_ssetmask newmask k = elim (newmask == sig_eof) [
  | true ↦ (not_permitted, k)
  | false ↦ (
    (k.tasks k.current).blocked,
    set_task k.current
        (record (k.tasks k.current) { blocked = bit_and newmask (complement 32 (sigmask sigkill)) })
        k,
  )
]

abbrev pub refused : ℕ → Bool
refused sig = ltb sig minsig || ltb maxsig sig || sig == sigkill

abbrev pub set_action : ℕ → Action → Kernel → Kernel
set_action sig action k =
    set_task k.current
      (record (k.tasks k.current) { actions = put (k.tasks k.current).actions (sig - 1) action }) k

-- `sys_signal`
pub sys_signal : ℕ → ℕ → ℕ → Kernel → ℕ × Kernel
sys_signal sig handler restorer k = elim (refused sig) [
  | true ↦ (sig_eof, k)
  | false ↦ (
    handler,
    set_action sig
        (record {
          handler = handler;
          mask = 0;
          flags = bit_or sig_oneshot sig_nomask;
          restorer = restorer;
        })
        k,
  )
]

abbrev pub no_mask : Action → Bool
no_mask action = not (bit_and action.flags sig_nomask == 0)

-- `sys_sigaction`: its result, the old action, and the state.
pub sys_sigaction : ℕ → Action → Kernel → ℕ × Option Action × Kernel
sys_sigaction sig action k = elim (refused sig) [
  | true ↦ (sig_eof, none, k)
  | false ↦ (
    0,
    some ((k.tasks k.current).actions (sig - 1)),
    set_action sig
        (record action { mask = if no_mask action then 0 else bit_or action.mask (sigmask sig) }) k,
  )
]

-- The end of `sys_kill`, for a task that can be killed.
pub send : ℕ → ℕ → Kernel → Option Kernel
send task sig k =
    let t = k.tasks task in
    let s = set_task task (record t { signal = bit_or t.signal (sigmask sig) }) k in
    elim (same_state t.state task_waiting || same_state t.state task_sleeping) [
      | true ↦ task_unblock task (neg eintr) s
      | false ↦ some s
    ]

-- `sys_kill`
pub sys_kill : ℕ → ℕ → Kernel → Option (ℕ × Kernel)
sys_kill pid sig k = elim (ltb sig minsig || ltb maxsig sig) [
  | true ↦ some (sig_eof, k)
  | false ↦ elim (get_task pid k) [
    | none ↦ some (sig_eof, k)
    | some task ↦ elim ((k.tasks task).uid == kernel_user || (k.tasks task).pid == 1) [
      | true ↦ some (sig_eof, k)
      | false ↦ elim (send task sig k) [ none ↦ none | some s ↦ some (0, s) ]
    ]
  ]
]

-- The registers of `intr_frame_t` that `task_signal` reads or writes.
pub record IntrFrame : Type 0 where
  pub edx : ℕ
  pub ecx : ℕ
  pub eax : ℕ
  pub eip : ℕ
  pub eflags : ℕ
  pub esp : ℕ

-- `signal_frame_t`
pub record SignalFrame : Type 0 where
  pub restorer : ℕ
  pub sig : ℕ
  pub blocked : ℕ
  pub eax : ℕ
  pub ecx : ℕ
  pub edx : ℕ
  pub eflags : ℕ
  pub eip : ℕ

-- What `task_signal` does: it returns, calls `task_exit`, or lets the task go on in a handler, with a
-- frame on its stack.
pub data Delivery : Type 0 where
  returns : Kernel → Delivery
  exits : ℕ → Kernel → Delivery
  handles : SignalFrame → IntrFrame → Kernel → Delivery

-- The signals that are pending and not blocked.
abbrev pub pending : Task → ℕ
pending t = bit_and t.signal (complement 32 t.blocked)

-- The loop of `task_signal`, from a signal on.
pub first_signal : ℕ → ℕ → ℕ → ℕ
first_signal map zero sig = sig
first_signal map (suc n) sig =
    if bit_and map (sigmask sig) == 0 then first_signal map n (sig + 1) else sig

-- The frame on the user's stack.
abbrev pub signal_frame : ℕ → Action → Task → IntrFrame → SignalFrame
signal_frame sig action t iframe = record {
  restorer = action.restorer;
  sig = sig;
  blocked = if no_mask action then t.blocked else sig_eof;
  eax = iframe.eax;
  ecx = iframe.ecx;
  edx = iframe.edx;
  eflags = iframe.eflags;
  eip = iframe.eip;
}

-- The task in its handler.
abbrev pub in_handler : ℕ → Action → Task → Task
in_handler sig action t = record t {
  actions =
      if bit_and action.flags sig_oneshot == 0
      then t.actions
      else put t.actions (sig - 1) (record action { handler = sig_dfl });
  blocked = bit_or t.blocked action.mask;
}

-- `task_signal`
pub task_signal : IntrFrame → Kernel → Option Delivery
task_signal iframe k =
    let t = k.tasks k.current in
    let sig = first_signal (pending t) maxsig 1 in
    let taken = record t { signal = bit_and t.signal (complement 32 (sigmask sig)) } in
    let s = set_task k.current taken k in
    let action = t.actions (sig - 1) in
    elim (pending t == 0) [
      | true ↦ some (returns k)
      | false ↦ elim (t.uid == 0) [
        | true ↦ none
        | false ↦
            elim (action.handler == sig_ign || (action.handler == sig_dfl && sig == sigchld)) [
              | true ↦ some (returns s)
              | false ↦ elim (action.handler == sig_dfl) [
                | true ↦ some (exits (sigmask sig) s)
                | false ↦ some (
                    handles (signal_frame sig action taken iframe)
                      (record iframe {
                        esp = (iframe.esp + 2 ^ 32 - 32) % 2 ^ 32;
                        eip = action.handler;
                      })
                      (set_task k.current (in_handler sig action taken) k))
              ]
            ]
      ]
    ]

-- `restorer`
abbrev pub restore : SignalFrame → Kernel → Kernel
restore frame k = (sys_ssetmask frame.blocked k).1

-- `SIGALRM`, and the handler `task_alarm` as a number.
abbrev pub sigalrm : ℕ
sigalrm = 14

abbrev pub alarm_handler : ℕ
alarm_handler = 1

-- `task_alarm`
pub task_alarm : ℕ → Kernel → Option Kernel
task_alarm t k =
    let o = (k.timers t).task in
    elim (sys_kill (k.tasks o).pid sigalrm (set_task o (record (k.tasks o) { alarm = none }) k)) [
      | none ↦ none
      | some r ↦ some r.1
    ]

-- `sys_alarm`; its result is what happens to be in the register, since it has no `return`.
pub sys_alarm : ℕ → Kernel → Option Kernel
sys_alarm sec k =
    let start = λ (s : Kernel).
      let a = timer_add (sec * 1000 % 2 ^ 32) (some alarm_handler) s in
      set_task s.current (record (a.1.tasks s.current) { alarm = some a.0 }) a.1 in
    elim (k.tasks k.current).alarm [
      | none ↦ some (start k)
      | some t ↦ elim (timer_put t k) [ none ↦ none | some s ↦ some (start s) ]
    ]
