-- ===== src/Kernel/Mutex.antt =====
-- src/kernel/mutex.c: mutexes and re-entrant locks. Interrupts are off inside `mutex_lock` and
-- `mutex_unlock`, so other tasks run only where these block or yield, and between the statements of
-- `lock_acquire` and `lock_release`. System has the tasks' steps.
pub mod System
use onix.Base.{
  ℕ, zero, suc, ◌+◌, ◌-◌, ◌%◌, ◌^◌, Bool, true, false, not, Option, none, some, List, [], ◌∷◌, ◌++◌,
  ◌==◌, ltb, if◌then◌else◌, ◌>>=◌, ◌>>◌, assert,
}

-- `mutex_t`. `waiters` has the tasks in the order in which they are woken: from the list's tail on.
pub record Mutex : Type 0 where
  pub value : Bool
  pub waiters : List ℕ

-- `mutex_init`
pub mutex_init : Mutex
mutex_init = record { value = false; waiters = [] }

-- One test of the loop of `mutex_lock` by a task: whether the task holds the mutex now. If not, it
-- is blocked; `task_block` has put it at the head of the list, and it tests again when it is woken.
pub mutex_lock : ℕ → Mutex → Option (Bool × Mutex)
mutex_lock task mutex = elim mutex.value [
  | true ↦ some (false, record mutex { waiters = mutex.waiters ++ (task ∷ []) })
  | false ↦ some (true, record mutex { value = true })
]

-- `ONIX_MAGIC`
abbrev pub onix_magic : ℕ
onix_magic = 539099653

-- `mutex_unlock`, with the `magic` of the tasks, and the task that it wakes.
pub mutex_unlock : (ℕ → ℕ) → Mutex → Option (Option ℕ × Mutex)
mutex_unlock magic mutex = do
  assert mutex.value
  elim mutex.waiters [
    | [] ↦ some (none, record { value = false; waiters = [] })
    | task ∷ ws ↦ do
      assert (magic task == onix_magic)
      some (some task, record { value = false; waiters = ws })
  ]

-- `lock_t`
pub record Lock : Type 0 where
  pub holder : Option ℕ
  pub mutex : Mutex
  pub repeat : ℕ

-- `lock_init`
pub lock_init : Lock
lock_init = record { holder = none; mutex = mutex_init; repeat = 0 }

-- `lock->holder == current`
pub holds : Option ℕ → ℕ → Bool
holds none task = false
holds (some t) task = t == task

-- `lock_acquire` of the holder.
pub acquire_again : Lock → Lock
acquire_again lock = record lock { repeat = (lock.repeat + 1) % 2 ^ 32 }

-- `lock_acquire` after its `mutex_lock`.
pub acquire_first : ℕ → Lock → Option Lock
acquire_first task lock = do
  assert (lock.repeat == 0)
  some (record lock { holder = some task; repeat = 1 })

-- `lock_release` up to its `mutex_unlock`, with whether it comes to that.
pub release : ℕ → Lock → Option (Bool × Lock)
release task lock = do
  assert (holds lock.holder task)
  elim (ltb 1 lock.repeat) [
    | true ↦ some (false, record lock { repeat = lock.repeat - 1 })
    | false ↦ do assert (lock.repeat == 1); some (true, record lock { holder = none; repeat = 0 })
  ]
