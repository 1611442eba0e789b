-- ===== src/Kernel/Mutex/System.antt =====
-- Tasks that use one lock, in any order of their steps.
pub mod Inv
pub mod Preserve
pub mod Safe
mod Tests
use onix.Base.{
  ℕ, zero, suc, ◌+◌, ◌%◌, ◌^◌, ◌<◌, ◌≡◌, Bool, true, false, Option, none, some, ◌==◌, if◌then◌else◌,
  ◌>>=◌, ◌>>◌, assert,
}
use onix.Kernel.Mutex.{
  Mutex, mutex_lock, mutex_unlock, onix_magic, Lock, lock_init, holds, acquire_again, acquire_first,
  release,
}

-- Where a task is: outside the lock, about to test the mutex, blocked in `mutex_lock`, behind it,
-- inside the lock, or in `lock_release` before `mutex_unlock`.
pub data Place : Type 0 where
  outside : Place
  entering : Place
  blocked : Place
  behind : Place
  holding : Place
  leaving : Place

pub record System : Type 0 where
  pub lock : Lock
  pub place : ℕ → Place
  pub magic : ℕ → ℕ

abbrev pub moved : (ℕ → Place) → ℕ → Place → ℕ → Place
moved place t p u = if u == t then p else place u

abbrev pub move : ℕ → Place → System → System
move t p s = record s { place = moved s.place t p }

abbrev pub locked : Mutex → System → System
locked m s = record s { lock = record s.lock { mutex = m } }

-- Every task has the `magic` that `task_create` gives it.
pub start : System
start = record { lock = lock_init; place = λ t. outside; magic = λ t. onix_magic }

-- `lock_acquire` of a task up to `mutex_lock`.
pub acquire : ℕ → System → Option System
acquire t s = elim (holds s.lock.holder t) [
  | true ↦ some (record s { lock = acquire_again s.lock })
  | false ↦ some (move t entering s)
]

-- `mutex_lock` of `lock_acquire`.
pub enter : ℕ → System → Option System
enter t s = elim (mutex_lock t s.lock.mutex) [
  | none ↦ none
  | some r ↦ elim r.0 [
    | true ↦ some (move t behind (locked r.1 s))
    | false ↦ some (move t blocked (locked r.1 s))
  ]
]

-- The rest of `lock_acquire`.
pub take : ℕ → System → Option System
take t s = elim (acquire_first t s.lock) [
  | none ↦ none
  | some lock ↦ some (move t holding (record s { lock = lock }))
]

-- `lock_release` up to `mutex_unlock`.
pub give : ℕ → System → Option System
give t s = elim (release t s.lock) [
  | none ↦ none
  | some r ↦ elim r.0 [
    | true ↦ some (move t leaving (record s { lock = r.1 }))
    | false ↦ some (record s { lock = r.1 })
  ]
]

-- `mutex_unlock` of `lock_release`, which wakes a task that waits.
pub leave : ℕ → System → Option System
leave t s = elim (mutex_unlock s.magic s.lock.mutex) [
  | none ↦ none
  | some r ↦ elim r.0 [
    | none ↦ some (move t outside (locked r.1 s))
    | some w ↦ some (move w entering (move t outside (locked r.1 s)))
  ]
]

-- A step of a task from where it is, with its result. A lock is not taken 2 ^ 32 times by one task.
pub data Step (s : System) : Option System → Type 0 where
  acquires : (t : ℕ) → s.place t ≡ outside → Step s (acquire t s)
  acquires_again : (t : ℕ) → s.place t ≡ holding → s.lock.repeat + 1 < 2 ^ 32 → Step s (acquire t s)
  enters : (t : ℕ) → s.place t ≡ entering → Step s (enter t s)
  takes : (t : ℕ) → s.place t ≡ behind → Step s (take t s)
  gives : (t : ℕ) → s.place t ≡ holding → Step s (give t s)
  leaves : (t : ℕ) → s.place t ≡ leaving → Step s (leave t s)

pub data Reachable : System → Type 0 where
  starts : Reachable start
  steps : (s s' : System) → Reachable s → Step s (some s') → Reachable s'
