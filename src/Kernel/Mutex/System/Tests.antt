-- ===== src/Kernel/Mutex/System/Tests.antt =====
-- Three tasks at one lock: the first takes it, the others wait, and the first gives it up.
use onix.Base.{ℕ, ◌≡◌, refl, true, false, Option, none, some, [], ◌∷◌, subst}
use onix.Kernel.Mutex.{
  mutex_init, mutex_lock, mutex_unlock, lock_init, holds, acquire_first, release,
}
use onix.Kernel.Mutex.System.{
  System, outside, entering, blocked, behind, holding, leaving, move, locked, start, acquire, enter,
  take, give, leave, Step, acquires, enters, takes, gives, leaves, Reachable, starts, steps,
}
use onix.Kernel.Mutex.System.Safe.{Step-some, inside_unique, waiters-entering}

then-Step :
    (s s' : System) (r : Option System) → Reachable s → Step s r → r ≡ some s' → Reachable s'
then-Step s s' r reach step e = steps s s' reach (subst (λ x. Step s x) e step)

abbrev all_entering : System
all_entering = move 2 entering (move 1 entering (move 0 entering start))

abbrev first_in : System
first_in = move 0 behind (locked (record { value = true; waiters = [] }) all_entering)

abbrev others_wait : System
others_wait = move 2 blocked (
    locked (record { value = true; waiters = 1 ∷ 2 ∷ [] })
      (move 1 blocked (locked (record { value = true; waiters = 1 ∷ [] }) first_in)))

abbrev first_holds : System
first_holds =
    move 0 holding
      (record others_wait { lock = record others_wait.lock { holder = some 0; repeat = 1 } })

abbrev first_leaving : System
first_leaving =
    move 0 leaving
      (record first_holds { lock = record first_holds.lock { holder = none; repeat = 0 } })

abbrev second_woken : System
second_woken =
    move 1 entering
      (move 0 outside (locked (record { value = false; waiters = 2 ∷ [] }) first_leaving))

all_entering-Reachable : Reachable all_entering
unfolding start acquire lock_init mutex_init holds
all_entering-Reachable =
    then-Step (move 1 entering (move 0 entering start)) all_entering _
      (then-Step (move 0 entering start) (move 1 entering (move 0 entering start)) _
        (then-Step start (move 0 entering start) _ starts (acquires 0 refl) refl) (acquires 1 refl)
        refl)
      (acquires 2 refl) refl

others_wait-Reachable : Reachable others_wait
unfolding start enter lock_init mutex_init mutex_lock
others_wait-Reachable =
    let one = move 1 blocked (locked (record { value = true; waiters = 1 ∷ [] }) first_in) in
    then-Step one others_wait _
      (then-Step first_in one _
        (then-Step all_entering first_in _ all_entering-Reachable (enters 0 refl) refl)
        (enters 1 refl) refl)
      (enters 2 refl) refl

first_holds-Reachable : Reachable first_holds
unfolding start take lock_init mutex_init acquire_first
first_holds-Reachable =
    then-Step others_wait first_holds _ others_wait-Reachable (takes 0 refl) refl

second_woken-Reachable : Reachable second_woken
unfolding start give leave lock_init mutex_init release mutex_unlock holds
second_woken-Reachable =
    then-Step first_leaving second_woken _
      (then-Step first_holds first_leaving _ first_holds-Reachable (gives 0 refl) refl)
      (leaves 0 refl) refl

Step-some_example : (s' : System) × (give 0 first_holds ≡ some s')
Step-some_example = Step-some first_holds (give 0 first_holds) first_holds-Reachable (gives 0 refl)

inside_unique_example : (first_holds.lock.mutex.value ≡ true) × (◌≡◌ {A = ℕ} 0 0)
inside_unique_example = inside_unique first_holds 0 0 first_holds-Reachable refl refl

waiters-entering_example : (t : ℕ) × (second_woken.place t ≡ entering)
waiters-entering_example = waiters-entering second_woken 2 [] second_woken-Reachable refl refl
