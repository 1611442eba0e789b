-- ===== src/Kernel/Mutex/System/Safe.antt =====
-- What the lock promises to its tasks, in every order of their steps.
use onix.Base.{
  ℕ, ◌≡◌, ◌∙◌, refl, sym, subst, inl, inr, true, false, Option, none, some, List, ◌∷◌, arith,
}
use onix.Kernel.Mutex.System.{System, entering, Step, Reachable, starts, steps}
use onix.Kernel.Mutex.System.Inv.{inside, Inv}
use onix.Kernel.Mutex.System.Preserve.{start-Inv, Step-Inv}

some_inj : (s s' : System) → some s ≡ some s' → s ≡ s'
some_inj s s' e = ground arith

Reachable-Inv : (s : System) → Reachable s → (owner : Option ℕ) × Inv s owner
Reachable-Inv _ starts = (none, start-Inv)
Reachable-Inv _ (steps s s' r step) =
    let v = Reachable-Inv s r in
    let k = Step-Inv s v.0 (some s') v.1 step in
    (k.1, subst (λ x. Inv x k.1) (sym (some_inj s' k.0 k.2)) k.3)

-- From every state that tasks can reach, all with the `magic` of `task_create` and with no lock taken
-- 2 ^ 32 times by its holder, no step of theirs fails an `assert` of mutex.c.
pub Step-some :
    (s : System) (r : Option System) → Reachable s → Step s r → (s' : System) × (r ≡ some s')
Step-some s r reach step =
    let v = Reachable-Inv s reach in let k = Step-Inv s v.0 r v.1 step in (k.0, k.2)

-- In every state that tasks can reach, two tasks that are between their `mutex_lock` and their
-- `mutex_unlock` are the same one, and the mutex is taken.
pub inside_unique :
    (s : System) (t u : ℕ)
    → Reachable s
    → inside (s.place t) ≡ true
    → inside (s.place u) ≡ true
    → (s.lock.mutex.value ≡ true) × (t ≡ u)
inside_unique s t u reach i j =
    let v = Reachable-Inv s reach in
    let a = (v.1.owns t).0 i in
    let b = (v.1.owns u).0 j in (v.1.value ∙ rw a refl, ground (arith, a, b))

-- In every state that tasks can reach, if the mutex is free while a task waits for it, then some task
-- is about to test it: no wake-up is lost.
pub waiters-entering :
    (s : System) (w : ℕ) (ws : List ℕ)
    → Reachable s
    → s.lock.mutex.value ≡ false
    → s.lock.mutex.waiters ≡ w ∷ ws
    → (t : ℕ) × (s.place t ≡ entering)
waiters-entering s w ws reach free e =
    let v = Reachable-Inv s reach in
    elim v.1.awake [
      | inl busy ↦ absurd (ground (arith, busy))
      | inr (inl nobody) ↦ absurd (ground (arith, nobody))
      | inr (inr awake) ↦ awake
    ]
