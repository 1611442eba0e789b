-- ===== src/Kernel/Task/Expire.antt =====
-- `timer_wakeup`: the tasks whose time has come are woken, and only they.
use mathlib.Core.Option.{some-injective}
use onix.Base.{
  ℕ, zero, suc, ◌<◌, ◌≤◌, ◌≡◌, ◌≢◌, refl, sym, ap, ◌∙◌, true, false, Option, none, some, List, [],
  ◌∷◌, ◌++◌, ◌==◌, leb, arith, ℕ_discrete, subst, length,
}
use onix.Base.Int.{neg}
use onix.Libc.LinkedList.Chain.{Out, All, Distinct}
use onix.Libc.Nodes.{has, without}
use onix.Libc.Nodes.Laws.{All-map, All-map_others, without-Out}
use onix.Kernel.Task.{
  Kernel, Timer, task_running, same_state, task_unblock, timer_put, run_timer, activated, fire,
  timer_wakeup, timer_expires, etime,
}
use onix.Kernel.Task.Wake.{IsWoken, differ, task_unblock-IsWoken}

-- A timer that `task_block` has set: its task waits for it.
abbrev pub Waits : Kernel → ℕ → Type 0
Waits k t =
    ((k.timers t).handler ≡ none)
    × ((k.timers t).active ≡ false)
    × ((k.tasks (k.timers t).task).timer ≡ some t)
    × (same_state (k.tasks (k.timers t).task).state task_running ≡ false)

-- What a round leaves.
abbrev Fires : Kernel → ℕ → List ℕ → Kernel → Type 0
Fires k t ts s =
    (s.timer_list ≡ ts)
    × (s.timers ≡ (activated t k).timers)
    × (s.jiffies ≡ k.jiffies)
    × IsWoken (neg etime) (s.tasks (k.timers t).task)
    × ((i : ℕ) → i ≢ (k.timers t).task → s.tasks i ≡ k.tasks i)

run_timer-task_unblock :
    (run : ℕ → ℕ → Kernel → Option Kernel) (k : Kernel) (t : ℕ)
    → (k.timers t).handler ≡ none
    → run_timer run t k ≡ task_unblock (k.timers t).task (neg etime) k
unfolding run_timer
run_timer-task_unblock run k t e = rw (run_timer, e) refl

put_first :
    (r : Kernel) (t : ℕ) (ts : List ℕ)
    → r.timer_list ≡ t ∷ ts
    → Out t ts
    → timer_put t r ≡ some (record r { timer_list = ts })
unfolding timer_put has without
put_first r t ts here out =
    let self : (t == t) ≡ true = ground arith in
    rw (timer_put, here, self, without-Out t ts out) refl

fire_step :
    (run : ℕ → ℕ → Kernel → Option Kernel) (k r s : Kernel) (t : ℕ)
    → run_timer run t (activated t k) ≡ some r
    → timer_put t r ≡ some s
    → fire run t k ≡ some s
unfolding fire
fire_step run k r s t begun done = rw (fire, begun) done

fire-Fires :
    (run : ℕ → ℕ → Kernel → Option Kernel) (k : Kernel) (t : ℕ) (ts : List ℕ)
    → k.timer_list ≡ t ∷ ts
    → Out t ts
    → Waits k t
    → (s : Kernel) × (fire run t k ≡ some s) × Fires k t ts s
fire-Fires run k t ts list out w =
    let self : (t == t) ≡ true = ground arith in
    let a = activated t k in
    let o = (a.timers t).task in
    let at_o : o ≡ (k.timers t).task = rw self refl in
    let (r, ran, same, woken, other) =
      task_unblock-IsWoken a o t (neg etime) (rw (sym at_o) at (w.2)) (rw self refl)
        (rw (sym at_o) at (w.3)) in
    let start : run_timer run t a ≡ task_unblock o (neg etime) a =
      run_timer-task_unblock run a t (rw self (w.0)) in
    let here : r.timer_list ≡ t ∷ ts = same.0 ∙ list in
    let put_lem : timer_put t r ≡ some (record r { timer_list = ts }) = put_first r t ts here out in
    let begun : run_timer run t a ≡ some r = start ∙ ran in
    (
      record r { timer_list = ts },
      fire_step run k r (record r { timer_list = ts }) t begun put_lem,
      (
        refl,
        same.1,
        same.2,
        subst (λ x. IsWoken (neg etime) (r.tasks x)) at_o woken,
        λ i n. other i (λ e. n (e ∙ at_o)),
      ),
    )

-- A timer that waits goes on waiting when another one fires.
still-Waits :
    (k s : Kernel) (t u : ℕ) (ts : List ℕ)
    → Fires k t ts s
    → Waits k t
    → u ≢ t
    → Waits k u
    → Waits s u
still-Waits k s t u ts f w n h =
    let ne = differ u t n in
    let timer : s.timers u ≡ k.timers u = ap (λ (g : ℕ → Timer). g u) (f.1) ∙ rw ne refl in
    let apart : (k.timers u).task ≢ (k.timers t).task =
      λ e. n (some-injective u t (sym (h.2) ∙ rw e refl ∙ w.2)) in
    let task = f.4 (k.timers u).task apart in rw (timer, task) h

same_task : (k : Kernel) (t u : ℕ) → ((activated t k).timers u).task ≡ (k.timers u).task
same_task k t u = elim (ℕ_discrete u t) [
  | yes e ↦ let self : (u == t) ≡ true = ground (arith, e) in rw (self, e) refl
  | no n ↦ rw (differ u t n) refl
]

same_expires : (k : Kernel) (t u : ℕ) → ((activated t k).timers u).expires ≡ (k.timers u).expires
same_expires k t u = elim (ℕ_discrete u t) [
  | yes e ↦ let self : (u == t) ≡ true = ground (arith, e) in rw (self, e) refl
  | no n ↦ rw (differ u t n) refl
]

-- The expiry time of a list that begins so.
abbrev pub rest_expires : Kernel → List ℕ → ℕ
rest_expires k ts = timer_expires (record k { timer_list = ts })

rest_expires-same :
    (k s : Kernel) (ts : List ℕ)
    → ((u : ℕ) → (s.timers u).expires ≡ (k.timers u).expires)
    → rest_expires s ts ≡ rest_expires k ts
unfolding timer_expires
rest_expires-same k s [] h = refl
rest_expires-same k s (t ∷ ts) h = h t

expires_at : (k : Kernel) (ts : List ℕ) → k.timer_list ≡ ts → timer_expires k ≡ rest_expires k ts
unfolding timer_expires
expires_at k ts e = rw (timer_expires, e) refl

wakeup_stop :
    (run : ℕ → ℕ → Kernel → Option Kernel) (k : Kernel) (fuel : ℕ)
    → leb (timer_expires k) k.jiffies ≡ false
    → timer_wakeup run (suc fuel) k ≡ some k
unfolding timer_wakeup
wakeup_stop run k fuel e = rw (timer_wakeup, e) refl

wakeup_step :
    (run : ℕ → ℕ → Kernel → Option Kernel) (k s : Kernel) (t : ℕ) (ts : List ℕ) (fuel : ℕ)
    → leb (timer_expires k) k.jiffies ≡ true
    → k.timer_list ≡ t ∷ ts
    → fire run t k ≡ some s
    → timer_wakeup run (suc fuel) k ≡ timer_wakeup run fuel s
unfolding timer_wakeup
wakeup_step run k s t ts fuel due list fired = rw (timer_wakeup, due, list, fired) refl

-- The tasks of the timers are woken, and no other task changes.
abbrev pub Wakes : Kernel → List ℕ → List ℕ → Kernel → Type 0
Wakes k xs ys s =
    (s.timer_list ≡ ys)
    × All (λ t. IsWoken (neg etime) (s.tasks (k.timers t).task)) xs
    × ((i : ℕ) → All (λ t. (k.timers t).task ≢ i) xs → s.tasks i ≡ k.tasks i)

All-left {ℓ} : (P : ℕ → Type ℓ) (xs ys : List ℕ) → All P (xs ++ ys) → All P xs
All-left P [] ys h = tt
All-left P (x ∷ xs) ys h = (h.0, All-left P xs ys h.1)

-- A task without a timeout is not the task of a timer that waits.
woken_apart :
    (s : Kernel) (o : ℕ) (xs : List ℕ)
    → (s.tasks o).timer ≡ none
    → All (Waits s) xs
    → All (λ t. (s.timers t).task ≢ o) xs
woken_apart s o [] e h = tt
woken_apart s o (t ∷ xs) e h = (
  λ a. let w : none ≡ some t = sym e ∙ (rw a at (h.0.2)) in absurd (ground (arith, w)),
  woken_apart s o xs e h.1,
)

pub timer_wakeup-Wakes :
    (run : ℕ → ℕ → Kernel → Option Kernel) (xs ys : List ℕ) (k : Kernel) (fuel : ℕ)
    → k.timer_list ≡ xs ++ ys
    → All (Waits k) (xs ++ ys)
    → Distinct (xs ++ ys)
    → All (λ t. (k.timers t).expires ≤ k.jiffies) xs
    → k.jiffies < rest_expires k ys
    → length xs < fuel
    → (s : Kernel) × (timer_wakeup run fuel k ≡ some s) × Wakes k xs ys s
unfolding timer_expires
timer_wakeup-Wakes run xs ys k zero list w d due later l = absurd (omega arith)
timer_wakeup-Wakes run [] ys k (suc fuel) list w d due later l =
    let stop : leb (timer_expires k) k.jiffies ≡ false = ground (arith, expires_at k ys list) in
    (k, wakeup_stop run k fuel stop, (list, tt, λ i h. refl))
timer_wakeup-Wakes run (t ∷ xs) ys k (suc fuel) list w d due later l =
    let (s, fired, f) = fire-Fires run k t (xs ++ ys) list d.0 w.0 in
    let at_first : timer_expires k ≡ (k.timers t).expires = expires_at k (t ∷ xs ++ ys) list in
    let go : leb (timer_expires k) k.jiffies ≡ true = ground (arith, at_first, due.0) in
    let task_same = λ (u : ℕ). ap (λ (g : ℕ → Timer). (g u).task) (f.1) ∙ same_task k t u in
    let expires_same =
      λ (u : ℕ). ap (λ (g : ℕ → Timer). (g u).expires) (f.1) ∙ same_expires k t u in
    let waits =
      All-map_others (Waits k) (Waits s) t
        (λ u n h. still-Waits k s t u (xs ++ ys) f w.0 (λ e. n (sym e)) h) (xs ++ ys) d.0 w.1 in
    let dues =
      All-map (λ u. (k.timers u).expires ≤ k.jiffies) (λ u. (s.timers u).expires ≤ s.jiffies)
        (λ u h. omega (arith, h, expires_same u, f.2)) xs due.1 in
    let later_s : s.jiffies < rest_expires s ys =
      omega (arith, rest_expires-same k s ys expires_same, f.2, later) in
    let o = (k.timers t).task in
    let apart = woken_apart s o xs f.3.2 (All-left (Waits s) xs ys waits) in
    let (r, ran, wk) =
      timer_wakeup-Wakes run xs ys s fuel f.0 waits d.1 dues later_s (omega arith) in
    (
      r,
      wakeup_step run k s t (xs ++ ys) fuel go list fired ∙ ran,
      (
        wk.0,
        (
          subst (IsWoken (neg etime)) (sym (wk.2 o apart)) f.3,
          All-map _ _ (λ u h. rw (task_same u) at h) xs wk.1,
        ),
        λ i h. wk.2 i (All-map _ _ (λ u n. rw (task_same u) n) xs h.1) ∙ f.4 i (λ e. h.0 (sym e)),
      ),
    )
