-- ===== src/Kernel/Task/Search.antt =====
-- `task_search`: it finds a task of the state if there is one besides the running task.
use onix.Base.{
  sym, not, Bool, false, ℕ_discrete, ℕ, zero, suc, ◌+◌, ◌≤◌, ◌<◌, ◌≡◌, ◌≢◌, refl, true, Option,
  none, some, ◌&&◌, if◌then◌else◌, arith, ◌⊎◌, inl, inr, Bool-cases, Option-cases,
}
use onix.Libc.Nodes.{put}
use onix.Kernel.Task.{
  Kernel, TaskState, task_ready, task_nr, is_candidate, better, search_loop, task_search,
  first_place, get_free_task, no_task,
}

-- The best task so far, if there is one, is a candidate.
abbrev IsBest : Kernel → TaskState → Option ℕ → Type 0
IsBest k state none = Unit
IsBest k state (some i) = is_candidate k state i ≡ true

module _ (k : Kernel) (state : TaskState) where
  next_best : ℕ → Option ℕ → Option ℕ
  next_best i best = if is_candidate k state i && better k i best then some i else best

  next_best-IsBest :
      (i : ℕ) (best : Option ℕ) → IsBest k state best → IsBest k state (next_best i best)
  unfolding next_best
  next_best-IsBest i best h = elim (Bool-cases (is_candidate k state i)) [
    | inr e ↦ rw e h
    | inl e ↦ elim (Bool-cases (better k i best)) [ inl y ↦ rw (e, y) e | inr n ↦ rw (e, n) h ]
  ]

  search_loop-IsBest :
      (n i : ℕ) (best : Option ℕ)
      → IsBest k state best
      → IsBest k state (search_loop k state n i best)
  unfolding search_loop next_best
  search_loop-IsBest zero i best h = h
  search_loop-IsBest (suc n) i best h =
      search_loop-IsBest n (i + 1) (next_best i best) (next_best-IsBest i best h)

  search_loop-some : (n i b : ℕ) → (r : ℕ) × (search_loop k state n i (some b) ≡ some r)
  unfolding search_loop next_best
  search_loop-some zero i b = (b, refl)
  search_loop-some (suc n) i b = elim (Bool-cases (is_candidate k state i && better k i (some b))) [
    | inl e ↦ let r = search_loop-some n (i + 1) i in (r.0, rw (search_loop, e) (r.1))
    | inr e ↦ let r = search_loop-some n (i + 1) b in (r.0, rw (search_loop, e) (r.1))
  ]

  -- A candidate that the loop meets makes it find one.
  search_loop-candidate :
      (n i c : ℕ) (best : Option ℕ)
      → is_candidate k state c ≡ true
      → i ≤ c
      → c < i + n
      → (r : ℕ) × (search_loop k state n i best ≡ some r)
  unfolding search_loop better
  search_loop-candidate n i c (some b) h l u = search_loop-some n i b
  search_loop-candidate zero i c none h l u = absurd (omega arith)
  search_loop-candidate (suc n) i c none h l u = elim (Bool-cases (is_candidate k state i)) [
    | inl e ↦ let r = search_loop-some n (i + 1) i in (r.0, rw (search_loop, e) (r.1))
    | inr e ↦
        let ne : i ≢ c = λ s. absurd (ground (arith, rw s at e, h)) in
        let r = search_loop-candidate n (i + 1) c none h (omega (arith, ne)) (omega arith) in
        (r.0, rw (search_loop, e) (r.1))
  ]

  -- The result of a search is a candidate.
  pub search_loop-is_candidate :
      (r : ℕ) → search_loop k state task_nr 0 none ≡ some r → is_candidate k state r ≡ true
  search_loop-is_candidate r e = let h = search_loop-IsBest task_nr 0 none tt in rw e at h

-- When some task of the table other than the running one is in the state, `task_search` finds such a
-- task.
pub task_search-candidate :
    (k : Kernel) (state : TaskState) (c : ℕ)
    → c < task_nr
    → is_candidate k state c ≡ true
    → (r : ℕ) × (task_search state k ≡ some r) × (is_candidate k state r ≡ true)
unfolding task_search
task_search-candidate k state c l h =
    let f = search_loop-candidate k state task_nr 0 c none h (omega arith) (omega arith) in
    (f.0, rw (task_search, f.1) refl, search_loop-is_candidate k state f.0 f.1)

-- A search for a ready task ends with a ready task or with the idle task.
pub task_search-ready :
    (k : Kernel)
    → (r : ℕ) × (task_search task_ready k ≡ some r)
      × ((is_candidate k task_ready r ≡ true) ⊎ (r ≡ k.idle_task))
unfolding task_search
task_search-ready k = elim (Option-cases (search_loop k task_ready task_nr 0 none)) [
  | inl e ↦ (k.idle_task, rw (task_search, e) refl, inr refl)
  | inr (r, e) ↦ (r, rw (task_search, e) refl, inl (search_loop-is_candidate k task_ready r e))
]

-- The only place that passes a test is the first one.
pub first_place-only :
    (p : ℕ → Bool) (n i m : ℕ)
    → i ≤ m
    → m < i + n
    → p m ≡ true
    → ((j : ℕ) → j ≢ m → p j ≡ false)
    → first_place p n i ≡ some m
unfolding first_place
first_place-only p zero i m l u h only = absurd (omega arith)
first_place-only p (suc n) i m l u h only = elim (ℕ_discrete i m) [
  | yes e ↦ let t : p i ≡ true = rw e h in rw (first_place, t, e) refl
  | no d ↦
      rw (first_place, only i d)
        (first_place-only p n (i + 1) m (omega (arith, d)) (omega arith) h only)
]

-- When some place passes a test, the first one does.
pub first_place-some :
    (p : ℕ → Bool) (n i m : ℕ)
    → i ≤ m
    → m < i + n
    → p m ≡ true
    → (r : ℕ) × (first_place p n i ≡ some r) × (p r ≡ true)
unfolding first_place
first_place-some p zero i m l u h = absurd (omega arith)
first_place-some p (suc n) i m l u h = elim (Bool-cases (p i)) [
  | inl e ↦ (i, rw (first_place, e) refl, e)
  | inr e ↦
      let ne : i ≢ m = λ s. absurd (ground (arith, e, rw (sym s) at h)) in
      let (r, run, ok) = first_place-some p n (i + 1) m (omega (arith, ne)) (omega arith) h in
      (r, rw (first_place, e) run, ok)
]

-- `get_free_task` takes a place that is free, when there is one.
pub get_free_task-some :
    (k : Kernel) (m : ℕ)
    → m < task_nr
    → k.table m ≡ false
    → (i : ℕ) × (get_free_task k
        ≡ some (i, record k { table = put k.table i true; tasks = put k.tasks i (no_task i) }))
      × (k.table i ≡ false)
unfolding get_free_task
get_free_task-some k m l free =
    let (i, found, ok) =
      first_place-some (λ i. not (k.table i)) task_nr 0 m (omega arith) (omega arith)
        (rw free refl) in
    (i, rw (get_free_task, found) refl, ground (arith, ok))

-- What is found lies in the range.
pub first_place-lt : (p : ℕ → Bool) (n i r : ℕ) → first_place p n i ≡ some r → (i ≤ r) × (r < i + n)
unfolding first_place
first_place-lt p zero i r e = absurd (ground (arith, e))
first_place-lt p (suc n) i r e = elim (Bool-cases (p i)) [
  | inl h ↦ let s : i ≡ r = ground (arith, e) in (omega (arith, s), omega (arith, s))
  | inr h ↦
      let b = first_place-lt p n (i + 1) r (rw h at e) in (omega (arith, b.0), omega (arith, b.1))
]
