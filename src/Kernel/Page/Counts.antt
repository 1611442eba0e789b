-- ===== src/Kernel/Page/Counts.antt =====
-- `free_pages` counts the pages without users.
use onix.Base.{
  ℕ, zero, suc, ◌+◌, ◌≤◌, ◌<◌, ◌≡◌, refl, ap, ◌∙◌, true, ◌==◌, if◌then◌else◌, arith, inl, inr,
  ℕ_discrete, Bool-cases,
}
use onix.Libc.Nodes.{put}
use onix.Libc.Nodes.Laws.{put_self, put_other}

abbrev pub one_if_zero : ℕ → ℕ
one_if_zero a = if a == 0 then 1 else 0

-- How many of `n` places from `i` on are 0.
abbrev pub zeros : (ℕ → ℕ) → ℕ → ℕ → ℕ
zeros f zero i = 0
zeros f (suc n) i = (if f i == 0 then 1 else 0) + zeros f n (i + 1)

pub zeros-le : (f : ℕ → ℕ) (n i : ℕ) → zeros f n i ≤ n
zeros-le f zero i = omega arith
zeros-le f (suc n) i = elim (Bool-cases (f i == 0)) [
  | inl e ↦ rw e (omega (arith, zeros-le f n (i + 1)))
  | inr e ↦ rw e (omega (arith, zeros-le f n (i + 1)))
]

zeros-put_below : (f : ℕ → ℕ) (j v n i : ℕ) → j < i → zeros (put f j v) n i ≡ zeros f n i
zeros-put_below f j v zero i l = refl
zeros-put_below f j v (suc n) i l =
    rw (put_other f j i v (λ e. omega (arith, e)), zeros-put_below f j v n (i + 1) (omega arith))
      refl

pub zeros-put :
    (f : ℕ → ℕ) (j v n i : ℕ)
    → i ≤ j
    → j < i + n
    → zeros (put f j v) n i + one_if_zero (f j) ≡ zeros f n i + one_if_zero v
zeros-put f j v zero i l u = absurd (omega arith)
zeros-put f j v (suc n) i l u = elim (ℕ_discrete i j) [
  | yes e ↦
      let rest = zeros-put_below f j v n (i + 1) (omega (arith, e)) in
      let here : put f j v i ≡ v = ap (put f j v) e ∙ put_self f j v in
      rw (here, e, rw e at rest) (omega arith)
  | no d ↦
      let rest = zeros-put f j v n (i + 1) (omega (arith, d)) (omega arith) in
      rw (put_other f j i v d) (omega (arith, rest))
]

pub zeros-some :
    (f : ℕ → ℕ) (n i : ℕ) → 0 < zeros f n i → (j : ℕ) × (i ≤ j) × (j < i + n) × ((f j == 0) ≡ true)
zeros-some f zero i h = absurd (omega arith)
zeros-some f (suc n) i h = elim (Bool-cases (f i == 0)) [
  | inl e ↦ (i, omega arith, omega arith, e)
  | inr e ↦
      let p : 0 < 0 + zeros f n (i + 1) = rw e at h in
      let (j, l, u, z) = zeros-some f n (i + 1) (omega (arith, p)) in
      (j, omega (arith, l), omega (arith, u), z)
]
