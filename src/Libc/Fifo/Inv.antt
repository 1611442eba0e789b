-- ===== src/Libc/Fifo/Inv.antt =====
-- The representation invariant of `fifo_t`.
use native.Mathlib.Nat.{mod-eq_of_lt}
use onix.Base.{ℕ, ◌+◌, ◌%◌, ◌^◌, ◌≤◌, ◌<◌, ◌≡◌, List, ◌==◌, if◌then◌else◌, arith, length}
use onix.Libc.Fifo.{Fifo, next, init}

pub record IsValid (f : Fifo) : Type 0 where
  pub storage : f.length ≤ length f.buf
  pub roomy : 2 ≤ f.length
  pub word : f.length < 2 ^ 32
  pub head_in : f.head < f.length
  pub tail_in : f.tail < f.length

-- The place after `p` in a ring of `n` cells.
abbrev pub after : ℕ → ℕ → ℕ
after n p = if p + 1 == n then 0 else p + 1

mod-after : (p n : ℕ) → p < n → (p + 1) % n ≡ after n p
mod-after p n h = grind (arith, mod-eq_of_lt)

-- `fifo_next` steps round the ring.
pub next-after : {f : Fifo} (pos : ℕ) → IsValid f → pos < f.length → next f pos ≡ after f.length pos
unfolding next
next-after {f} pos v h =
    let small : (pos + 1) % 2 ^ 32 ≡ pos + 1 = omega arith in rw small (mod-after pos f.length h)

pub init-IsValid :
    (buf : List ℕ) (n : ℕ) → n ≤ length buf → 2 ≤ n → n < 2 ^ 32 → IsValid (init buf n)
unfolding init
init-IsValid buf n h k w = omega arith
