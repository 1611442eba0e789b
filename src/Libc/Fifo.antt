-- ===== src/Libc/Fifo.antt =====
-- src/lib/fifo.c: a ring of bytes that keeps one cell free and drops its oldest byte when full.
pub mod Queue
pub mod Inv
pub mod Refine
mod Tests
use onix.Base.{
  ℕ, zero, suc, ◌+◌, ◌%◌, ◌^◌, Bool, true, false, Option, none, some, List, get_elem?, set, ◌==◌,
  if◌then◌else◌, not, ◌>>=◌, ◌>>◌, assert,
}

-- `fifo_t`; `buf` holds the `length` bytes that the caller lends.
pub record Fifo : Type 0 where
  pub buf : List ℕ
  pub length : ℕ
  pub head : ℕ
  pub tail : ℕ

-- `fifo_next`, with the sum taken at 32 bits.
pub next : Fifo → ℕ → ℕ
next f pos = (pos + 1) % 2 ^ 32 % f.length

-- `fifo_init`
pub init : List ℕ → ℕ → Fifo
init buf length = record { buf = buf; length = length; head = 0; tail = 0 }

-- `fifo_full`
pub full : Fifo → Bool
full f = next f f.head == f.tail

-- `fifo_empty`
pub empty : Fifo → Bool
empty f = f.head == f.tail

-- `fifo_get`: `none` on an empty ring (the `assert`) and on a read outside the buffer.
pub get : Fifo → Option (ℕ × Fifo)
get f = do
  assert (not (empty f))
  byte ← get_elem? f.buf f.tail
  some (byte, record f { tail = next f f.tail })

-- The loop of `fifo_put`, on fuel.
pub make_room : ℕ → Fifo → Option Fifo
make_room zero f = none
make_room (suc fuel) f = elim (full f) [
  | true ↦ (get f >>= λ r. make_room fuel r.1)
  | false ↦ some f
]

-- `fifo_put`. One `fifo_get` frees a cell, so the loop tests twice at most.
pub put : Fifo → ℕ → Option Fifo
put f byte = do
  g ← make_room 2 f
  some (record g { buf = set g.buf g.head byte; head = next g g.head })
