-- ===== src/Net/Port.antt =====
-- src/net/port.c: the ports in use, as a bitmap of 65536 bits numbered from 0.
pub mod Named
pub mod AnyPort
mod Tests
use onix.Base.{
  ℕ, zero, suc, ◌+◌, ◌*◌, ◌%◌, ◌^◌, Bool, true, false, Option, none, some, List, ltb, ◌==◌,
  if◌then◌else◌, ◌>>=◌, ◌>>◌, assert,
}
use onix.Base.Int.{ℤ, pos, neg}
use onix.Libc.Bitmap.{Bitmap, init, test, set_bit}

-- `EOCCUPIED`
abbrev pub eoccupied : ℕ
eoccupied = 106

-- `while (bitmap_test(&map->map, port++))`, on fuel: the port after the test that ends it. The
-- counter is an `u16`.
pub next_port : ℕ → Bitmap → ℕ → Option ℕ
next_port zero map port = none
next_port (suc fuel) map port = elim (test map port) [
  | none ↦ none
  | some true ↦ next_port fuel map ((port + 1) % 2 ^ 16)
  | some false ↦ some ((port + 1) % 2 ^ 16)
]

-- `port_get`: the result and the map. There are 65536 ports, so if one is free the loop finds it
-- within as many tests.
pub port_get : Bitmap → ℕ → Option (ℤ × Bitmap)
port_get map port =
    if port == 0
    then (do
      port' ← next_port (2 ^ 16) map 4096
      map' ← set_bit map port' true
      some (pos port', map'))
    else (do
      used ← test map port
      if used
          then some (neg eoccupied, map)
          else do map' ← set_bit map port true; some (pos port, map'))

-- `port_put`
pub port_put : Bitmap → ℕ → Option Bitmap
port_put map port = do
  assert (ltb 0 port)
  used ← test map port
  assert used
  set_bit map port false

-- `port_init`, for the two pages that `alloc_kpage` hands out.
pub port_init : List ℕ → Option Bitmap
port_init pages = init pages (4096 * 2) 0
