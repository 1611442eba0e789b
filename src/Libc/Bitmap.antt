-- ===== src/Libc/Bitmap.antt =====
-- src/lib/bitmap.c: a map of bits over a byte buffer, numbered from an offset.
pub mod Bits
pub mod Scan
mod Tests
use onix.Base.{
  ℕ, zero, suc, ◌+◌, ◌-◌, ◌*◌, ◌/◌, ◌%◌, ◌^◌, Bool, true, false, not, Option, none, some, List,
  get_elem?, set, ◌==◌, ltb, leb, if◌then◌else◌, bit_and, bit_or, ◌>>=◌, ◌>>◌, assert,
}
use onix.Base.Bits.{complement}
use onix.Libc.Memory.{memset}

-- `bitmap_t`; `bits` is the whole buffer that the caller lends.
pub record Bitmap : Type 0 where
  pub bits : List ℕ
  pub length : ℕ
  pub offset : ℕ

-- `bitmap_make`
pub make : List ℕ → ℕ → ℕ → Bitmap
make bits length offset = record { bits = bits; length = length; offset = offset }

-- `bitmap_init`
pub init : List ℕ → ℕ → ℕ → Option Bitmap
init bits length start = do zeroed ← memset bits 0 length; some (make zeroed length start)

-- `bitmap_test`: `none` where an `assert` fails, and outside the buffer.
pub test : Bitmap → ℕ → Option Bool
test map index = do
  assert (leb map.offset index)
  let idx = index - map.offset
  assert (ltb (idx / 8) map.length)
  byte ← get_elem? map.bits (idx / 8)
  some (not (bit_and byte (2 ^ (idx % 8)) == 0))

-- The byte that `bitmap_set` writes back, cut to `u8`; the masks are made at 32 bits.
pub new_byte : ℕ → ℕ → Bool → ℕ
new_byte byte bits value =
    if value
    then bit_or byte (2 ^ bits) % 2 ^ 8
    else bit_and byte (complement 32 (2 ^ bits)) % 2 ^ 8

-- `bitmap_set`. Its first `assert` holds of every `bool`, and it does not compare with `length`.
pub set_bit : Bitmap → ℕ → Bool → Option Bitmap
set_bit map index value = do
  assert (leb map.offset index)
  let idx = index - map.offset
  byte ← get_elem? map.bits (idx / 8)
  some (record map { bits = set map.bits (idx / 8) (new_byte byte (idx % 8) value) })

-- `EOF`, -100, as the bits of an `int`.
abbrev pub eof : ℕ
eof = 2 ^ 32 - 100

-- The counter of `bitmap_scan` after a bit: one more free bit, or none.
pub counted : Bool → ℕ → ℕ
counted used counter = if used then 0 else (counter + 1) % 2 ^ 32

-- The search of `bitmap_scan`, which recurs on `bits_left`; its result is `start`.
pub find_run : Bitmap → ℕ → ℕ → ℕ → ℕ → Option ℕ
find_run map count zero next_bit counter = some eof
find_run map count (suc bits_left) next_bit counter =
    elim (test map ((map.offset + next_bit) % 2 ^ 32)) [
      | none ↦ none
      | some used ↦ elim (counted used counter == count) [
        | true ↦ some (((next_bit + 1) % 2 ^ 32 + 2 ^ 32 - count) % 2 ^ 32)
        | false ↦ find_run map count bits_left ((next_bit + 1) % 2 ^ 32) (counted used counter)
      ]
    ]

-- The second loop of `bitmap_scan`, which sets the bits that were found.
pub mark_run : Bitmap → ℕ → ℕ → Option Bitmap
mark_run map zero next_bit = some map
mark_run map (suc bits_left) next_bit =
    set_bit map ((map.offset + next_bit) % 2 ^ 32) true >>= λ map'.
    mark_run map' bits_left ((next_bit + 1) % 2 ^ 32)

-- `bitmap_scan`: its result, as the bits of an `int`, and the map.
pub scan : Bitmap → ℕ → Option (ℕ × Bitmap)
scan map count = do
  start ← find_run map count (map.length * 8 % 2 ^ 32) 0 0
  if start == eof
      then some (eof, map)
      else do map' ← mark_run map count start; some ((start + map.offset) % 2 ^ 32, map')
