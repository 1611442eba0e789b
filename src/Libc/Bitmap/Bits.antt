-- ===== src/Libc/Bitmap/Bits.antt =====
-- `bitmap_test` and `bitmap_set` as reading and writing one bit.
use native.Mathlib.Nat.{pow-le-pow_right}
use onix.Base.{
  ℕ, ◌+◌, ◌-◌, ◌*◌, ◌/◌, ◌%◌, ◌^◌, ◌≤◌, ◌<◌, ◌≡◌, ◌≢◌, ◌∙◌, sym, Bool, true, false, not, some,
  length, get_or, set, length-set, get_or-set, get_elem?-get_or, ◌==◌, if◌then◌else◌, bit_and,
  bit_or, arith,
}
use onix.Base.Bits.{
  bit, bit-lt, bit-bit_and, bit-bit_or, bit-pow, bit_and-pow_iff, complement, bit-complement,
  bit-mod,
}
use onix.Libc.Bitmap.{Bitmap, test, new_byte, set_bit}

-- The buffer holds `length` bytes, and no place of the map lies beyond an `int`.
pub record IsValid (m : Bitmap) : Type 0 where
  pub storage : m.length ≤ length m.bits
  pub small : m.offset + m.length * 8 < 2 ^ 31

-- The bit at place `j` of the buffer, 0 or 1.
abbrev pub at : Bitmap → ℕ → ℕ
at m j = bit (get_or m.bits (j / 8) 0) (j % 8)

-- `bitmap_test` reads the bit, inside the map.
pub test-at :
    {m : Bitmap} (j : ℕ)
    → IsValid m
    → j < m.length * 8
    → test m (m.offset + j) ≡ some (not (at m j == 0))
unfolding test
test-at {m} j v h =
    let place : m.offset + j - m.offset ≡ j = omega arith in
    rw place (
      ground (
        arith,
        get_elem?-get_or m.bits (j / 8) 0,
        bit_and-pow_iff (j % 8) (get_or m.bits (j / 8) 0),
      ))

pow-small : (k : ℕ) → k < 8 → 2 ^ k < 2 ^ 32
pow-small k h = omega (arith, pow-le-pow_right {n = 2} (omega arith) {i = k} {j = 7} (omega arith))

-- The byte that is written has the new value at its place and the old digits elsewhere.
bit-new_byte :
    (b k i : ℕ) (value : Bool)
    → k < 8
    → i < 8
    → bit (new_byte b k value) i ≡ (if k == i then (if value then 1 else 0) else bit b i)
unfolding new_byte
bit-new_byte b k i true hk hi =
    ground
      (arith, bit-mod i 8 (bit_or b (2 ^ k)) hi, bit-bit_or i b (2 ^ k), bit-pow k i, bit-lt b i)
bit-new_byte b k i false hk hi = ground (
  arith,
  bit-mod i 8 (bit_and b (complement 32 (2 ^ k))) hi,
  bit-bit_and i b (complement 32 (2 ^ k)),
  bit-complement i 32 (2 ^ k) (pow-small k hk),
  bit-pow k i,
  bit-lt b i,
)

-- The map with the bit at place `j` written.
abbrev pub written : Bitmap → ℕ → Bool → Bitmap
written m j value = record m {
  bits = set m.bits (j / 8) (new_byte (get_or m.bits (j / 8) 0) (j % 8) value);
}

-- `bitmap_set` returns for each place of the buffer.
pub set_bit-written :
    (m : Bitmap) (j : ℕ) (value : Bool)
    → j < length m.bits * 8
    → set_bit m (m.offset + j) value ≡ some (written m j value)
unfolding set_bit
set_bit-written m j value h =
    let place : m.offset + j - m.offset ≡ j = omega arith in
    rw place (ground (arith, get_elem?-get_or m.bits (j / 8) 0))

pub written-IsValid : {m : Bitmap} (j : ℕ) (value : Bool) → IsValid m → IsValid (written m j value)
written-IsValid {m} j value v = record {
  storage = omega (
    arith,
    v.storage,
    length-set m.bits (j / 8) (new_byte (get_or m.bits (j / 8) 0) (j % 8) value),
  );
  small = v.small;
}

-- Afterwards that bit alone has changed.
pub at-written :
    (m : Bitmap) (j i : ℕ) (value : Bool)
    → j < length m.bits * 8
    → at (written m j value) i ≡ (if j == i then (if value then 1 else 0) else at m i)
at-written m j i value h = ground (
  arith,
  get_or-set m.bits (j / 8) (i / 8) (new_byte (get_or m.bits (j / 8) 0) (j % 8) value) 0,
  bit-new_byte (get_or m.bits (j / 8) 0) (j % 8) (i % 8) value,
)

-- `bitmap_set` of a place inside a valid map returns a valid map in which `bitmap_test` finds the
-- value written at that place, and at every other place of the map what it found before.
pub set_bit-test :
    (m : Bitmap) (j : ℕ) (value : Bool)
    → IsValid m
    → j < m.length * 8
    → (m' : Bitmap) × (set_bit m (m.offset + j) value ≡ some m')
      × IsValid m'
      × (test m' (m.offset + j) ≡ some value)
      × ((i : ℕ) → i < m.length * 8 → i ≢ j → test m' (m.offset + i) ≡ test m (m.offset + i))
set_bit-test m j value v h =
    let inside : j < length m.bits * 8 = omega (arith, v.storage) in
    let v' = written-IsValid j value v in
    (
      written m j value,
      set_bit-written m j value inside,
      v',
      test-at j v' h ∙ ground (arith, at-written m j j value inside),
      λ i hi ne.
          test-at i v' hi ∙ ground (arith, at-written m j i value inside) ∙ sym (test-at i v hi),
    )
