-- ===== src/Net/Port/Tests.antt =====
-- The theorems of port.c at concrete maps.
use onix.Base.{
  ℕ, ◌%◌, ◌/◌, ◌≡◌, refl, some, true, List, arith, replicate, length-replicate, get_or-replicate,
  ◌==◌, if◌then◌else◌,
}
use onix.Base.Bits.{bit-zero}
use onix.Base.Int.{pos}
use onix.Libc.Bitmap.{Bitmap}
use onix.Libc.Bitmap.Bits.{at, written}
use onix.Net.Port.{port_get}
use onix.Net.Port.Named.{IsPortMap, written-IsPortMap, at_port}
use onix.Net.Port.AnyPort.{FirstFree, port_get_any}

-- Two zeroed pages. (Not an `abbrev`: it is too long to compute with.)
pages : List ℕ
pages = replicate 8192 0

fresh : Bitmap
fresh = record { bits = pages; length = 8192; offset = 0 }

fresh-IsPortMap : IsPortMap fresh
unfolding fresh pages
fresh-IsPortMap = record {
  valid = record { storage = omega (arith, length-replicate {A = ℕ} 8192 0); small = omega arith };
  pages = refl;
  from_zero = refl;
}

at-fresh : (q : ℕ) → at fresh q ≡ 0
unfolding fresh pages
at-fresh q = rw (get_or-replicate {A = ℕ} 8192 0 (q / 8)) (bit-zero (q % 8))

-- The map in which port 4097 alone is taken.
one_taken : Bitmap
one_taken = written fresh 4097 true

one_taken-IsPortMap : IsPortMap one_taken
unfolding one_taken
one_taken-IsPortMap = written-IsPortMap fresh-IsPortMap 4097 true

at-one_taken : (q : ℕ) → at one_taken q ≡ (if 4097 == q then 1 else 0)
unfolding one_taken
at-one_taken q = ground (arith, at_port fresh-IsPortMap 4097 q true, at-fresh q)

first_free : FirstFree one_taken 4096 4096
first_free = (at-one_taken 4096, λ i lo hi. absurd (omega arith))

port_get_any_example : port_get one_taken 0 ≡ some (pos 4097, written one_taken 4097 true)
port_get_any_example = port_get_any 4096 one_taken-IsPortMap (omega arith) (omega arith) first_free
