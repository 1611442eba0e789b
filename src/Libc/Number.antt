-- ===== src/Libc/Number.antt =====
-- src/lib/stdlib.c: characters, decimal codes, rounding and the reading of decimal numbers.
pub mod Laws
mod Tests
use onix.Base.{
  ℕ, zero, suc, ◌+◌, ◌-◌, ◌*◌, ◌/◌, ◌%◌, ◌^◌, Bool, true, false, Option, none, some, List, [], ◌∷◌,
  ◌==◌, ltb, leb, if◌then◌else◌, ◌&&◌, bit_and, ◌>>=◌,
}
use onix.Base.Int.{ℤ, pos, neg, negsuc}

-- `toupper` and `tolower`, on bytes; one from 128 on is a negative `char`, which neither changes.
pub toupper : ℕ → ℕ
toupper ch = if leb b'a' ch && leb ch b'z' then ch - 0x20 else ch

pub tolower : ℕ → ℕ
tolower ch = if leb b'A' ch && leb ch b'Z' then ch + 0x20 else ch

-- `bcd_to_bin`, cut to `u8`.
pub bcd_to_bin : ℕ → ℕ
bcd_to_bin value = (bit_and value 0xf + value / 2 ^ 4 * 10) % 2 ^ 8

-- `bin_to_bcd`, cut to `u8`.
pub bin_to_bcd : ℕ → ℕ
bin_to_bcd value = (value / 10 * 0x10 + value % 10) % 2 ^ 8

-- `div_round_up`, at 32 bits.
pub div_round_up : ℕ → ℕ → ℕ
div_round_up num size = ((num + size) % 2 ^ 32 + 2 ^ 32 - 1) % 2 ^ 32 / size

-- `isdigit`
pub isdigit : ℕ → Bool
isdigit c = leb b'0' c && leb c b'9'

-- The bit pattern of `*str - '0'`, for the signed `char` of a byte.
pub char_digit : ℕ → ℕ
char_digit c = ((if ltb c 128 then c else c + 2 ^ 32 - 256) + 2 ^ 32 - b'0') % 2 ^ 32

-- The loop of `atoi`, on the bit patterns of `int`, with wrap-around; `none` is a read past the
-- end of the buffer.
pub atoi_loop : List ℕ → ℕ → Option ℕ
atoi_loop [] result = none
atoi_loop (c ∷ str) result = elim (c == 0) [
  | true ↦ some result
  | false ↦ atoi_loop str ((result * 10 + char_digit c) % 2 ^ 32)
]

-- `atoi`, as the bit pattern of the `int`; `NULL` is the inner `none`.
pub atoi : Option (List ℕ) → Option ℕ
atoi none = some 0
atoi (some []) = none
atoi (some (c ∷ str)) =
    let sign = if c == b'-' then 2 ^ 32 - 1 else 1 in
    elim (atoi_loop (if c == b'-' then str else c ∷ str) 0) [
      | none ↦ none
      | some result ↦ some (result * sign % 2 ^ 32)
    ]
