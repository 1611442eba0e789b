-- ===== src/Libc/Number/Tests.antt =====
-- The theorems of stdlib.c at concrete numbers.
use onix.Base.{◌≡◌, refl}
use onix.Libc.Number.{toupper, tolower}

letters : (toupper b'q' ≡ b'Q') × (tolower b'Q' ≡ b'q') × (toupper b'4' ≡ b'4')
unfolding toupper tolower
letters = (refl, refl, refl)
