-- ===== src/Libc/Memory.antt =====
-- src/lib/string.c, the functions on counted bytes: `memset`, `memcpy`, `memcmp`, `memchr`.
-- A pointer is the list of the bytes from its place to the end of its buffer; `none` is an access
-- past that end.
pub mod Laws
use onix.Base.{
  ℕ, zero, suc, ◌%◌, ◌^◌, ◌+◌, ◌-◌, Option, none, some, List, [], ◌∷◌, Bool, true, false, ◌==◌, ltb,
  leb, if◌then◌else◌, ◌>>=◌,
}
use onix.Base.Int.{ℤ, pos, negsuc, leb_ℤ, eqb_ℤ}

-- The `char` that a byte stands for: it is signed.
abbrev pub char_of : ℕ → ℤ
char_of b = if ltb b 128 then pos b else negsuc (255 - b)

-- `*lhs < *rhs ? -1 : *lhs > *rhs`
pub compare_chars : ℕ → ℕ → ℤ
compare_chars a b =
    if leb_ℤ (char_of b) (char_of a)
    then (if leb_ℤ (char_of a) (char_of b) then pos 0 else pos 1)
    else negsuc 0

-- `memset`; a `char` is the low byte of `ch`.
pub memset : List ℕ → ℕ → ℕ → Option (List ℕ)
memset ptr ch zero = some ptr
memset [] ch (suc count) = none
memset (b ∷ ptr) ch (suc count) = do rest ← memset ptr ch count; some ((ch % 2 ^ 8) ∷ rest)

-- `memcpy`, for buffers that do not overlap.
unfoldable pub memcpy : List ℕ → List ℕ → ℕ → Option (List ℕ)
memcpy ptr src zero = some ptr
memcpy [] src (suc count) = none
memcpy (b ∷ ptr) [] (suc count) = none
memcpy (b ∷ ptr) (c ∷ src) (suc count) = do rest ← memcpy ptr src count; some (c ∷ rest)

-- `memcmp`
pub memcmp : List ℕ → List ℕ → ℕ → Option ℤ
memcmp lhs rhs zero = some (pos 0)
memcmp [] rhs (suc count) = none
memcmp (a ∷ lhs) [] (suc count) = none
memcmp (a ∷ lhs) (b ∷ rhs) (suc count) = elim (a == b) [
  | true ↦ memcmp lhs rhs count
  | false ↦ some (compare_chars a b)
]

-- `memchr`: the offset of the byte. The function ends without a `return` where there is none, which
-- is the inner `none`.
pub memchr : List ℕ → ℤ → ℕ → Option (Option ℕ)
memchr str ch zero = some none
memchr [] ch (suc count) = none
memchr (b ∷ str) ch (suc count) = elim (eqb_ℤ (char_of b) ch) [
  | true ↦ some (some 0)
  | false ↦ elim (memchr str ch count) [
    | none ↦ none
    | some none ↦ some none
    | some (some i) ↦ some (some (i + 1))
  ]
]
