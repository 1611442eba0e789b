-- ===== src/Libc/Text.antt =====
-- src/lib/string.c, the functions on texts that end with `EOS`. A pointer is the list of the bytes
-- from its place to the end of its buffer; `none` is an access past that end. A `char *` that a
-- function returns is the offset from its argument, and `NULL` the inner `none`.
pub mod Copy
pub mod Order
pub mod Find
mod Tests
use onix.Base.{
  ℕ, zero, suc, ◌+◌, ◌-◌, Bool, true, false, Option, none, some, List, [], ◌∷◌, ◌==◌, ltb, not,
  ◌&&◌, ◌||◌, if◌then◌else◌, length, set, ◌>>=◌, ◌>>◌, assert,
}
use onix.Base.Int.{ℤ, pos, eqb_ℤ}
use onix.Libc.Memory.{char_of, compare_chars}

-- `EOS`
abbrev pub eos : ℕ
eos = 0

-- `strcpy`: the bytes from `dest` on.
pub strcpy : List ℕ → List ℕ → Option (List ℕ)
strcpy [] src = none
strcpy (d ∷ dest) [] = none
strcpy (d ∷ dest) (c ∷ src) = elim (c == eos) [
  | true ↦ some (c ∷ dest)
  | false ↦ strcpy dest src >>= λ rest. some (c ∷ rest)
]

-- The loop of `strncpy`, with whether it returned before its end.
pub strncpy_loop : List ℕ → List ℕ → ℕ → Option (Bool × List ℕ)
strncpy_loop dest src zero = some (false, dest)
strncpy_loop [] src (suc count) = none
strncpy_loop (d ∷ dest) [] (suc count) = none
strncpy_loop (d ∷ dest) (c ∷ src) (suc count) = elim (c == eos) [
  | true ↦ some (true, c ∷ dest)
  | false ↦ strncpy_loop dest src count >>= λ r. some (r.0, c ∷ r.1)
]

-- `strncpy`. With a count of 0 it would write before `dest`.
pub strncpy : List ℕ → List ℕ → ℕ → Option (List ℕ)
strncpy dest src count = do
  r ← strncpy_loop dest src count
  if r.0 then some r.1 else do assert (ltb 0 count); some (set r.1 (count - 1) eos)

-- `strcat`
pub strcat : List ℕ → List ℕ → Option (List ℕ)
strcat [] src = none
strcat (d ∷ dest) src = elim (d == eos) [
  | true ↦ strcpy (d ∷ dest) src
  | false ↦ strcat dest src >>= λ rest. some (d ∷ rest)
]

-- `strnlen`
pub strnlen : List ℕ → ℕ → Option ℕ
strnlen [] maxlen = none
strnlen (c ∷ str) zero = some 0
strnlen (c ∷ str) (suc maxlen) = elim (c == eos) [
  | true ↦ some 0
  | false ↦ strnlen str maxlen >>= λ n. some (n + 1)
]

-- `strlen`
pub strlen : List ℕ → Option ℕ
strlen [] = none
strlen (c ∷ str) = elim (c == eos) [ true ↦ some 0 | false ↦ strlen str >>= λ n. some (n + 1) ]

-- `strcmp`
pub strcmp : List ℕ → List ℕ → Option ℤ
strcmp [] rhs = none
strcmp (a ∷ lhs) [] = none
strcmp (a ∷ lhs) (b ∷ rhs) = elim (a == b && not (a == eos) && not (b == eos)) [
  | true ↦ strcmp lhs rhs
  | false ↦ some (compare_chars a b)
]

-- The offset of a match further on.
abbrev pub behind : Option (Option ℕ) → Option (Option ℕ)
behind none = none
behind (some none) = some none
behind (some (some i)) = some (some (i + 1))

-- The first match of a test, up to and with the `EOS`: the loop of `strchr` and `strsep`.
pub first_match : (ℕ → Bool) → List ℕ → Option (Option ℕ)
first_match p [] = none
first_match p (c ∷ str) = elim (p c) [
  | true ↦ some (some 0)
  | false ↦ elim (c == eos) [ true ↦ some none | false ↦ behind (first_match p str) ]
]

-- The last match: the loop of `strrchr` and `strrsep`, with the offset and the match so far.
pub last_match : (ℕ → Bool) → List ℕ → ℕ → Option ℕ → Option (Option ℕ)
last_match p [] i last = none
last_match p (c ∷ str) i last =
    let last' = if p c then some i else last in
    elim (c == eos) [ true ↦ some last' | false ↦ last_match p str (i + 1) last' ]

-- `strchr`
pub strchr : List ℕ → ℤ → Option (Option ℕ)
strchr str ch = first_match (λ c. eqb_ℤ (char_of c) ch) str

-- `strrchr`
pub strrchr : List ℕ → ℤ → Option (Option ℕ)
strrchr str ch = last_match (λ c. eqb_ℤ (char_of c) ch) str 0 none

-- `IS_SEPARATOR`: a slash or a backslash.
pub is_separator : ℕ → Bool
is_separator c = c == 47 || c == 92

-- `strsep`
pub strsep : List ℕ → Option (Option ℕ)
strsep str = first_match is_separator str

-- `strrsep`
pub strrsep : List ℕ → Option (Option ℕ)
strrsep str = last_match is_separator str 0 none
