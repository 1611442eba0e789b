-- ===== src/Libc/Text/Copy.antt =====
-- Copying texts: `strlen`, `strnlen`, `strcpy`, `strncpy`, `strcat`.
use onix.Base.{
  ℕ, zero, suc, ◌-◌, ◌≤◌, ◌<◌, ◌≡◌, ◌≢◌, refl, ap, true, false, some, List, [], ◌∷◌, ◌++◌, length,
  take, drop, set, arith, min, dec_lt,
}
use onix.Libc.Text.{eos, strcpy, strncpy_loop, strncpy, strcat, strnlen, strlen}

-- No byte of a text is `EOS`.
abbrev pub IsText : List ℕ → Type 0
IsText [] = Unit
IsText (c ∷ cs) = (c ≢ eos) × IsText cs

-- A buffer that begins with the text `cs`.
abbrev pub text : List ℕ → List ℕ → List ℕ
text cs r = cs ++ (eos ∷ r)

-- `strlen` gives the length of the text, and `strnlen` that or the limit, whichever is less.
pub strlen-text :
    (cs r : List ℕ) (maxlen : ℕ)
    → IsText cs
    → (strlen (text cs r) ≡ some (length cs))
      × (strnlen (text cs r) maxlen ≡ some (min (length cs) maxlen))
unfolding strlen strnlen
strlen-text [] r zero t = (refl, refl)
strlen-text [] r (suc maxlen) t = (refl, ground arith)
strlen-text (c ∷ cs) r zero t = (ground (arith, strlen-text cs r zero t.1), ground arith)
strlen-text (c ∷ cs) r (suc maxlen) t =
    (ground (arith, strlen-text cs r maxlen t.1), ground (arith, strlen-text cs r maxlen t.1))

pub strcpy-text :
    (dest cs r : List ℕ)
    → IsText cs
    → length cs < length dest
    → strcpy dest (text cs r) ≡ some (text cs (drop (suc (length cs)) dest))
unfolding strcpy
strcpy-text [] cs r t h = absurd (omega arith)
strcpy-text (d ∷ dest) [] r t h = refl
strcpy-text (d ∷ dest) (c ∷ cs) r t h = ground (arith, strcpy-text dest cs r t.1 (omega arith))

-- `strcat` of texts, where the buffer has room, leaves the first text followed by the second and its
-- `EOS`, and does not touch what lies beyond.
pub strcat-text :
    (ds tail cs r : List ℕ)
    → IsText ds
    → IsText cs
    → length cs ≤ length tail
    → strcat (text ds tail) (text cs r) ≡ some (ds ++ text cs (drop (length cs) tail))
unfolding strcat
strcat-text [] tail cs r s t h = strcpy-text (eos ∷ tail) cs r t (omega arith)
strcat-text (d ∷ ds) tail cs r s t h = ground (arith, strcat-text ds tail cs r s.1 t h)

loop-short :
    (dest cs r : List ℕ) (count : ℕ)
    → IsText cs
    → length cs < count
    → count ≤ length dest
    → strncpy_loop dest (text cs r) count ≡ some (true, text cs (drop (suc (length cs)) dest))
unfolding strncpy_loop
loop-short dest cs r zero t h k = absurd (omega arith)
loop-short [] cs r (suc count) t h k = absurd (omega arith)
loop-short (d ∷ dest) [] r (suc count) t h k = refl
loop-short (d ∷ dest) (c ∷ cs) r (suc count) t h k =
    ground (arith, loop-short dest cs r count t.1 (omega arith) (omega arith))

loop-long :
    (dest cs r : List ℕ) (count : ℕ)
    → IsText cs
    → count ≤ length cs
    → count ≤ length dest
    → strncpy_loop dest (text cs r) count ≡ some (false, take count cs ++ drop count dest)
unfolding strncpy_loop
loop-long dest cs r zero t h k = refl
loop-long [] cs r (suc count) t h k = absurd (omega arith)
loop-long (d ∷ dest) [] r (suc count) t h k = absurd (omega arith)
loop-long (d ∷ dest) (c ∷ cs) r (suc count) t h k =
    ground (arith, loop-long dest cs r count t.1 (omega arith) (omega arith))

take_all : (n : ℕ) (cs : List ℕ) → length cs ≤ n → take n cs ≡ cs
take_all zero [] h = refl
take_all zero (c ∷ cs) h = absurd (omega arith)
take_all (suc n) [] h = refl
take_all (suc n) (c ∷ cs) h = ap (λ (l : List ℕ). c ∷ l) (take_all n cs (omega arith))

set-take :
    (cs w : List ℕ) (k : ℕ)
    → k < length cs
    → set (take (suc k) cs ++ w) k eos ≡ take k cs ++ (eos ∷ w)
set-take [] w k h = absurd (omega arith)
set-take (c ∷ cs) w zero h = refl
set-take (c ∷ cs) w (suc k) h = ap (λ (l : List ℕ). c ∷ l) (set-take cs w k (omega arith))

-- `strncpy` of a text, for a count that is not 0 and fits the buffer, leaves the text cut to one
-- byte less than the count, always ended by `EOS`.
pub strncpy-text :
    (dest cs r : List ℕ) (k : ℕ)
    → IsText cs
    → suc k ≤ length dest
    → (w : List ℕ) × (strncpy dest (text cs r) (suc k) ≡ some (text (take k cs) w))
unfolding strncpy
strncpy-text dest cs r k t h = elim (dec_lt (length cs) (suc k)) [
  | yes short ↦ (
    drop (suc (length cs)) dest,
    rw (loop-short dest cs r (suc k) t short h, take_all k cs (omega arith)),
  )
  | no long ↦ (
    drop (suc k) dest,
    let last : suc k - 1 ≡ k = omega arith in
        rw (loop-long dest cs r (suc k) t (omega arith) h)
          (ground (arith, last, set-take cs (drop (suc k) dest) k)),
  )
]
