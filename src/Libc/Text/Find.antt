-- ===== src/Libc/Text/Find.antt =====
-- Searching texts: `strsep`, `strrsep`, `strchr`, `strrchr`.
use onix.Base.{
  ℕ, suc, ◌+◌, ◌≡◌, ◌≢◌, ◌∙◌, refl, Bool, true, false, Option, none, some, List, [], ◌∷◌, ◌++◌,
  length, if◌then◌else◌, arith,
}
use onix.Libc.Text.{eos, first_match, last_match, is_separator, strsep, strrsep}
use onix.Libc.Text.Copy.{IsText, text}

-- No byte of `cs` meets the test.
abbrev pub Misses : (ℕ → Bool) → List ℕ → Type 0
Misses p [] = Unit
Misses p (c ∷ cs) = (p c ≡ false) × Misses p cs

module _ (p : ℕ → Bool) where
  pub first_match-some :
      (ds : List ℕ) (c : ℕ) (r : List ℕ)
      → IsText ds
      → Misses p ds
      → p c ≡ true
      → first_match p (ds ++ (c ∷ r)) ≡ some (some (length ds))
  unfolding first_match
  first_match-some [] c r t m e = rw e
  first_match-some (d ∷ ds) c r t m e = ground (arith, first_match-some ds c r t.1 m.1 e)

  pub first_match-none :
      (cs r : List ℕ)
      → IsText cs
      → Misses p cs
      → p eos ≡ false
      → first_match p (text cs r) ≡ some none
  unfolding first_match
  first_match-none [] r t m e = rw e
  first_match-none (c ∷ cs) r t m e = ground (arith, first_match-none cs r t.1 m.1 e)

  last_match-kept :
      (cs r : List ℕ) (i : ℕ) (last : Option ℕ)
      → IsText cs
      → Misses p cs
      → p eos ≡ false
      → last_match p (text cs r) i last ≡ some last
  unfolding last_match
  last_match-kept [] r i last t m e = rw e
  last_match-kept (c ∷ cs) r i last t m e =
      ground (arith, last_match-kept cs r (i + 1) last t.1 m.1 e)

  last_match-some :
      (ds : List ℕ) (c : ℕ) (cs r : List ℕ) (i : ℕ) (last : Option ℕ)
      → IsText ds
      → c ≢ eos
      → IsText cs
      → p c ≡ true
      → Misses p cs
      → p eos ≡ false
      → last_match p (ds ++ (c ∷ text cs r)) i last ≡ some (some (i + length ds))
  unfolding last_match
  last_match-some [] c cs r i last s n t hit m e =
      ground (arith, last_match-kept cs r (i + 1) (some i) t m e)
  last_match-some (d ∷ ds) c cs r i last s n t hit m e =
      let sum : i + 1 + length ds ≡ i + suc (length ds) = omega arith in
      ground (
        arith,
        sum,
        last_match-some ds c cs r (i + 1) (if p d then some i else last) s.1 n t hit m e,
      )

-- In a text without a separator `strsep` and `strrsep` return `NULL`. In one made of `ds`, a
-- separator, and `cs`, `strsep` returns that separator if `ds` has none, and `strrsep` if `cs` has
-- none.
pub separators_lem :
    (ds : List ℕ) (c : ℕ) (cs r : List ℕ)
    → IsText ds
    → IsText cs
    → is_separator c ≡ true
    → Misses is_separator cs
    → (strrsep (ds ++ (c ∷ text cs r)) ≡ some (some (length ds)))
      × (strsep (cs ++ (c ∷ text ds r)) ≡ some (some (length cs)))
      × (strsep (text cs r) ≡ some none)
      × (strrsep (text cs r) ≡ some none)
unfolding strsep strrsep
separators_lem ds c cs r s t hit m = (
  last_match-some is_separator ds c cs r 0 none s ne t hit m eos_miss ∙ ground arith,
  first_match-some is_separator cs c (text ds r) t m hit,
  first_match-none is_separator cs r t m eos_miss,
  last_match-kept is_separator cs r 0 none t m eos_miss,
)
  where
    eos_miss : is_separator eos ≡ false
    eos_miss = unfold is_separator in refl

    ne : c ≢ eos
    ne = unfold is_separator in ground arith
