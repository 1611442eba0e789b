-- ===== src/Libc/Text/Order.antt =====
-- `strcmp`: equality and order of texts.
use onix.Base.{ℕ, ◌≡◌, ◌↔◌, refl, sym, ap, ap₂, ℕ_discrete, some, List, [], ◌∷◌, arith}
use onix.Base.Int.{ℤ, pos}
use onix.Libc.Memory.{compare_chars}
use onix.Libc.Memory.Laws.{compare_chars-zero, compare_chars_self, AreBytes}
use onix.Libc.Text.{strcmp}
use onix.Libc.Text.Copy.{IsText, text}

-- `strcmp` returns for any two texts of bytes, and its result is 0 exactly when they are the same.
pub strcmp-zero :
    (cs ds r q : List ℕ)
    → IsText cs
    → IsText ds
    → AreBytes cs
    → AreBytes ds
    → (v : ℤ) × (strcmp (text cs r) (text ds q) ≡ some v) × ((v ≡ pos 0) ↔ (cs ≡ ds))
unfolding strcmp
strcmp-zero [] [] r q s t x y = (pos 0, ap some (compare_chars_self 0), ((λ e. refl), λ e. refl))
strcmp-zero [] (d ∷ ds) r q s t x y = (
  compare_chars 0 d,
  ground arith,
  ((λ e. absurd (t.0 (sym (compare_chars-zero 0 d (omega arith) y.0 e)))), λ e. cc),
)
strcmp-zero (c ∷ cs) [] r q s t x y = (
  compare_chars c 0,
  ground arith,
  ((λ e. absurd (s.0 (compare_chars-zero c 0 x.0 (omega arith) e))), λ e. cc),
)
strcmp-zero (c ∷ cs) (d ∷ ds) r q s t x y = elim (ℕ_discrete c d) [
  | yes same ↦
      let (v, e, zero_iff) = strcmp-zero cs ds r q s.1 t.1 x.1 y.1 in
      (v, ground (arith, e), ((λ z. ap₂ ◌∷◌ same (zero_iff.0 z)), λ l. zero_iff.1 (tail-eq l)))
  | no other ↦ (
    compare_chars c d,
    ground arith,
    ((λ z. absurd (other (compare_chars-zero c d x.0 y.0 z))), λ l. absurd (other (head-eq l))),
  )
]
  where
    tail-eq : (c ∷ cs) ≡ (d ∷ ds) → cs ≡ ds
    tail-eq l = cc

    head-eq : (c ∷ cs) ≡ (d ∷ ds) → c ≡ d
    head-eq l = cc
