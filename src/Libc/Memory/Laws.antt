-- ===== src/Libc/Memory/Laws.antt =====
-- What the counted functions do inside their buffers.
use onix.Base.{
  ℕ, zero, suc, ◌%◌, ◌^◌, ◌≤◌, ◌<◌, ◌≡◌, ◌↔◌, ap₂, ℕ_discrete, refl, some, List, [], ◌∷◌, ◌++◌,
  length, take, drop, replicate, arith,
}
use onix.Base.Int.{ℤ, pos}
use onix.Libc.Memory.{memset, memcpy, memcmp, compare_chars}

-- `memset` inside a buffer fills its first `count` bytes and leaves the others.
pub memset-replicate :
    (ptr : List ℕ) (ch count : ℕ)
    → count ≤ length ptr
    → memset ptr ch count ≡ some (replicate count (ch % 2 ^ 8) ++ drop count ptr)
unfolding memset
memset-replicate ptr ch zero h = refl
memset-replicate [] ch (suc count) h = absurd (omega arith)
memset-replicate (b ∷ ptr) ch (suc count) h = ground (arith, memset-replicate ptr ch count)

-- `memcpy` inside its buffers writes the first `count` bytes of the source and leaves the others.
pub memcpy-take :
    (ptr src : List ℕ) (count : ℕ)
    → count ≤ length ptr
    → count ≤ length src
    → memcpy ptr src count ≡ some (take count src ++ drop count ptr)
unfolding memcpy
memcpy-take ptr src zero h k = refl
memcpy-take [] src (suc count) h k = absurd (omega arith)
memcpy-take (b ∷ ptr) [] (suc count) h k = absurd (omega arith)
memcpy-take (b ∷ ptr) (c ∷ src) (suc count) h k = ground (arith, memcpy-take ptr src count)

-- Two bytes compare as 0 only if they are the same.
pub compare_chars-zero : (a b : ℕ) → a < 256 → b < 256 → compare_chars a b ≡ pos 0 → a ≡ b
unfolding compare_chars
compare_chars-zero a b ha hb e = ground arith

pub compare_chars_self : (a : ℕ) → compare_chars a a ≡ pos 0
unfolding compare_chars
compare_chars_self a = ground arith

abbrev pub AreBytes : List ℕ → Type 0
AreBytes [] = Unit
AreBytes (c ∷ cs) = (c < 256) × AreBytes cs

-- `memcmp` inside its buffers of bytes returns, and its result is 0 exactly when the first `count`
-- bytes are the same.
pub memcmp-zero :
    (lhs rhs : List ℕ) (count : ℕ)
    → AreBytes lhs
    → AreBytes rhs
    → count ≤ length lhs
    → count ≤ length rhs
    → (v : ℤ) × (memcmp lhs rhs count ≡ some v) × ((v ≡ pos 0) ↔ (take count lhs ≡ take count rhs))
unfolding memcmp
memcmp-zero lhs rhs zero x y h k = (pos 0, refl, ((λ e. refl), λ e. refl))
memcmp-zero [] rhs (suc count) x y h k = absurd (omega arith)
memcmp-zero (a ∷ lhs) [] (suc count) x y h k = absurd (omega arith)
memcmp-zero (a ∷ lhs) (b ∷ rhs) (suc count) x y h k = elim (ℕ_discrete a b) [
  | yes same ↦
      let (v, e, zero_iff) = memcmp-zero lhs rhs count x.1 y.1 (omega arith) (omega arith) in
      (v, ground (arith, e), ((λ z. ap₂ ◌∷◌ same (zero_iff.0 z)), λ l. zero_iff.1 (tail-eq l)))
  | no other ↦ (
    compare_chars a b,
    ground arith,
    ((λ z. absurd (other (compare_chars-zero a b x.0 y.0 z))), λ l. absurd (other (head-eq l))),
  )
]
  where
    tail-eq : (a ∷ take count lhs) ≡ (b ∷ take count rhs) → take count lhs ≡ take count rhs
    tail-eq l = cc

    head-eq : (a ∷ take count lhs) ≡ (b ∷ take count rhs) → a ≡ b
    head-eq l = cc
