-- ===== src/Net/Iovec/Payload.antt =====
-- The sequence of bytes that an array of buffers stands for.
use native.Mathlib.Numerals.{unary_clauses}
use onix.Base.{
  ℕ, zero, suc, some, ◌+◌, ◌-◌, ◌%◌, ◌^◌, ◌≤◌, ◌<◌, ◌≡◌, refl, sym, ap, ◌∙◌, ◌⊎◌, inl, inr,
  append-nil, List, [], ◌∷◌, ◌++◌, length, take, drop, arith, length-append, length-take,
}
use onix.Net.Iovec.{Iovec, iovec_size}

-- The bytes that a buffer still has room for.
abbrev pub window : Iovec → List ℕ
window v = take v.size v.base

abbrev pub payload : List Iovec → List ℕ
payload [] = []
payload (v ∷ iov) = window v ++ payload iov

-- Every buffer reaches as far as its size says.
abbrev pub Reach : List Iovec → Type 0
Reach [] = Unit
Reach (v ∷ iov) = (v.size ≤ length v.base) × Reach iov

module _ {ℓ} {A : Type ℓ} where
  pub take-append :
      (n : ℕ) (xs ys : List A) → take n (xs ++ ys) ≡ take n xs ++ take (n - length xs) ys
  take-append zero [] ys = refl
  take-append zero (x ∷ xs) ys = ground arith
  take-append (suc n) [] ys = simp unary_clauses refl
  take-append (suc n) (x ∷ xs) ys = simp unary_clauses (ground (arith, take-append n xs ys))

  pub drop-append :
      (n : ℕ) (xs ys : List A) → drop n (xs ++ ys) ≡ drop n xs ++ drop (n - length xs) ys
  drop-append zero [] ys = refl
  drop-append zero (x ∷ xs) ys = ground arith
  drop-append (suc n) [] ys = simp unary_clauses refl
  drop-append (suc n) (x ∷ xs) ys = simp unary_clauses (ground (arith, drop-append n xs ys))

  pub take-all : (n : ℕ) (xs : List A) → length xs ≤ n → take n xs ≡ xs
  take-all zero [] h = refl
  take-all zero (x ∷ xs) h = absurd (omega arith)
  take-all (suc n) [] h = refl
  take-all (suc n) (x ∷ xs) h = ground (arith, take-all n xs)

  pub drop-all : (n : ℕ) (xs : List A) → length xs ≤ n → drop n xs ≡ []
  drop-all zero [] h = refl
  drop-all zero (x ∷ xs) h = absurd (omega arith)
  drop-all (suc n) [] h = refl
  drop-all (suc n) (x ∷ xs) h = ground (arith, drop-all n xs)

  pub drop-drop : (n k : ℕ) (xs : List A) → drop n (drop k xs) ≡ drop (k + n) xs
  drop-drop n zero xs = let e : 0 + n ≡ n = omega arith in rw e refl
  drop-drop zero (suc k) [] = simp unary_clauses refl
  drop-drop (suc n) (suc k) [] = simp unary_clauses refl
  drop-drop n (suc k) (x ∷ xs) =
      let e : suc k + n ≡ suc (k + n) = omega arith in rw e (drop-drop n k xs)

  pub take-take : (n k : ℕ) (xs : List A) → n ≤ k → take n (take k xs) ≡ take n xs
  take-take zero k xs h = refl
  take-take (suc n) zero xs h = absurd (omega arith)
  take-take (suc n) (suc k) [] h = refl
  take-take (suc n) (suc k) (x ∷ xs) h = ground (arith, take-take n k xs)

  pub drop-take : (n k : ℕ) (xs : List A) → drop n (take k xs) ≡ take (k - n) (drop n xs)
  drop-take zero k xs = simp unary_clauses refl
  drop-take (suc n) zero xs = let e : 0 - suc n ≡ 0 = omega arith in rw e refl
  drop-take (suc n) (suc k) [] = sym (take-all (suc k - suc n) [] (omega arith))
  drop-take (suc n) (suc k) (x ∷ xs) = simp unary_clauses (drop-take n k xs)

pub length-window : (v : Iovec) → v.size ≤ length v.base → length (window v) ≡ v.size
length-window v h = omega (arith, length-take v.size v.base)

-- A round of `len` bytes over a buffer of `size`, with `r` more bytes from those behind it. Either
-- the round ends the loop, or it uses the buffer up.
abbrev pub Round : ℕ → ℕ → ℕ → Type 0
Round size len r = ((r ≡ 0) × (len ≤ size)) ⊎ (len ≡ size)

module _ (size len r : ℕ) (base rest : List ℕ) (h : size ≤ length base) where
  over : Round size len r → len + r - length (take size base) ≡ r
  over (inl a) = omega (arith, length-take size base, h, a.0, a.1)
  over (inr a) = omega (arith, length-take size base, h, a)

  inside : Round size len r → take (len + r) (take size base) ≡ take len base
  inside (inl a) = let e : len + r ≡ len = omega (arith, a.0) in rw e (take-take len size base a.1)
  inside (inr a) =
      rw a (take-all (size + r) (take size base) (omega (arith, length-take size base)))

  left : Round size len r → drop (len + r) (take size base) ≡ take (size - len) (drop len base)
  left (inl a) = let e : len + r ≡ len = omega (arith, a.0) in rw e (drop-take len size base)
  left (inr a) =
      let e : size - size ≡ 0 = omega arith in
      rw (a, e) (drop-all (size + r) (take size base) (omega (arith, length-take size base)))

  pub take-Round :
      Round size len r → take (len + r) (take size base ++ rest) ≡ take len base ++ take r rest
  take-Round k = take-append (len + r) (take size base) rest ∙ rw (inside k, over k) refl

  pub drop-Round :
      Round size len r
      → drop (len + r) (take size base ++ rest) ≡ take (size - len) (drop len base) ++ drop r rest
  drop-Round k = drop-append (len + r) (take size base) rest ∙ rw (left k, over k) refl

-- A buffer whose first `len` bytes are written over.
module _ (len : ℕ) (src ptr : List ℕ) (h : len ≤ length src) where
  copied : length (take len src) ≡ len
  copied = omega (arith, length-take len src, h)

  pub take-filled : take len (take len src ++ drop len ptr) ≡ take len src
  take-filled =
      let e : len - len ≡ 0 = omega arith in
      take-append len (take len src) (drop len ptr)
      ∙ rw (take-all len (take len src) (omega (arith, copied)), copied, e)
          (append-nil (take len src))

  pub drop-filled : drop len (take len src ++ drop len ptr) ≡ drop len ptr
  drop-filled =
      let e : len - len ≡ 0 = omega arith in
      drop-append len (take len src) (drop len ptr)
      ∙ rw (drop-all len (take len src) (omega (arith, copied)), copied, e) refl

module _ {ℓ} {A : Type ℓ} where
  pub drop-passed : (passed xs : List A) → drop (length passed) (passed ++ xs) ≡ xs
  drop-passed [] xs = refl
  drop-passed (x ∷ passed) xs = drop-passed passed xs

  pub take-split : (n k : ℕ) (xs : List A) → take (n + k) xs ≡ take n xs ++ take k (drop n xs)
  take-split zero k xs = let e : 0 + k ≡ k = omega arith in rw e refl
  take-split (suc n) k [] =
      rw (take-all {A = A} k [] (omega arith), take-all {A = A} (suc n + k) [] (omega arith)) refl
  take-split (suc n) k (x ∷ xs) =
      let e : suc n + k ≡ suc (n + k) = omega arith in rw e (ap (λ t. x ∷ t) (take-split n k xs))

-- The buffers of an array at their old places, with the bytes that they hold now.
abbrev pub rewind : List Iovec → List Iovec → List Iovec
rewind [] now = []
rewind (v ∷ iov) [] = v ∷ iov
rewind (v ∷ iov) (w ∷ now) =
    record v { base = drop (length v.passed) (w.passed ++ w.base) } ∷ rewind iov now

pub rewind_self : (iov : List Iovec) → payload (rewind iov iov) ≡ payload iov
rewind_self [] = refl
rewind_self (v ∷ iov) = rw (drop-passed v.passed v.base, rewind_self iov) refl

-- For buffers that reach as far as their sizes say, `iovec_size` is the number of bytes that they
-- have room for, if that fits 32 bits.
pub iovec_size-payload :
    (iov : List Iovec)
    → Reach iov
    → length (payload iov) < 2 ^ 32
    → iovec_size iov (length iov) ≡ some (length (payload iov))
unfolding iovec_size
iovec_size-payload [] h l = refl
iovec_size-payload (v ∷ iov) h l =
    let sum : length (payload (v ∷ iov)) ≡ v.size + length (payload iov) =
      omega (arith, length-append (window v) (payload iov), length-window v h.0) in
    let rest = iovec_size-payload iov h.1 (omega arith) in
    let fits : (v.size + length (payload iov)) % 2 ^ 32 ≡ length (payload (v ∷ iov)) =
      omega arith in
    rw rest (ap some fits)
