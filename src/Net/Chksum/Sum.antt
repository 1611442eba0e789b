-- ===== src/Net/Chksum/Sum.antt =====
-- The checksum against the sum of the words, and a packet that carries its own checksum.
use onix.Base.{
  ℕ, zero, suc, ◌+◌, ◌-◌, ◌*◌, ◌/◌, ◌%◌, ◌^◌, ◌≤◌, ◌<◌, some, List, [], ◌∷◌, ◌++◌, ◌≡◌, refl, ap,
  ◌∙◌, arith,
}
use onix.Libc.LinkedList.Chain.{All}
use onix.Net.Chksum.{fold_early, add_words, fold_loop, chksum, complement_u16, ip_chksum}

-- The one of 0 .. 65535 that differs from `x` by a multiple of 65535, and is 0 only for 0.
pub normal : ℕ → ℕ
normal zero = 0
normal (suc x) = x % 65535 + 1

unfoldable pub IsByte : ℕ → Type 0
IsByte b = b < 2 ^ 8

-- The sum of the words of the bytes, the first byte of a word lowest.
pub words_sum : List ℕ → ℕ
words_sum [] = 0
words_sum (a ∷ []) = a
words_sum (a ∷ b ∷ ptr) = a + b * 2 ^ 8 + words_sum ptr

normal-fold : (x c : ℕ) → normal (x % 2 ^ 16 + x / 2 ^ 16 + c) ≡ normal (x + c)
unfolding normal
normal-fold x c = ground arith

normal-fold_early : (x c : ℕ) → normal (fold_early x + c) ≡ normal (x + c)
normal-fold_early x c = ground (arith, normal-fold x c)

fold_early_lt : (x w : ℕ) → x < 2 ^ 31 + 2 ^ 16 → w < 2 ^ 16 → fold_early x + w < 2 ^ 31 + 2 ^ 16
fold_early_lt x w h k = ground arith

normal_pos : (x : ℕ) → 0 < x → normal x ≡ (x - 1) % 65535 + 1
unfolding normal
normal_pos zero h = absurd (omega arith)
normal_pos (suc x) h = omega arith

normal_add : (x y c : ℕ) → normal x ≡ normal y → normal (x + c) ≡ normal (y + c)
unfolding normal
normal_add zero zero c h = refl
normal_add zero (suc y) c h = absurd (omega (arith, h))
normal_add (suc x) zero c h = absurd (omega (arith, h))
normal_add (suc x) (suc y) c h =
    omega (arith, h, normal_pos (suc x + c) (omega arith), normal_pos (suc y + c) (omega arith))

normal_small : (x : ℕ) → x < 2 ^ 16 → normal x ≡ x
unfolding normal
normal_small zero h = refl
normal_small (suc x) h = omega arith

-- The loop keeps the sum below 2 ^ 32, and adds the words up.
normal-add_words :
    (ptr : List ℕ) (sum : ℕ)
    → All IsByte ptr
    → sum < 2 ^ 31 + 2 ^ 16
    → (add_words ptr sum < 2 ^ 32) × (normal (add_words ptr sum) ≡ normal (sum + words_sum ptr))
unfolding add_words words_sum IsByte
normal-add_words [] sum b h = (omega (arith, h), ap normal (omega arith))
normal-add_words (a ∷ []) sum b h = (omega arith, ap normal (omega arith))
normal-add_words (a ∷ c ∷ ptr) sum b h =
    let lt = fold_early_lt sum (a + c * 2 ^ 8) h (omega (arith, b.0, b.1.0)) in
    let e : (fold_early sum + (a + c * 2 ^ 8)) % 2 ^ 32 ≡ fold_early sum + (a + c * 2 ^ 8) =
      omega (arith, lt) in
    let r = normal-add_words ptr (fold_early sum + (a + c * 2 ^ 8)) b.1.1 lt in
    rw e (
      r.0,
      r.1
          ∙ (ap normal (omega arith)
              ∙ (normal-fold_early sum (a + c * 2 ^ 8 + words_sum ptr) ∙ ap normal (omega arith))),
    )

fold_loop-normal : (n x : ℕ) → x < 2 ^ 32 → fold_loop (3 + n) x ≡ some (normal x)
unfolding fold_loop normal
fold_loop-normal n zero h = ground arith
fold_loop-normal n (suc x) h = ground arith

-- The checksum is the sum of the words brought below 2 ^ 16.
pub chksum-normal :
    (n : ℕ) (bytes : List ℕ) (sum : ℕ)
    → All IsByte bytes
    → sum < 2 ^ 31
    → chksum (3 + n) bytes sum ≡ some (normal (sum + words_sum bytes))
unfolding chksum
chksum-normal n bytes sum b h =
    let r = normal-add_words bytes sum b (omega (arith, h)) in
    fold_loop-normal n (add_words bytes sum) r.0 ∙ ap (λ t. some t) r.1

-- A list of bytes that comes in whole words.
pub data EvenLength : List ℕ → Type 0 where
  even_nil : EvenLength []
  even_cons : (a b : ℕ) (ptr : List ℕ) → EvenLength ptr → EvenLength (a ∷ b ∷ ptr)

words_sum-append :
    (xs ys : List ℕ) → EvenLength xs → words_sum (xs ++ ys) ≡ words_sum xs + words_sum ys
unfolding words_sum
words_sum-append _ ys even_nil = omega arith
words_sum-append _ ys (even_cons a b xs e) = omega (arith, words_sum-append xs ys e)

All-bytes_around :
    (xs : List ℕ) (a b c d : ℕ) (ys : List ℕ)
    → c < 2 ^ 8
    → d < 2 ^ 8
    → All IsByte (xs ++ (a ∷ b ∷ ys))
    → All IsByte (xs ++ (c ∷ d ∷ ys))
unfolding IsByte
All-bytes_around [] a b c d ys h k all = (h, (k, all.1.1))
All-bytes_around (x ∷ xs) a b c d ys h k all = (all.0, All-bytes_around xs a b c d ys h k all.1)

-- A sum, with its complement added, comes to 65535.
normal_complement : (x : ℕ) → normal (x + (65535 - normal x)) ≡ 65535
unfolding normal
normal_complement zero = refl
normal_complement (suc x) =
    omega (arith, normal_pos (suc x + (65535 - (x % 65535 + 1))) (omega arith))

normal_le : (x : ℕ) → normal x ≤ 65535
unfolding normal
normal_le zero = omega arith
normal_le (suc x) = omega arith

words_sum_field :
    (xs : List ℕ) (a b : ℕ) (ys : List ℕ)
    → EvenLength xs
    → words_sum (xs ++ (a ∷ b ∷ ys)) ≡ words_sum xs + words_sum ys + (a + b * 2 ^ 8)
unfolding words_sum
words_sum_field xs a b ys e = omega (arith, words_sum-append xs (a ∷ b ∷ ys) e)

ip_chksum-normal :
    (n : ℕ) (bytes : List ℕ) (s : ℕ)
    → All IsByte bytes
    → words_sum bytes ≡ s
    → ip_chksum (3 + n) bytes ≡ some (65535 - normal s)
unfolding ip_chksum
ip_chksum-normal n bytes s b e =
    ap complement_u16 (chksum-normal n bytes 0 b (omega arith))
    ∙ ap (λ t. some (65535 - normal t)) (omega (arith, e))

-- A packet with a field of two bytes on an even place: where the field is 0, the checksum is computed,
-- and once it stands in the field, low byte first, the checksum of the packet is 0, which is what the
-- receiver tests.
pub ip_chksum-verifies :
    (n : ℕ) (before after : List ℕ)
    → EvenLength before
    → All IsByte (before ++ (0 ∷ 0 ∷ after))
    → (c : ℕ) × (c < 2 ^ 16)
      × (ip_chksum (3 + n) (before ++ (0 ∷ 0 ∷ after)) ≡ some c)
      × (ip_chksum (3 + n) (before ++ ((c % 2 ^ 8) ∷ (c / 2 ^ 8) ∷ after)) ≡ some 0)
ip_chksum-verifies n xs ys e b =
    let s = words_sum xs + words_sum ys in
    let c = 65535 - normal s in
    let zeroed : words_sum (xs ++ (0 ∷ 0 ∷ ys)) ≡ s = omega (arith, words_sum_field xs 0 0 ys e) in
    let carried : words_sum (xs ++ ((c % 2 ^ 8) ∷ (c / 2 ^ 8) ∷ ys)) ≡ s + c =
      omega (arith, words_sum_field xs (c % 2 ^ 8) (c / 2 ^ 8) ys e) in
    let b' = All-bytes_around xs 0 0 (c % 2 ^ 8) (c / 2 ^ 8) ys (omega arith) (omega arith) b in
    (
      c,
      omega arith,
      ip_chksum-normal n (xs ++ (0 ∷ 0 ∷ ys)) s b zeroed,
      ip_chksum-normal n (xs ++ ((c % 2 ^ 8) ∷ (c / 2 ^ 8) ∷ ys)) (s + c) b' carried
          ∙ ap (λ t. some (65535 - t)) (normal_complement s),
    )
