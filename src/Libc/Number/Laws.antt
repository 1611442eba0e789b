-- ===== src/Libc/Number/Laws.antt =====
-- Round trips and bounds of stdlib.c.
use native.Mathlib.Nat.{div-add-mod', mod-lt}
use onix.Base.{
  ℕ, ◌+◌, ◌-◌, ◌*◌, ◌%◌, ◌^◌, ◌≤◌, ◌<◌, ◌≡◌, refl, true, false, some, List, [], ◌∷◌, ◌++◌, ◌==◌,
  arith, ==_iff, ap,
}
use onix.Base.Table.{all_below, all_below-at}
use onix.Libc.Number.{bcd_to_bin, bin_to_bcd, div_round_up, char_digit, atoi_loop, atoi}

bcd_table : all_below 100 (λ v. bcd_to_bin (bin_to_bcd v) == v) ≡ true
unfolding all_below bcd_to_bin bin_to_bcd
bcd_table = refl

-- Every value of two decimal digits comes back from its decimal code.
pub bcd_to_bin-bin_to_bcd : (v : ℕ) → v < 100 → bcd_to_bin (bin_to_bcd v) ≡ v
bcd_to_bin-bin_to_bcd v h = (==_iff _ v).0 (all_below-at 100 _ v bcd_table h)

-- For numbers whose sum fits 32 bits, `div_round_up` pieces of `size` hold `num`, with less than one
-- piece to spare.
pub div_round_up-least :
    (num size : ℕ)
    → 0 < size
    → num + size < 2 ^ 32
    → (num ≤ div_round_up num size * size) × (div_round_up num size * size < num + size)
unfolding div_round_up
div_round_up-least num size h k =
    let sum : ((num + size) % 2 ^ 32 + 2 ^ 32 - 1) % 2 ^ 32 ≡ num + size - 1 = omega arith in
    rw sum (omega (arith, div-add-mod' (num + size - 1) size, mod-lt (num + size - 1) h))

-- The decimal digits of a text, read on from `n`.
abbrev pub decimal : List ℕ → ℕ → ℕ
decimal [] n = n
decimal (d ∷ ds) n = decimal ds (n * 10 + (d - b'0'))

abbrev pub AreDigits : List ℕ → Type 0
AreDigits [] = Unit
AreDigits (d ∷ ds) = (b'0' ≤ d) × (d ≤ b'9') × AreDigits ds

decimal-le : (ds : List ℕ) (n : ℕ) → n ≤ decimal ds n
decimal-le [] n = omega arith
decimal-le (d ∷ ds) n = omega (arith, decimal-le ds (n * 10 + (d - b'0')))

char_digit-digit : (d : ℕ) → b'0' ≤ d → d ≤ b'9' → char_digit d ≡ d - b'0'
unfolding char_digit
char_digit-digit d h k = ground arith

atoi_loop-decimal :
    (ds r : List ℕ) (n : ℕ)
    → AreDigits ds
    → decimal ds n < 2 ^ 31
    → atoi_loop (ds ++ (0 ∷ r)) n ≡ some (decimal ds n)
unfolding atoi_loop
atoi_loop-decimal [] r n a h = refl
atoi_loop-decimal (d ∷ ds) r n a h =
    let next : (n * 10 + char_digit d) % 2 ^ 32 ≡ n * 10 + (d - b'0') =
      omega (arith, char_digit-digit d a.0 a.1, decimal-le ds (n * 10 + (d - b'0')), h) in
    let rest : atoi_loop (ds ++ (0 ∷ r)) ((n * 10 + char_digit d) % 2 ^ 32)
        ≡ some (decimal ds (n * 10 + (d - b'0'))) =
      rw next (atoi_loop-decimal ds r (n * 10 + (d - b'0')) a.2 h) in
    ground (arith, rest)

-- `atoi` of decimal digits whose number is below 2 ^ 31 returns that number, and the bit pattern of
-- its negative where a minus stands in front.
pub atoi-decimal :
    (d : ℕ) (ds r : List ℕ)
    → AreDigits (d ∷ ds)
    → decimal (d ∷ ds) 0 < 2 ^ 31
    → (atoi (some (d ∷ ds ++ (0 ∷ r))) ≡ some (decimal (d ∷ ds) 0))
      × (atoi (some (b'-' ∷ d ∷ ds ++ (0 ∷ r))) ≡ some ((2 ^ 32 - decimal (d ∷ ds) 0) % 2 ^ 32))
unfolding atoi
atoi-decimal d ds r a h =
    let read = atoi_loop-decimal (d ∷ ds) r 0 a h in
    let minus : decimal (d ∷ ds) 0 * (2 ^ 32 - 1) % 2 ^ 32
        ≡ (2 ^ 32 - decimal (d ∷ ds) 0) % 2 ^ 32 =
      omega (arith, h) in
    let plus : decimal (d ∷ ds) 0 * 1 % 2 ^ 32 ≡ decimal (d ∷ ds) 0 = omega (arith, h) in
    let no_sign : (d == b'-') ≡ false = ground (arith, a.0) in
    (rw (atoi, no_sign, read, no_sign) (ap some plus), rw (atoi, read) (ap some minus))
