-- ===== src/Net/Addr/Parse.antt =====
-- `inet_aton` of an address that is written out.
use onix.Base.{
  ℕ, suc, ◌+◌, ◌-◌, ◌*◌, ◌/◌, ◌%◌, ◌^◌, ◌<◌, true, false, some, List, [], ◌∷◌, ◌==◌, ltb, leb,
  if◌then◌else◌, ◌&&◌, ◌||◌, ◌≡◌, refl, sym, ap, ◌∙◌, arith, dec_lt, Bool-cases, inl, inr,
}
use onix.Base.Int.{pos}
use onix.Net.Addr.{dot, part_loop, set_part, aton_loop, inet_aton}

-- The digits of a byte, in front of a text.
pub written : ℕ → List ℕ → List ℕ
written n cs =
    if ltb n 10
    then (48 + n) ∷ cs
    else if ltb n 100
    then (48 + n / 10) ∷ (48 + n % 10) ∷ cs
    else (48 + n / 100) ∷ (48 + n / 10 % 10) ∷ (48 + n % 10) ∷ cs

-- A text that a number can end at.
pub Ends : List ℕ → Type 0
Ends [] = Unit
Ends (c ∷ cs) = c ≡ dot

stop_loop : (cs : List ℕ) (v k : ℕ) → Ends cs → part_loop cs v k ≡ some (v, k, cs)
unfolding part_loop Ends
stop_loop [] v k e = refl
stop_loop (c ∷ cs) v k e = let t : (c == dot) ≡ true = ground (arith, e) in rw t refl

digit_loop :
    (d : ℕ) (cs : List ℕ) (v k : ℕ)
    → d < 10
    → v < 2 ^ 16
    → part_loop ((48 + d) ∷ cs) v k ≡ part_loop cs (v * 10 + d) (k + 1)
unfolding part_loop
digit_loop d cs v k h l =
    let e1 : (48 + d == dot) ≡ false = ground arith in
    let e2 : (leb 48 (48 + d) && leb (48 + d) 57) ≡ true = ground arith in
    let e3 : (v * 10 + (48 + d - 48)) % 2 ^ 32 ≡ v * 10 + d = omega arith in rw (e1, e2, e3) refl

-- A byte is read back, with the number of its digits.
written_loop :
    (n : ℕ) (cs : List ℕ)
    → n < 256
    → Ends cs
    → (k : ℕ) × (0 < k) × (part_loop (written n cs) 0 0 ≡ some (n, k, cs))
unfolding written
written_loop n cs h e = elim (dec_lt n 10) [
  | yes a ↦
      let t : ltb n 10 ≡ true = ground arith in
      let r : 0 * 10 + n ≡ n = omega arith in
      (
        1,
        omega arith,
        rw t (
            digit_loop n cs 0 0 a (omega arith)
            ∙ (ap (λ v. part_loop cs v (0 + 1)) r ∙ stop_loop cs n 1 e)),
      )
  | no a ↦ elim (dec_lt n 100) [
    | yes b ↦
        let t : ltb n 10 ≡ false = ground arith in
        let u : ltb n 100 ≡ true = ground arith in
        let r : (0 * 10 + n / 10) * 10 + n % 10 ≡ n = omega arith in
        (
          2,
          omega arith,
          rw (t, u)
              (digit_loop (n / 10) ((48 + n % 10) ∷ cs) 0 0 (omega arith) (omega arith)
                ∙ (digit_loop (n % 10) cs (0 * 10 + n / 10) (0 + 1) (omega arith) (omega arith)
                    ∙ (ap (λ v. part_loop cs v (0 + 1 + 1)) r ∙ stop_loop cs n 2 e))),
        )
    | no b ↦
        let t : ltb n 10 ≡ false = ground arith in
        let u : ltb n 100 ≡ false = ground arith in
        let r : ((0 * 10 + n / 100) * 10 + n / 10 % 10) * 10 + n % 10 ≡ n = omega arith in
        (
          3,
          omega arith,
          rw (t, u)
              (digit_loop (n / 100) ((48 + n / 10 % 10) ∷ (48 + n % 10) ∷ cs) 0 0 (omega arith)
                  (omega arith)
                ∙ (digit_loop (n / 10 % 10) ((48 + n % 10) ∷ cs) (0 * 10 + n / 100) (0 + 1)
                      (omega arith) (omega arith)
                    ∙ (digit_loop (n % 10) cs ((0 * 10 + n / 100) * 10 + n / 10 % 10) (0 + 1 + 1)
                          (omega arith) (omega arith)
                        ∙ (ap (λ v. part_loop cs v (0 + 1 + 1 + 1)) r ∙ stop_loop cs n 3 e)))),
        )
  ]
]

written_cons : (n : ℕ) (cs : List ℕ) → (d : ℕ) × (ds : List ℕ) × (written n cs ≡ d ∷ ds)
unfolding written
written_cons n cs = elim (Bool-cases (ltb n 10)) [
  | inl e ↦ (48 + n, cs, rw e refl)
  | inr e ↦ elim (Bool-cases (ltb n 100)) [
    | inl f ↦ (48 + n / 10, (48 + n % 10) ∷ cs, rw (e, f) refl)
    | inr f ↦ (48 + n / 100, (48 + n / 10 % 10) ∷ (48 + n % 10) ∷ cs, rw (e, f) refl)
  ]
]

-- A number of the address and the dot behind it.
aton_more :
    (n k left i parts d : ℕ) (ds cs : List ℕ)
    → n < 256
    → 0 < k
    → part_loop (d ∷ ds) 0 0 ≡ some (n, k, dot ∷ cs)
    → aton_loop (suc left) i (d ∷ ds) parts ≡ aton_loop left (i + 1) cs (set_part i n parts)
unfolding aton_loop
aton_more n k left i parts d ds cs h l run =
    let c : ((k == 0) || leb 256 n) ≡ false = ground arith in rw (aton_loop, run, c) refl

aton_last :
    (n k i parts d : ℕ) (ds : List ℕ)
    → n < 256
    → 0 < k
    → part_loop (d ∷ ds) 0 0 ≡ some (n, k, [])
    → aton_loop 1 i (d ∷ ds) parts ≡ some (pos 0, set_part i n parts)
unfolding aton_loop
aton_last n k i parts d ds h l run =
    let c : ((k == 0) || leb 256 n) ≡ false = ground arith in rw (aton_loop, run, c) refl

aton_step :
    (n left i parts : ℕ) (cs : List ℕ)
    → n < 256
    → aton_loop (suc left) i (written n (dot ∷ cs)) parts
      ≡ aton_loop left (i + 1) cs (set_part i n parts)
unfolding Ends
aton_step n left i parts cs h =
    let (k, l, run) = written_loop n (dot ∷ cs) h refl in
    let (d, ds, e) = written_cons n (dot ∷ cs) in
    ap (λ t. aton_loop (suc left) i t parts) e
    ∙ aton_more n k left i parts d ds cs h l (ap (λ t. part_loop t 0 0) (sym e) ∙ run)

aton_end :
    (n i parts : ℕ)
    → n < 256
    → aton_loop 1 i (written n []) parts ≡ some (pos 0, set_part i n parts)
unfolding Ends
aton_end n i parts h =
    let (k, l, run) = written_loop n [] h tt in
    let (d, ds, e) = written_cons n [] in
    ap (λ t. aton_loop 1 i t parts) e
    ∙ aton_last n k i parts d ds h l (ap (λ t. part_loop t 0 0) (sym e) ∙ run)

-- Four bytes, written in decimal with dots between them, are read as the address of these bytes, the first
-- one lowest, whatever the stack had in the place of the result.
pub inet_aton-written :
    (a b c d parts : ℕ)
    → a < 256
    → b < 256
    → c < 256
    → d < 256
    → parts < 2 ^ 32
    → inet_aton (written a (dot ∷ written b (dot ∷ written c (dot ∷ written d [])))) parts
      ≡ some (pos 0, a + b * 2 ^ 8 + c * 2 ^ 16 + d * 2 ^ 24)
unfolding inet_aton
inet_aton-written a b c d parts ha hb hc hd hp =
    let p1 = set_part 0 a parts in
    let p2 = set_part 1 b p1 in
    let p3 = set_part 2 c p2 in
    aton_step a 3 0 parts (written b (dot ∷ written c (dot ∷ written d []))) ha
    ∙ (aton_step b 2 1 p1 (written c (dot ∷ written d [])) hb
        ∙ (aton_step c 1 2 p2 (written d []) hc
            ∙ (aton_end d 3 p3 hd ∙ ap (λ t. some (pos 0, t)) (omega arith))))
