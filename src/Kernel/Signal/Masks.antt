-- ===== src/Kernel/Signal/Masks.antt =====
-- The bits of signal masks.
use native.Mathlib.Nat.{pow-le-pow_right}
use onix.Base.{
  ℕ, zero, suc, ◌+◌, ◌-◌, ◌^◌, ◌≤◌, ◌<◌, ◌≡◌, ◌≢◌, ◌∙◌, true, false, ◌==◌, if◌then◌else◌, arith,
  inl, inr, Bool-cases, bit_and, ℕ_discrete,
}
use onix.Base.Bits.{bit, bit-lt, bit-bit_and, bit-pow, bit_and-pow_iff, complement, bit-complement}
use onix.Kernel.Signal.{sigmask, first_signal}

pub sigmask-lt : (i : ℕ) → i < 31 → 2 ^ i < 2 ^ 32
sigmask-lt i h =
    let p = pow-le-pow_right {n = 2} (omega arith) {i = i} {j = 30} (omega arith) in
    omega (arith, p)

-- A mask without one bit.
pub bit-cleared :
    (j i x : ℕ)
    → j < 31
    → i < 32
    → bit (bit_and x (complement 32 (2 ^ j))) i ≡ (if j == i then 0 else bit x i)
bit-cleared j i x h l =
    let c = bit-complement i 32 (2 ^ j) (sigmask-lt j h) l in
    let p = bit-pow j i in
    let b = bit-lt x i in
    elim (ℕ_discrete j i) [
      | yes e ↦
          let t : (j == i) ≡ true = ground (arith, e) in
          rw (bit-bit_and i x (complement 32 (2 ^ j)), c, p, t) (ground (arith, b))
      | no e ↦
          let t : (j == i) ≡ false = ground (arith, e) in
          rw (bit-bit_and i x (complement 32 (2 ^ j)), c, p, t) (ground (arith, b))
    ]

-- `first_signal` finds the lowest bit from a place on.
pub record IsFirst (map from r : ℕ) : Type 0 where
  pub not_before : from ≤ r
  pub there : bit map (r - 1) ≡ 1
  pub clear : (i : ℕ) → from ≤ i + 1 → i + 1 < r → bit map i ≡ 0

pub first_signal-IsFirst :
    (map n from j : ℕ)
    → 1 ≤ from
    → from ≤ j + 1
    → j + 1 < from + n
    → bit map j ≡ 1
    → IsFirst map from (first_signal map n from) × (first_signal map n from ≤ j + 1)
unfolding first_signal
first_signal-IsFirst map zero from j one l u h = absurd (omega arith)
first_signal-IsFirst map (suc n) from j one l u h =
    let test = bit_and-pow_iff (from - 1) map in
    elim (Bool-cases (bit map (from - 1) == 0)) [
      | inl e ↦
          let go : (bit_and map (sigmask from) == 0) ≡ true = test ∙ e in
          let ne : from ≢ j + 1 =
            λ s. let p : from - 1 ≡ j = omega (arith, s) in absurd (ground (arith, h, rw p at e)) in
          let (f, b) =
            first_signal-IsFirst map n (from + 1) j (omega arith) (omega (arith, ne)) (omega arith)
              h in
          rw (first_signal, go)
            (
              record {
                not_before = omega (arith, f.not_before);
                there = f.there;
                clear = λ i p q. elim (ℕ_discrete (i + 1) from) [
                  | yes s ↦ ground (arith, e, s)
                  | no s ↦ f.clear i (omega (arith, s, p)) q
                ];
              },
              b,
            )
      | inr e ↦
          let stop : (bit_and map (sigmask from) == 0) ≡ false = test ∙ e in
          let bound = bit-lt map (from - 1) in
          rw (first_signal, stop)
            (
              record {
                not_before = omega arith;
                there = ground (arith, e, bound);
                clear = λ i p q. absurd (omega arith);
              },
              l,
            )
    ]
