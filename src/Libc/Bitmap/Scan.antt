-- ===== src/Libc/Bitmap/Scan.antt =====
-- `bitmap_scan` as first fit: the lowest run of free bits that is long enough.
use onix.Base.{
  ℕ, zero, suc, ◌+◌, ◌-◌, ◌*◌, ◌%◌, ◌^◌, ◌≤◌, ◌<◌, ◌≡◌, ◌≢◌, ◌∙◌, refl, ◌⊎◌, inl, inr, true, false,
  not, Option, some, length, ◌==◌, ltb, leb, if◌then◌else◌, ◌&&◌, arith, ℕ_discrete, dec_lt,
}
use onix.Libc.Bitmap.{Bitmap, test, eof, counted, find_run, mark_run, scan}
use onix.Libc.Bitmap.Bits.{
  IsValid, at, test-at, written, set_bit-written, written-IsValid, at-written,
}

-- The `count` bits from place `s` on are all free, or one of them is taken.
abbrev pub Free : Bitmap → ℕ → ℕ → Type 0
Free m s count = (i : ℕ) → s ≤ i → i < s + count → at m i ≡ 0

abbrev pub Taken : Bitmap → ℕ → ℕ → Type 0
Taken m s count = (i : ℕ) × (s ≤ i) × (i < s + count) × (at m i ≢ 0)

module _ (m : Bitmap) (count : ℕ) (v : IsValid m) where
  -- What the search comes to: no run, or the first one.
  abbrev Search : Option ℕ → Type 0
  Search r =
      ((r ≡ some eof) × ((s : ℕ) → s + count ≤ m.length * 8 → Taken m s count))
      ⊎ ((s : ℕ) × (r ≡ some s)
          × (s + count ≤ m.length * 8)
          × Free m s count
          × ((e : ℕ) → e < s → Taken m e count))

  test_next :
      (n : ℕ) → n < m.length * 8 → test m ((m.offset + n) % 2 ^ 32) ≡ some (not (at m n == 0))
  test_next n h =
      let small : (m.offset + n) % 2 ^ 32 ≡ m.offset + n = omega (arith, v.small) in
      rw small (test-at n v h)

  -- What one round does, by the bit that it reads.
  step_used :
      (left n c : ℕ)
      → n < m.length * 8
      → 0 < count
      → at m n ≢ 0
      → find_run m count (suc left) n c ≡ find_run m count left (n + 1) 0
  unfolding find_run counted
  step_used left n c h pos used =
      let small : (n + 1) % 2 ^ 32 ≡ n + 1 = omega (arith, v.small) in
      ground (arith, test_next n h, small)

  step_hit :
      (left n c : ℕ)
      → n < m.length * 8
      → c ≤ n
      → at m n ≡ 0
      → c + 1 ≡ count
      → find_run m count (suc left) n c ≡ some (n - c)
  unfolding find_run counted
  step_hit left n c h hc unused last =
      let start : ((n + 1) % 2 ^ 32 + 2 ^ 32 - count) % 2 ^ 32 ≡ n - c = omega (arith, v.small) in
      let counter : (c + 1) % 2 ^ 32 ≡ c + 1 = omega (arith, v.small) in
      ground (arith, test_next n h, start, counter)

  step_more :
      (left n c : ℕ)
      → n < m.length * 8
      → c ≤ n
      → at m n ≡ 0
      → c + 1 ≢ count
      → find_run m count (suc left) n c ≡ find_run m count left (n + 1) (c + 1)
  unfolding find_run counted
  step_more left n c h hc unused more =
      let small : (n + 1) % 2 ^ 32 ≡ n + 1 = omega (arith, v.small) in
      let counter : (c + 1) % 2 ^ 32 ≡ c + 1 = omega (arith, v.small) in
      ground (arith, test_next n h, small, counter)

  Free-next : (n c : ℕ) → c ≤ n → Free m (n - c) c → at m n ≡ 0 → Free m (n - c) (c + 1)
  Free-next n c h free here i lo hi = elim (ℕ_discrete i n) [
    | yes e ↦ rw e here
    | no ne ↦ free i lo (omega arith)
  ]

  Taken-next :
      (n c : ℕ)
      → c < count
      → at m n ≢ 0
      → ((s : ℕ) → s + c < n → Taken m s count)
      → (s : ℕ) → s < n + 1
      → Taken m s count
  Taken-next n c hc here taken s h = elim (dec_lt (s + c) n) [
    | yes lt ↦ taken s lt
    | no ge ↦ (n, omega arith, omega arith, here)
  ]

  -- `c` free bits end at place `n`, and no run starts before them.
  find_run-Search :
      (left n c : ℕ)
      → n + left ≡ m.length * 8
      → c < count
      → c ≤ n
      → Free m (n - c) c
      → ((s : ℕ) → s + c < n → Taken m s count)
      → Search (find_run m count left n c)
  find_run-Search zero n c e hc hn free taken =
      unfold find_run in inl (refl, λ s h. taken s (omega arith))
  find_run-Search (suc left) n c e hc hn free taken = elim (ℕ_discrete (at m n) 0) [
    | no used ↦ rw (step_used left n c (omega arith) (omega arith) used) (
        find_run-Search left (n + 1) 0 (omega arith) (omega arith) (omega arith)
          (λ i lo hi. absurd (omega arith)) (λ s h. Taken-next n c hc used taken s (omega arith)))
    | yes unused ↦ elim (ℕ_discrete (c + 1) count) [
      | yes last ↦ rw (step_hit left n c (omega arith) hn unused last) (
          inr (
            n - c,
            refl,
            omega arith,
            rw (← last) (Free-next n c hn free unused),
            λ s h. taken s (omega arith),
          ))
      | no more ↦
          let same : n + 1 - (c + 1) ≡ n - c = omega arith in
          rw (step_more left n c (omega arith) hn unused more) (
            find_run-Search left (n + 1) (c + 1) (omega arith) (omega arith) (omega arith)
              (rw same (Free-next n c hn free unused)) (λ s h. taken s (omega arith)))
    ]
  ]

-- The map `m'` is `m` with the `count` bits from place `s` on set.
abbrev pub Marked : Bitmap → ℕ → ℕ → Bitmap → Type 0
Marked m s count m' =
    (m'.length ≡ m.length)
    × (m'.offset ≡ m.offset)
    × ((i : ℕ) → at m' i ≡ (if leb s i && ltb i (s + count) then 1 else at m i))

mark_run_step :
    (count : ℕ) (m : Bitmap) (s : ℕ)
    → IsValid m
    → s < m.length * 8
    → mark_run m (suc count) s ≡ mark_run (written m s true) count (s + 1)
unfolding mark_run
mark_run_step count m s v h =
    let place : (m.offset + s) % 2 ^ 32 ≡ m.offset + s = omega (arith, v.small) in
    let next : (s + 1) % 2 ^ 32 ≡ s + 1 = omega (arith, v.small) in
    rw (place, set_bit-written m s true (omega (arith, v.storage)), next)

mark_run-Marked :
    (count : ℕ) (m : Bitmap) (s : ℕ)
    → IsValid m
    → s + count ≤ m.length * 8
    → (m' : Bitmap) × (mark_run m count s ≡ some m') × IsValid m' × Marked m s count m'
mark_run-Marked zero m s v h = unfold mark_run in (m, refl, v, (refl, refl, λ i. ground arith))
mark_run-Marked (suc count) m s v h =
    let inside : s < length m.bits * 8 = omega (arith, v.storage) in
    let (m', e, v', same) =
      mark_run-Marked count (written m s true) (s + 1) (written-IsValid s true v) (omega arith) in
    (
      m',
      mark_run_step count m s v (omega arith) ∙ e,
      v',
      (same.0, same.1, λ i. ground (arith, same.2 i, at-written m s i true inside)),
    )

-- What `bitmap_scan` gives: `EOF` and the map as it was, where no run of `count` bits is free; else
-- the number of the first free run's first bit, and the map with that run set.
abbrev pub FirstFit : Bitmap → ℕ → ℕ × Bitmap → Type 0
FirstFit m count (r, m') =
    ((r ≡ eof) × (m' ≡ m) × ((s : ℕ) → s + count ≤ m.length * 8 → Taken m s count))
    ⊎ ((s : ℕ) × (r ≡ s + m.offset)
        × (s + count ≤ m.length * 8)
        × Free m s count
        × ((e : ℕ) → e < s → Taken m e count)
        × IsValid m'
        × Marked m s count m')

-- `bitmap_scan` of a valid map for one bit or more returns, and is first fit: it gives `EOF` and
-- leaves the map if no run of `count` bits is free; else it gives the number of the first such run,
-- and sets exactly its bits in a map that stays valid.
pub scan-FirstFit :
    (m : Bitmap) (count : ℕ)
    → IsValid m
    → 0 < count
    → (r : ℕ × Bitmap) × (scan m count ≡ some r) × FirstFit m count r
unfolding scan
scan-FirstFit m count v pos =
    let bits : m.length * 8 % 2 ^ 32 ≡ m.length * 8 = omega (arith, v.small) in
    rw bits
      (elim (find_run-Search m count v (m.length * 8) 0 0 (omega arith) pos (omega arith)
        (λ i lo hi. absurd (omega arith)) (λ s h. absurd (omega arith))) [
          | inl (e, blocked) ↦ ((eof, m), rw e, inl (refl, refl, blocked))
          | inr (s, e, fits, free, first) ↦
              let (m', marked, v', same) = mark_run-Marked count m s v fits in
              let found : (s == eof) ≡ false = ground (arith, v.small) in
              let bit_no : (s + m.offset) % 2 ^ 32 ≡ s + m.offset = omega (arith, v.small) in
              (
                (s + m.offset, m'),
                rw (e, found, marked, bit_no),
                inr (s, refl, fits, free, first, v', same),
              )
        ])
